-- ===== src/Tests/Queues.antt =====
-- The queue of golang/client/client.go at concrete schedules.
use how.Base.{ℕ, ◌≡◌, refl, List, [], ◌∷◌, ◌++◌, true, false, some, if◌then◌else◌}
use how.Queue.Machine.{
  Machine, Label, done, outside, selecting, last_poll, gave_up, initial, step, run, enqueue, signal,
  fire, call, poll, take_sig, take_stop, same_stop,
}
use how.Queue.Fifo.{delivery_in_order}
use how.Queue.Wakeup.{no_lost_wakeup, wakeup_delivers, gives_up_drained}

abbrev one_taken : List (Label ℕ)
one_taken = enqueue 7 ∷ enqueue 8 ∷ signal ∷ call ∷ poll ∷ []

abbrev after_one : Machine ℕ
after_one = record {
  q = record { queue = 8 ∷ []; sig = true };
  signalling = 1;
  fired = λ s. false;
  waiter = outside;
  pushed = 7 ∷ 8 ∷ [];
  taken = 7 ∷ [];
}

delivery_in_order_example : ◌≡◌ {A = List ℕ} (7 ∷ 8 ∷ []) ((7 ∷ []) ++ 8 ∷ [])
unfolding run step initial
delivery_in_order_example = delivery_in_order one_taken {m = after_one} refl

abbrev blocked : List (Label ℕ)
blocked = call ∷ poll ∷ []

abbrev asleep : Machine ℕ
asleep = record {
  q = record { queue = []; sig = false };
  signalling = 0;
  fired = λ s. false;
  waiter = selecting;
  pushed = [];
  taken = [];
}

no_lost_wakeup_example : ◌≡◌ {A = List ℕ} [] []
unfolding run step initial
no_lost_wakeup_example = no_lost_wakeup blocked {m = asleep} refl refl refl refl

abbrev pushed_to : List (Label ℕ)
pushed_to = call ∷ poll ∷ enqueue 7 ∷ signal ∷ []

abbrev beside_frame : Machine ℕ
beside_frame = record {
  q = record { queue = 7 ∷ []; sig = true };
  signalling = 0;
  fired = λ s. false;
  waiter = selecting;
  pushed = 7 ∷ [];
  taken = [];
}

wakeup_delivers_example :
    (m' : Machine ℕ) × (run beside_frame (take_sig ∷ poll ∷ []) ≡ some m')
    × (m'.waiter ≡ outside)
    × (m'.taken ≡ [] ++ 7 ∷ [])
    × (m'.q.queue ≡ [])
unfolding run step initial
wakeup_delivers_example = wakeup_delivers pushed_to {m = beside_frame} 7 [] refl refl refl refl

abbrev closing : List (Label ℕ)
closing = enqueue 7 ∷ call ∷ poll ∷ call ∷ poll ∷ fire done ∷ take_stop done ∷ []

abbrev at_last_poll : Machine ℕ
at_last_poll = record {
  q = record { queue = []; sig = false };
  signalling = 1;
  fired = λ x. if same_stop x done then true else false;
  waiter = last_poll;
  pushed = 7 ∷ [];
  taken = 7 ∷ [];
}

gives_up_drained_example : ◌≡◌ {A = List ℕ} (7 ∷ []) (7 ∷ [])
unfolding run step initial
gives_up_drained_example =
    gives_up_drained closing poll {m = at_last_poll} {m' = record at_last_poll { waiter = gave_up }}
      refl (λ e. cc) refl refl
