-- ===== src/Queue/Machine.antt =====
-- golang/client/client.go: `wait`, with the pushes of the read loop interleaved at every point where
-- the code can be interrupted, as a machine that a schedule of labels drives.
use mathlib.Core.Option.{some-injective}
use how.Base.{
  ◌≡◌, subst, Option-cases, inl, inr, arith, ℕ, zero, suc, ◌+◌, List, [], ◌∷◌, ◌++◌, Bool, true,
  false, Option, none, some, if◌then◌else◌,
}
use how.Queue.{FrameQueue, new_frame_queue, append, notify, try_pop}

-- The stop channels of `wait`.
pub data Stop : Type 0 where
  done ctx_done timer : Stop

-- Where the one consumer of the queue stands: outside `wait`, before the `tryPop` at the head of
-- the loop, blocked in the select, before the final `tryPop`, or out of `wait` with `false`.
pub data Waiter : Type 0 where
  outside polling selecting last_poll gave_up : Waiter

pub data Label (T : Type 0) : Type 0 where
  -- a producer appends a frame under the lock; later it offers its token
  enqueue : T → Label T
  signal : Label T
  -- a stop channel becomes ready
  fire : Stop → Label T
  -- the consumer calls `wait`, runs a `tryPop`, or takes a ready branch of the select
  call poll take_sig : Label T
  take_stop : Stop → Label T

-- `pushed` and `taken` record the history.
pub record Machine (T : Type 0) : Type 0 where
  pub q : FrameQueue T
  pub signalling : ℕ
  pub fired : Stop → Bool
  pub waiter : Waiter
  pub pushed : List T
  pub taken : List T

abbrev pub same_stop : Stop → Stop → Bool
same_stop done done = true
same_stop ctx_done ctx_done = true
same_stop timer timer = true
same_stop _ _ = false

module _ {T : Type 0} where
  unfoldable pub initial : Machine T
  unfolding new_frame_queue
  initial = record {
    q = new_frame_queue;
    signalling = 0;
    fired = λ s. false;
    waiter = outside;
    pushed = [];
    taken = [];
  }

  -- The result of a `tryPop` of `wait`; `miss` is where the code goes on without a frame.
  after_pop : Waiter → Machine T → Option T × FrameQueue T → Machine T
  after_pop miss m (none, q) = record m { q = q; waiter = miss }
  after_pop miss m (some env, q) = record m { q = q; waiter = outside; taken = m.taken ++ env ∷ [] }

  finish_signal : ℕ → Machine T → Option (Machine T)
  unfolding notify
  finish_signal zero m = none
  finish_signal (suc n) m = some (record m { q = notify m.q; signalling = n })

  move : Label T → Waiter → Machine T → Option (Machine T)
  unfolding after_pop finish_signal append try_pop
  move (enqueue env) w m = some (record m {
    q = append env m.q;
    signalling = m.signalling + 1;
    pushed = m.pushed ++ env ∷ [];
  })
  move signal w m = finish_signal m.signalling m
  move (fire s) w m = some (record m { fired = λ x. if same_stop x s then true else m.fired x })
  move call outside m = some (record m { waiter = polling })
  move poll polling m = some (after_pop selecting m (try_pop m.q))
  move poll last_poll m = some (after_pop gave_up m (try_pop m.q))
  move take_sig selecting m =
      if m.q.sig
      then some (record m { q = record { queue = m.q.queue; sig = false }; waiter = polling })
      else none
  move (take_stop s) selecting m =
      if m.fired s then some (record m { waiter = last_poll }) else none
  move call _ m = none
  move poll _ m = none
  move take_sig _ m = none
  move (take_stop s) _ m = none

  unfoldable pub step : Machine T → Label T → Option (Machine T)
  unfolding move
  step m l = move l m.waiter m

  continue : Option (Machine T) → (Machine T → Option (Machine T)) → Option (Machine T)
  continue none f = none
  continue (some m) f = f m

  -- A schedule; `none` where one of its labels is not enabled.
  unfoldable pub run : Machine T → List (Label T) → Option (Machine T)
  unfolding continue
  run m [] = some m
  run m (l ∷ ls) = continue (step m l) (λ m'. run m' ls)

  -- Induction over a schedule.
  pub run-keeps :
      (P : Machine T → Type 0)
      → ((m : Machine T) (l : Label T) (m' : Machine T) → P m → step m l ≡ some m' → P m')
      → (m : Machine T) (ls : List (Label T)) (m' : Machine T) → P m
      → run m ls ≡ some m'
      → P m'
  unfolding run
  run-keeps P keep m [] m' h e = subst P (some-injective m m' e) h
  run-keeps P keep m (l ∷ ls) m' h e = elim (Option-cases (step m l)) [
    | inl stuck ↦ absurd (ground arith)
    | inr (m₁, stepped) ↦ run-keeps P keep m₁ ls m' (keep m l m₁ h stepped) (ground arith)
  ]
