-- ===== src/Caller/Turns.antt =====
-- What one move of a request's goroutine (golang/client/client.go) leaves of the queues: it takes from its
-- own, and keeps it.
use how.Base.{ℕ, ◌≡◌, ◌≢◌, refl, ap, ◌∙◌, Option, none, some, arith, get_elem?, length}
use how.Protocol.Message.{Envelope}
use how.Handler.Send.{Transport}
use how.Caller.{Caller, Mode, poll}
use how.Caller.Request.{Stopped, first_stopped}
use how.Caller.Pump.{Pipe, Pumped, goes_on, returned, pump_frame, pump_stopped}
use how.Caller.System.{
  Thread, awaiting, pumping, ended, Phase, settle, pumped, first_taken, next_taken, resume_in,
  if_empty, stop_in, resume_thread, stop_thread,
}
use how.Caller.Keeping.{remove-queues, first_frame-queues, poll-queues, poll-length}

module _ (m : Mode) (sender : Transport) (pipe : ℕ → Pipe) where
  pumped-queues : (t : Thread) (c : Caller) (p : Pumped) → (pumped m t c p).1.queues ≡ c.queues
  unfolding pumped
  pumped-queues t c (goes_on ops) = refl
  pumped-queues t c (returned ops) = remove-queues m t.id c

  first_taken-queues :
      (t : Thread) (r : Option Envelope × Caller)
      → (first_taken m sender pipe t r).1.queues ≡ r.1.queues
  unfolding first_taken settle
  first_taken-queues t (none, c) = refl
  first_taken-queues t (some env, c) = first_frame-queues m t.id env c

  next_taken-queues :
      (t : Thread) (r : Option Envelope × Caller)
      → (next_taken m sender pipe t r).1.queues ≡ r.1.queues
  unfolding next_taken
  next_taken-queues t (none, c) = refl
  next_taken-queues t (some env, c) = pumped-queues t c (pump_frame m (pipe t.addr) env t.ops)

  resume_in-queues :
      (p : Phase) (t : Thread) (c : Caller) (b : ℕ)
      → b ≢ t.addr
      → get_elem? (resume_in m sender pipe p t c).1.queues b ≡ get_elem? c.queues b
  unfolding resume_in
  resume_in-queues awaiting t c b other =
      ap (λ l. get_elem? l b) (first_taken-queues t (poll t.addr c))
      ∙ poll-queues m t.addr b c other
  resume_in-queues pumping t c b other =
      ap (λ l. get_elem? l b) (next_taken-queues t (poll t.addr c)) ∙ poll-queues m t.addr b c other
  resume_in-queues ended t c b other = refl

  pub resume-queues :
      (t : Thread) (c : Caller) (b : ℕ)
      → b ≢ t.addr
      → get_elem? (resume_thread m sender pipe t c).1.queues b ≡ get_elem? c.queues b
  unfolding resume_thread
  resume-queues t c b other = resume_in-queues t.phase t c b other

  resume_in-length :
      (p : Phase) (t : Thread) (c : Caller)
      → length (resume_in m sender pipe p t c).1.queues ≡ length c.queues
  unfolding resume_in
  resume_in-length awaiting t c =
      ap length (first_taken-queues t (poll t.addr c)) ∙ poll-length m t.addr c
  resume_in-length pumping t c =
      ap length (next_taken-queues t (poll t.addr c)) ∙ poll-length m t.addr c
  resume_in-length ended t c = refl

  pub resume-length :
      (t : Thread) (c : Caller)
      → length (resume_thread m sender pipe t c).1.queues ≡ length c.queues
  unfolding resume_thread
  resume-length t c = resume_in-length t.phase t c

  if_empty-queues :
      (r : Option Envelope × Caller) (x : Thread × Caller) (t : Thread) (c : Caller)
      → x.1.queues ≡ c.queues
      → (if_empty m sender pipe r x (t, c)).1.queues ≡ c.queues
  unfolding if_empty
  if_empty-queues (none, c') x t c same = same
  if_empty-queues (some env, c') x t c same = refl

  stop_in-queues :
      (p : Phase) (w : Stopped) (t : Thread) (c : Caller)
      → (stop_in m sender pipe p w t c).1.queues ≡ c.queues
  unfolding stop_in settle first_stopped
  stop_in-queues awaiting w t c = if_empty-queues (poll t.addr c) _ t c (remove-queues m t.id c)
  stop_in-queues pumping w t c =
      if_empty-queues (poll t.addr c) _ t c (pumped-queues t c (returned (pump_stopped w c t.ops)))
  stop_in-queues ended w t c = refl

  pub stop-queues :
      (w : Stopped) (t : Thread) (c : Caller)
      → (stop_thread m sender pipe w t c).1.queues ≡ c.queues
  unfolding stop_thread
  stop-queues w t c = stop_in-queues t.phase w t c

  pumped-addr : (t : Thread) (c : Caller) (p : Pumped) → (pumped m t c p).0.addr ≡ t.addr
  unfolding pumped
  pumped-addr t c (goes_on ops) = refl
  pumped-addr t c (returned ops) = refl

  -- A goroutine keeps its queue.
  pub resume-addr : (t : Thread) (c : Caller) → (resume_thread m sender pipe t c).0.addr ≡ t.addr
  unfolding resume_thread first_taken next_taken settle
  resume-addr t c = ground (arith, pumped-addr t)

  pub stop-addr :
      (w : Stopped) (t : Thread) (c : Caller) → (stop_thread m sender pipe w t c).0.addr ≡ t.addr
  unfolding stop_thread settle if_empty pumped
  stop-addr w t c = ground arith
