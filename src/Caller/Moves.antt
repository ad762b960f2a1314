-- ===== src/Caller/Moves.antt =====
-- What one move of a request's goroutine (golang/client/client.go) does to the pending map.
use how.Base.{ℕ, Bytes, ◌≡◌, ◌≢◌, ◌⊎◌, refl, Option, none, some, arith, inl, inr}
use how.Base.Keyed.{delete}
use how.Protocol.Message.{Envelope}
use how.Handler.Send.{Transport}
use how.Caller.{Caller, Mode, pending_of, remove_pending, poll}
use how.Caller.Request.{Stopped, first_frame, first_stopped}
use how.Caller.Pump.{Pipe, Pumped, goes_on, returned, pump_frame, pump_stopped}
use how.Caller.System.{
  Thread, Phase, awaiting, pumping, ended, phase_after, settle, pumped, first_taken, next_taken,
  resume_in, if_empty, stop_in, resume_thread, stop_thread,
}
use how.Caller.Routing.{pending-remove, pending-poll}

module _ (m : Mode) (sender : Transport) (pipe : ℕ → Pipe) where
  -- What a goroutine's move does to the pending map: nothing, and then the goroutine goes on, or the
  -- removal of its own id.
  pub data Moved (t : Thread) (c : Caller) (r : Thread × Caller) : Type 0 where
    went_on :
        r.0.id ≡ t.id
        → r.0.addr ≡ t.addr
        → r.0.phase ≢ ended
        → pending_of m.is_text r.1 ≡ pending_of m.is_text c
        → Moved t c r
    finished :
        r.0.id ≡ t.id
        → pending_of m.is_text r.1 ≡ delete t.id (pending_of m.is_text c)
        → Moved t c r
    idle : r.0 ≡ t → pending_of m.is_text r.1 ≡ pending_of m.is_text c → Moved t c r

  first_frame_cases :
      (id : Bytes) (env : Envelope) (c : Caller)
      → ((phase_after (first_frame m id env c).0 ≡ pumping) × ((first_frame m id env c).1 ≡ c))
        ⊎ ((first_frame m id env c).1 ≡ remove_pending m id c)
  unfolding first_frame
  first_frame_cases id env c = ground arith

  settle-Moved :
      (t : Thread) (c c' : Caller) (env : Envelope)
      → pending_of m.is_text c' ≡ pending_of m.is_text c
      → Moved t c (settle t (first_frame m t.id env c'))
  unfolding settle
  settle-Moved t c c' env same = elim (first_frame_cases t.id env c') [
    | inl (streams, kept) ↦ went_on refl refl (λ e. cc) (ground arith)
    | inr removed ↦ finished refl (ground (arith, pending-remove m t.id c'))
  ]

  pumped-Moved :
      (t : Thread) (c c' : Caller) (p : Pumped)
      → t.phase ≢ ended
      → pending_of m.is_text c' ≡ pending_of m.is_text c
      → Moved t c (pumped m t c' p)
  unfolding pumped
  pumped-Moved t c c' (goes_on ops) live same = went_on refl refl live same
  pumped-Moved t c c' (returned ops) live same =
      finished refl (ground (arith, pending-remove m t.id c'))

  first_taken-Moved :
      (t : Thread) (c : Caller) (r : Option Envelope × Caller)
      → pending_of m.is_text r.1 ≡ pending_of m.is_text c
      → Moved t c (first_taken m sender pipe t r)
  unfolding first_taken
  first_taken-Moved t c (none, c') same = idle refl same
  first_taken-Moved t c (some env, c') same = settle-Moved t c c' env same

  next_taken-Moved :
      (t : Thread) (c : Caller) (r : Option Envelope × Caller)
      → t.phase ≢ ended
      → pending_of m.is_text r.1 ≡ pending_of m.is_text c
      → Moved t c (next_taken m sender pipe t r)
  unfolding next_taken
  next_taken-Moved t c (none, c') live same = idle refl same
  next_taken-Moved t c (some env, c') live same =
      pumped-Moved t c c' (pump_frame m (pipe t.addr) env t.ops) live same

  resume_in-Moved :
      (p : Phase) (t : Thread) (c : Caller)
      → t.phase ≡ p
      → Moved t c (resume_in m sender pipe p t c)
  unfolding resume_in
  resume_in-Moved awaiting t c at = first_taken-Moved t c (poll t.addr c) (pending-poll m t.addr c)
  resume_in-Moved pumping t c at =
      next_taken-Moved t c (poll t.addr c) (λ e. cc) (pending-poll m t.addr c)
  resume_in-Moved ended t c at = idle refl refl

  if_empty-Moved :
      (t : Thread) (c : Caller) (r : Option Envelope × Caller) (stopped : Thread × Caller)
      → Moved t c stopped
      → Moved t c (if_empty m sender pipe r stopped (t, c))
  unfolding if_empty
  if_empty-Moved t c (none, c') stopped moved = moved
  if_empty-Moved t c (some env, c') stopped moved = idle refl refl

  first_stopped-Moved :
      (t : Thread) (c : Caller) (s : Stopped) → Moved t c (settle t (first_stopped m t.id s c))
  unfolding settle first_stopped
  first_stopped-Moved t c s = finished refl (pending-remove m t.id c)

  stop_in-Moved :
      (p : Phase) (s : Stopped) (t : Thread) (c : Caller)
      → t.phase ≡ p
      → Moved t c (stop_in m sender pipe p s t c)
  unfolding stop_in
  stop_in-Moved awaiting s t c at = if_empty-Moved t c (poll t.addr c) _ (first_stopped-Moved t c s)
  stop_in-Moved pumping s t c at =
      if_empty-Moved t c (poll t.addr c) _
        (pumped-Moved t c c (returned (pump_stopped s c t.ops)) (λ e. cc) refl)
  stop_in-Moved ended s t c at = idle refl refl

  pub stop-Moved :
      (stopped : Stopped) (t : Thread) (c : Caller)
      → Moved t c (stop_thread m sender pipe stopped t c)
  unfolding stop_thread
  stop-Moved stopped t c = stop_in-Moved t.phase stopped t c refl

  pub resume-Moved : (t : Thread) (c : Caller) → Moved t c (resume_thread m sender pipe t c)
  unfolding resume_thread
  resume-Moved t c = resume_in-Moved t.phase t c refl
