-- ===== src/Caller/Leaks.antt =====
-- No request leaks its pending entry (golang/client/client.go): whatever happens to it, the entry is gone
-- when its goroutines are.
use how.Base.{
  ℕ, Bytes, ◌≡◌, ◌≢◌, sym, ap, ◌∙◌, subst, List, [], ◌∷◌, ◌++◌, none, some, Option-cases, inl, inr,
  get_elem?, set, length,
}
use how.Base.Keyed.{lookup, insert, lookup-empty}
use how.Protocol.Message.{Payload, request}
use how.Handler.Send.{Transport}
use how.Caller.{Caller, Mode, pending_of}
use how.Caller.Request.{Begun, refused, waiting}
use how.Caller.Pump.{Pipe}
use how.Caller.System.{
  Thread, awaiting, ended, System, Label, begin, arrive, shut, resume, give_up, after_begin,
  at_thread, step, run,
}
use how.Caller.Routing.{pending-handle_message, pending-close}
use how.Caller.Moves.{Moved, went_on, finished, idle, stop-Moved, resume-Moved}
use how.Caller.Setup.{Setup, turned_away, undone, registered, begin_cases}
use how.Caller.Ownership.{
  Owner, AllOwned, AllOwned-insert, AllOwned-undo, AllOwned-move, AllOwned-remove, set-same,
}

nothing_pending : (k : Bytes) (a : ℕ) → lookup k [] ≢ some a
nothing_pending k a h = cc (lookup-empty {V = ℕ} k)

module _ (m : Mode) (sender : Transport) (pipe : ℕ → Pipe) where
  -- The ids that are pending in a system belong to its live requests.
  abbrev pub IsOwned : System → Type 0
  IsOwned s = AllOwned (pending_of m.is_text s.caller) s.threads

  Moved-IsOwned :
      (s : System) (i : ℕ) (t : Thread) (r : Thread × Caller)
      → get_elem? s.threads i ≡ some t
      → Moved m sender pipe t s.caller r
      → IsOwned s
      → IsOwned (record { caller = r.1; threads = set s.threads i r.0 })
  Moved-IsOwned s i t r at (went_on same_id same_addr live same) owned =
      subst (λ p. AllOwned p (set s.threads i r.0)) (sym same)
        (AllOwned-move (pending_of m.is_text s.caller) s.threads i t r.0 at same_id same_addr live
          owned)
  Moved-IsOwned s i t r at (finished same_id removed) owned =
      subst (λ p. AllOwned p (set s.threads i r.0)) (sym removed)
        (AllOwned-remove (pending_of m.is_text s.caller) s.threads i t r.0 at owned)
  Moved-IsOwned s i t r at (idle stayed same) owned =
      subst (λ p. AllOwned p (set s.threads i r.0)) (sym same)
        (subst (AllOwned (pending_of m.is_text s.caller))
          (sym (ap (set s.threads i) stayed ∙ set-same s.threads i t at)) owned)

  begin-IsOwned :
      (id : Bytes) (req : Payload request) (s : System) (r : Begun × Caller)
      → Setup m sender id req s.caller r
      → IsOwned s
      → IsOwned (after_begin m sender pipe id s.threads r)
  unfolding after_begin
  begin-IsOwned id req s (refused x, c) (turned_away e closed same) owned =
      subst (λ d. AllOwned (pending_of m.is_text d) s.threads) (sym (ap (λ r. r.1) same)) owned
  begin-IsOwned id req s (refused x, c) (undone e alive failed_ removed) owned =
      subst (λ p. AllOwned p s.threads) (sym removed)
        (AllOwned-undo (pending_of m.is_text s.caller) s.threads id (length s.caller.queues) owned)
  begin-IsOwned id req s (refused x, c)
        (registered env bytes alive made packed sent waits inserted logged) owned =
      absurd (cc)
  begin-IsOwned id req s (waiting a, c) (turned_away e closed same) owned =
      absurd (cc (ap (λ r. r.0) same))
  begin-IsOwned id req s (waiting a, c) (undone e alive failed_ removed) owned = absurd (cc)
  begin-IsOwned id req s (waiting a, c)
        (registered env bytes alive made packed sent waits inserted logged) owned =
      let t : Thread = record { id = id; addr = a; phase = awaiting; result = none; ops = [] } in
      let same : length s.caller.queues ≡ a = cc in
      subst (λ p. AllOwned p (s.threads ++ t ∷ [])) (sym inserted)
        (subst (λ b. AllOwned (insert id b (pending_of m.is_text s.caller)) (s.threads ++ t ∷ []))
          (sym same) (AllOwned-insert (pending_of m.is_text s.caller) s.threads t (λ e. cc) owned))

  at_thread-IsOwned :
      (i : ℕ) (f : Thread → Caller → Thread × Caller) (s : System)
      → ((t : Thread) (c : Caller) → Moved m sender pipe t c (f t c))
      → IsOwned s
      → IsOwned (at_thread m sender pipe i f (get_elem? s.threads i) s)
  unfolding at_thread
  at_thread-IsOwned i f s moves owned = elim (Option-cases (get_elem? s.threads i)) [
    | inl nobody ↦ rw (nobody, at_thread) owned
    | inr (t, at) ↦
        subst (λ o. IsOwned (at_thread m sender pipe i f o s)) (sym at)
          (Moved-IsOwned s i t (f t s.caller) at (moves t s.caller) owned)
  ]

  -- Every step keeps each pending entry owned by a live request: calls of `Request`, frames, `Close`, and
  -- every move of a goroutine on every branch, errors included.
  pub step-IsOwned : (l : Label) (s : System) → IsOwned s → IsOwned (step m sender pipe l s)
  unfolding step
  step-IsOwned (begin id req) s owned =
      begin-IsOwned id req s _ (begin_cases m sender id req s.caller) owned
  step-IsOwned (arrive bytes) s owned =
      subst (λ p. AllOwned p s.threads) (sym (pending-handle_message m bytes s.caller)) owned
  step-IsOwned (shut e) s owned =
      subst (λ p. AllOwned p s.threads) (sym (pending-close m e s.caller)) owned
  step-IsOwned (resume i) s owned = at_thread-IsOwned i _ s (resume-Moved m sender pipe) owned
  step-IsOwned (give_up i stopped) s owned =
      at_thread-IsOwned i _ s (stop-Moved m sender pipe stopped) owned

  run-IsOwned : (ls : List Label) (s : System) → IsOwned s → IsOwned (run m sender pipe ls s)
  unfolding run
  run-IsOwned [] s owned = owned
  run-IsOwned (l ∷ ls) s owned = run-IsOwned ls (step m sender pipe l s) (step-IsOwned l s owned)

  -- From a caller with no pending request, after any calls, frames, stops and closings, in any order:
  -- once every goroutine has ended, no id is pending. Nothing leaks, on whatever branch each request
  -- ended, and also if ids repeat.
  pub ended_requests_leave_nothing :
      (ls : List Label) (c : Caller) (s : System)
      → pending_of m.is_text c ≡ []
      → run m sender pipe ls (record { caller = c; threads = [] }) ≡ s
      → ((i : ℕ) (t : Thread) → get_elem? s.threads i ≡ some t → t.phase ≡ ended)
      → (k : Bytes) → lookup k (pending_of m.is_text s.caller) ≡ none
  ended_requests_leave_nothing ls c s empty reached over k =
      let start : System = record { caller = c; threads = [] } in
      let owned : IsOwned s =
        subst IsOwned reached
          (run-IsOwned ls start (λ j a h. absurd (nothing_pending j a (rw empty at h)))) in
      elim (Option-cases (lookup k (pending_of m.is_text s.caller))) [
        | inl gone ↦ gone
        | inr (a, held) ↦
            let o : Owner k a s.threads = owned k a held in
            absurd (o.live (over o.place o.thread o.found))
      ]
