-- ===== src/Caller/Beginning.antt =====
-- That the queues of golang/client/client.go which goroutines and pending ids stand for exist, in whatever
-- a caller has done.
use how.Base.{
  ℕ, Bytes, ◌≡◌, ◌≤◌, ◌<◌, ◌⊎◌, suc, sym, ap, ◌∙◌, subst, List, [], ◌∷◌, ◌++◌, none, some, arith,
  inl, inr, Option-cases, get_elem?, length, get_elem?-set_self, get_elem?-set_ne,
  get_elem?-append_cases, length-append, bytes_eq, Bool-cases,
}
use native.Mathlib.Decide.{ℕ_discrete}
use how.Base.Keyed.{Keyed, lookup, insert, lookup-insert, lookup-delete}
use how.Outcome.{Error}
use how.Protocol.Message.{Payload, request}
use how.Queue.{new_frame_queue}
use how.Handler.Send.{Transport}
use how.Caller.{Caller, Mode, pending_of}
use how.Caller.Request.{Begun, refused, waiting, begin_request}
use how.Caller.Pump.{Pipe}
use how.Caller.System.{
  Thread, awaiting, System, Label, begin, arrive, shut, resume, give_up, after_begin, at_thread,
  step, run,
}
use how.Caller.Routing.{pending-handle_message, pending-close}
use how.Caller.Moves.{Moved, stop-Moved, resume-Moved}
use how.Caller.Setup.{Setup, turned_away, undone, registered, begin_cases}
use how.Caller.Keeping.{handle_message-length, close-queues, begin-queues}
use how.Caller.Turns.{resume-length, stop-queues, resume-addr, stop-addr}
use how.Caller.Pointing.{Moved-Within}

module _ (m : Mode) (sender : Transport) (pipe : ℕ → Pipe) where
  -- No goroutine and no pending id has a queue that does not exist yet.
  pub record IsPlaced (s : System) : Type 0 where
    pub held :
        (j : ℕ) (u : Thread) → get_elem? s.threads j ≡ some u → u.addr < length s.caller.queues
    pub pointed :
        (k : Bytes) (a : ℕ)
        → lookup k (pending_of m.is_text s.caller) ≡ some a
        → a < length s.caller.queues

  at_thread-IsPlaced :
      (j : ℕ) (f : Thread → Caller → Thread × Caller) (s : System)
      → ((u : Thread) (c : Caller) → Moved m sender pipe u c (f u c))
      → ((u : Thread) (c : Caller) → (f u c).0.addr ≡ u.addr)
      → ((u : Thread) (c : Caller) → length (f u c).1.queues ≡ length c.queues)
      → IsPlaced s
      → IsPlaced (at_thread m sender pipe j f (get_elem? s.threads j) s)
  unfolding at_thread
  at_thread-IsPlaced j f s moves stays same_length placed =
      elim (Option-cases (get_elem? s.threads j)) [
        | inl nobody ↦ rw (nobody, at_thread) placed
        | inr (u, there) ↦
            let r : Thread × Caller = f u s.caller in
            subst (λ o. IsPlaced (at_thread m sender pipe j f o s)) (sym there)
              (record {
                held = λ k v found. elim (ℕ_discrete j k) [
                  | yes same ↦
                      let its : v.addr ≡ u.addr =
                        ground
                          (arith, get_elem?-set_self s.threads j r.0 u there, stays u s.caller) in
                      ground (arith, its, placed.held j u there, same_length u s.caller)
                  | no other ↦
                      let old : get_elem? s.threads k ≡ some v =
                        sym (get_elem?-set_ne s.threads j k r.0 other) ∙ found in
                      ground (arith, placed.held k v old, same_length u s.caller)
                ];
                pointed = λ k a found. ground (
                  arith,
                  same_length u s.caller,
                  placed.pointed k a
                      (Moved-Within m sender pipe a u s.caller r (moves u s.caller) k found),
                );
              })
      ]

  -- What `begin_request` does to the queues.
  abbrev pub Queued : Caller → Begun × Caller → Type 0
  Queued c r =
      ((r.1.queues ≡ c.queues) × ((e : Error) × (r.0 ≡ refused e)))
      ⊎ (r.1.queues ≡ c.queues ++ new_frame_queue ∷ [])

  longer :
      (c : Caller) (r : Begun × Caller)
      → r.1.queues ≡ c.queues ++ new_frame_queue ∷ []
      → length r.1.queues ≡ suc (length c.queues)
  longer c r same = omega (arith, ap length same, length-append c.queues (new_frame_queue ∷ []))

  no_shorter : (c : Caller) (r : Begun × Caller) → Queued c r → length c.queues ≤ length r.1.queues
  no_shorter c r (inl (same, refused_)) = omega (arith, ap length same)
  no_shorter c r (inr more) = omega (arith, longer c r more)

  begun-pointed :
      (s : System) (id : Bytes) (req : Payload request) (r : Begun × Caller) (k : Bytes) (a : ℕ)
      → IsPlaced s
      → Setup m sender id req s.caller r
      → Queued s.caller r
      → lookup k (pending_of m.is_text r.1) ≡ some a
      → a < length r.1.queues
  begun-pointed s id req r k a placed (turned_away e closed same) queued found = omega (
    arith,
    no_shorter s.caller r queued,
    placed.pointed k a (sym (ap (λ x. lookup k (pending_of m.is_text x.1)) same) ∙ found),
  )
  begun-pointed s id req r k a placed (undone e alive failed_ removed) queued found =
      let p : Keyed ℕ = pending_of m.is_text s.caller in
      let l : ℕ = length s.caller.queues in
      let old : lookup k p ≡ some a = ground (
        arith,
        ap (lookup k) removed,
        lookup-delete id k (insert id l p),
        lookup-insert id k l p,
      ) in
      omega (arith, no_shorter s.caller r queued, placed.pointed k a old)
  begun-pointed s id req r k a placed
        (registered env bytes alive made packed sent waits inserted logged) (inl (same, (e, never)))
        found =
      absurd (cc)
  begun-pointed s id req r k a placed
        (registered env bytes alive made packed sent waits inserted logged) (inr more) found =
      let p : Keyed ℕ = pending_of m.is_text s.caller in
      let l : ℕ = length s.caller.queues in
      let there : lookup k (insert id l p) ≡ some a = sym (ap (lookup k) inserted) ∙ found in
      elim (Bool-cases (bytes_eq id k)) [
        | inl mine ↦
            let place : a ≡ l = ground (arith, lookup-insert id k l p) in
            omega (arith, longer s.caller r more, place)
        | inr other ↦
            let old : lookup k p ≡ some a = ground (arith, lookup-insert id k l p) in
            omega (arith, longer s.caller r more, placed.pointed k a old)
      ]

  -- A request that waits does so in a new goroutine, with a new queue.
  pub waits-new :
      (s : System) (id : Bytes) (req : Payload request) (c : Caller) (a : ℕ)
      → Setup m sender id req s.caller (waiting a, c)
      → Queued s.caller (waiting a, c)
      → (a ≡ length s.caller.queues)
        × (pending_of m.is_text c
            ≡ insert id (length s.caller.queues) (pending_of m.is_text s.caller))
        × (c.queues ≡ s.caller.queues ++ new_frame_queue ∷ [])
  waits-new s id req c a (turned_away e closed same) queued = absurd (cc (ap (λ r. r.0) same))
  waits-new s id req c a (undone e alive failed_ removed) queued = absurd (cc)
  waits-new s id req c a (registered env bytes alive made packed sent waits inserted logged)
        (inl (same, (e, never))) =
      absurd (cc)
  waits-new s id req c a (registered env bytes alive made packed sent waits inserted logged)
        (inr more) =
      (ground arith, inserted, more)

  began-IsPlaced :
      (s : System) (id : Bytes) (req : Payload request) (r : Begun × Caller)
      → IsPlaced s
      → Setup m sender id req s.caller r
      → Queued s.caller r
      → IsPlaced (after_begin m sender pipe id s.threads r)
  unfolding after_begin
  began-IsPlaced s id req (refused e, c) placed setup queued = record {
    held = λ j u found.
        omega (arith, placed.held j u found, no_shorter s.caller (refused e, c) queued);
    pointed = λ k a found. begun-pointed s id req (refused e, c) k a placed setup queued found;
  }
  began-IsPlaced s id req (waiting a, c) placed setup queued =
      let new : Thread = record { id = id; addr = a; phase = awaiting; result = none; ops = [] } in
      let (place, inserted, more) = waits-new s id req c a setup queued in
      record {
        held = λ j u found. elim (get_elem?-append_cases s.threads new j found) [
          | inl old ↦ omega (arith, placed.held j u old, no_shorter s.caller (waiting a, c) queued)
          | inr (at, its) ↦
              omega (arith, place, ap (λ x. x.addr) its, longer s.caller (waiting a, c) more)
        ];
        pointed = λ k b found. begun-pointed s id req (waiting a, c) k b placed setup queued found;
      }

  step-IsPlaced : (l : Label) (s : System) → IsPlaced s → IsPlaced (step m sender pipe l s)
  unfolding step
  step-IsPlaced (begin id req) s placed =
      began-IsPlaced s id req (begin_request m sender id req s.caller) placed
        (begin_cases m sender id req s.caller) (begin-queues m sender id req s.caller)
  step-IsPlaced (arrive bytes) s placed = record {
    held =
        λ j u found. omega (arith, placed.held j u found, handle_message-length m bytes s.caller);
    pointed = λ k a found. omega (
      arith,
      placed.pointed k a (sym (ap (lookup k) (pending-handle_message m bytes s.caller)) ∙ found),
      handle_message-length m bytes s.caller,
    );
  }
  step-IsPlaced (shut e) s placed = record {
    held = λ j u found. omega (arith, placed.held j u found, ap length (close-queues m e s.caller));
    pointed = λ k a found. omega (
      arith,
      placed.pointed k a (sym (ap (lookup k) (pending-close m e s.caller)) ∙ found),
      ap length (close-queues m e s.caller),
    );
  }
  step-IsPlaced (resume j) s placed =
      at_thread-IsPlaced j _ s (resume-Moved m sender pipe) (resume-addr m sender pipe)
        (resume-length m sender pipe) placed
  step-IsPlaced (give_up j w) s placed =
      at_thread-IsPlaced j _ s (stop-Moved m sender pipe w) (stop-addr m sender pipe w)
        (λ u c. ap length (stop-queues m sender pipe w u c)) placed

  pub run-IsPlaced : (ls : List Label) (s : System) → IsPlaced s → IsPlaced (run m sender pipe ls s)
  unfolding run
  run-IsPlaced [] s placed = placed
  run-IsPlaced (l ∷ ls) s placed =
      run-IsPlaced ls (step m sender pipe l s) (step-IsPlaced l s placed)
