-- ===== src/Caller/Dropping.antt =====
-- A user of `Caller.Request` (golang/client/client.go) who closes the body of a streaming response, or
-- lets go of it, leaves nothing behind.
use how.Base.{
  Option-cases, Bool-cases, Bool, false, inl, inr, get_elem?-set_self, ℕ, ◌≡◌, refl, sym, ap, ◌∙◌,
  subst, List, [], ◌∷◌, ◌++◌, map, true, none, some, arith, get_elem?,
}
use how.Base.Keyed.{lookup}
use how.Protocol.Message.{Envelope}
use how.Handler.Send.{Transport}
use how.Caller.{Mode, pending_of}
use how.Caller.Request.{Stopped}
use how.Caller.Pump.{Pipe}
use how.Caller.System
use how.Caller.System.{System, Thread, pumping, ended, takes, give_up}
use how.Outcome.{Error}
use how.Caller.Delivery.{Standing, step-resume}
use how.Caller.Turns.{resume-addr}
use how.Caller.Draining.{IsBroken, drained}
use how.Caller.Cancelling.{
  CancellingBody, close_body, collect_body, body_pipe, closed_pipe, Streams, Label, caller, read,
  close, collect, end_parent, expire, front, update, context_done, may_stop, is_written, step, run,
}

abbrev pub pipes : Streams → ℕ → Pipe
pipes s a = body_pipe (s.bodies a)

-- The body at this address is closed, or is collected with its finalizer set.
abbrev pub Drops : Label → ℕ → Streams → Type 0
Drops (close b) a s = b ≡ a
Drops (collect b) a s = (b ≡ a) × ((s.bodies a).armed ≡ true)
Drops _ a s = ⊥

module _ (m : Mode) (sender : Transport) where
  dropped :
      (l : Label) (a : ℕ) (s : Streams)
      → Drops l a s
      → let s' = step m sender l s in
        ((s'.bodies a).cancelled ≡ true)
        × ((s'.bodies a).reader_closed ≡ true)
        × (s'.system ≡ s.system)
  unfolding step close_body collect_body
  dropped (close b) a s drops = (ground arith, ground arith, refl)
  dropped (collect b) a s drops = (ground arith, ground arith, refl)
  dropped (caller l) a s drops = absurd drops
  dropped (read i) a s drops = absurd drops
  dropped (end_parent b) a s drops = absurd drops
  dropped (expire b) a s drops = absurd drops

  broken : (b : CancellingBody) → b.reader_closed ≡ true → IsBroken (body_pipe b)
  unfolding body_pipe
  broken b gone ops bytes = (closed_pipe, ground arith)

  -- Goroutine `i` is there, with its queue at `a`.
  abbrev HasQueue : ℕ → ℕ → System → Type 0
  HasQueue i a s = (t : Thread) × (get_elem? s.threads i ≡ some t) × (t.addr ≡ a)

  front-addr :
      (i a : ℕ) (s : System) (b : ℕ) (e : Envelope)
      → HasQueue i a s
      → front i s ≡ some (b, e)
      → b ≡ a
  unfolding front
  front-addr i a s b e (t, at, its) found = ground arith

  -- A closed reader holds no step up.
  alone-moves :
      (i a : ℕ) (s : Streams)
      → HasQueue i a s.system
      → (s.bodies a).reader_closed ≡ true
      → (due : ℕ → Bool) × (step m sender (caller (System.resume i)) s ≡ record s {
        system = System.step m sender (pipes s) (System.resume i) s.system;
        due = due;
      })
  unfolding step
  alone-moves i a s there gone = elim (Option-cases (front i s.system)) [
    | inl nothing ↦ (s.due, rw (nothing, step) refl)
    | inr ((b, e), found) ↦
        let shut : (s.bodies b).reader_closed ≡ true =
          ap (λ x. (s.bodies x).reader_closed) (front-addr i a s.system b e there found) ∙ gone in
        elim (Bool-cases (is_written m sender e)) [
          | inl written ↦ (update b (λ x. false) s.due, rw (found, step, written, shut) refl)
          | inr other ↦ (update b (λ x. false) s.due, rw (found, step, other) refl)
        ]
  ]

  resume-HasQueue :
      (i a : ℕ) (pipe : ℕ → Pipe) (s : System)
      → HasQueue i a s
      → HasQueue i a (System.step m sender pipe (System.resume i) s)
  resume-HasQueue i a pipe s (t, at, its) =
      let t' : Thread = (System.resume_thread m sender pipe t s.caller).0 in
      (
        t',
        ap (λ x. get_elem? x.threads i) (step-resume m sender pipe s i t at)
            ∙ get_elem?-set_self s.threads i t' t at,
        resume-addr m sender pipe t s.caller ∙ its,
      )

  -- A cancelled pump may stop.
  cancelled-stops :
      (i a : ℕ) (s : Streams) (w : Stopped) (x : Error)
      → HasQueue i a s.system
      → (s.bodies a).cancelled ≡ true
      → w.ctx_err ≡ some x
      → may_stop i w s ≡ true
  unfolding may_stop context_done
  cancelled-stops i a s w x (t, at, its) over done = ground arith

  -- Once the reader is closed and the pump cancelled, the caller alone does all that it is asked to.
  run-alone :
      (i a : ℕ) (es : List Envelope) (w : Stopped) (x : Error) (s : Streams)
      → HasQueue i a s.system
      → (s.bodies a).reader_closed ≡ true
      → (s.bodies a).cancelled ≡ true
      → w.ctx_err ≡ some x
      → let s' = run m sender (map caller (takes i es ++ give_up i w ∷ [])) s in
        (s'.bodies ≡ s.bodies)
        × (s'.system ≡ System.run m sender (pipes s) (takes i es ++ give_up i w ∷ []) s.system)
  unfolding run step System.run
  run-alone i a [] w x s there gone over done =
      let may : may_stop i w s ≡ true = cancelled-stops i a s w x there over done in
      (rw (may, step) refl, rw (may, step) refl)
  run-alone i a (e ∷ es) w x s there gone over done =
      let (due, moved) = alone-moves i a s there gone in
      let next : Streams = record s {
        system = System.step m sender (pipes s) (System.resume i) s.system;
        due = due;
      } in
      let (kept, reached) =
        run-alone i a es w x next (resume-HasQueue i a (pipes s) s.system there) gone over done in
      let begun = ap (run m sender (map caller (takes i es ++ give_up i w ∷ []))) moved in
      (ap (λ y. y.bodies) begun ∙ kept, ap (λ y. y.system) begun ∙ reached)

  -- A goroutine pumps a streaming response, with any frames waiting in its queue, and nobody reads the
  -- body. A write to its pipe does not return until the reader is closed, and the pump does not stop
  -- until a channel of its `wait` is ready. The user closes the body, or lets go of it while its
  -- finalizer is set. Then, without another frame, a timeout or an end of the user's own context, the
  -- goroutine takes the waiting frames, its stop by the cancelled context comes through, it has ended and
  -- its id is no longer pending, on whatever branch of the pump that happened.
  pub dropped_body_frees_request :
      (l : Label) (s : Streams) (i : ℕ) (t : Thread) (es : List Envelope) (w : Stopped) (x : Error)
      → Drops l t.addr s
      → t.phase ≡ pumping
      → Standing m sender (pipes s) s.system i t es
      → w.ctx_err ≡ some x
      → let s' = run m sender (l ∷ map caller (takes i es ++ give_up i w ∷ [])) s in
        ((s'.bodies t.addr).cancelled ≡ true)
        × ((t' : Thread) × (get_elem? s'.system.threads i ≡ some t') × (t'.phase ≡ ended))
        × (lookup t.id (pending_of m.is_text s'.system.caller) ≡ none)
  unfolding run
  dropped_body_frees_request l s i t es w x drops pumps st stopped =
      let s₁ : Streams = step m sender l s in
      let (cancelled, gone, same) = dropped l t.addr s drops in
      let moved : Standing m sender (pipes s₁) s₁.system i t es =
        subst (λ y. Standing m sender (pipes s₁) y i t es) (sym same)
          (record {
            at = st.at;
            queue = st.queue;
            held = st.held;
            content = st.content;
            pending = st.pending;
          }) in
      let freed =
        drained m sender (pipes s₁) es s₁.system i t w (broken (s₁.bodies t.addr) gone) pumps
          moved in
      let (kept, reached) =
        run-alone i t.addr es w x s₁ (t, moved.at, refl) gone cancelled stopped in
      (
        ap (λ y. (y t.addr).cancelled) kept ∙ cancelled,
        (freed.thread, ap (λ y. get_elem? y.threads i) reached ∙ freed.at, freed.over),
        ap (λ y. lookup t.id (pending_of m.is_text y.caller)) reached ∙ freed.gone,
      )
