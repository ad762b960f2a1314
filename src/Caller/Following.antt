-- ===== src/Caller/Following.antt =====
-- The steps of a goroutine of golang/client/client.go that alone has its id: a frame is queued for it, it
-- takes a frame, it finds none, it is gone.
use how.Base.{
  ℕ, Bytes, ◌≡◌, ◌≢◌, refl, sym, ap, ◌∙◌, subst, List, [], ◌∷◌, ◌++◌, none, some, arith, inl, inr,
  Option-cases, get_elem?, set, get_elem?-set_self, get_elem?-set_ne, get_elem?-append_old,
  get_elem?-lt-length,
}
use native.Mathlib.Decide.{ℕ_discrete}
use how.Base.Keyed.{lookup}
use how.Outcome.{ok}
use how.Protocol.Message.{Envelope}
use how.Protocol.Reading.{Message, read_envelope}
use how.Queue.{FrameQueue, try_pop}
use how.Handler.Send.{Transport}
use how.Caller.{Caller, Mode, pending_of, poll}
use how.Caller.Request.{Begun, refused, waiting, begin_request}
use how.Caller.Pump.{Pipe}
use how.Caller.System.{
  Thread, ended, System, Label, begin, arrive, shut, resume, give_up, after_begin, at_thread, step,
  run, resume_thread,
}
use how.Caller.Routing.{pending-handle_message}
use how.Caller.Body.{Open}
use how.Caller.Delivery.{Standing, arrive-Standing, resumed, step-resume, moved-Standing}
use how.Caller.Draining.{ended-resume, ended-stop}
use how.Caller.Hearing.{heard, taken-Heard, heard-same}
use how.Caller.Sole.{IsSole}

module _ (m : Mode) (sender : Transport) (pipe : ℕ → Pipe) where
  idle-at :
      (i j : ℕ) (t : Thread) (s : System) (f : Thread → Caller → Thread × Caller)
      → ((c : Caller) → f t c ≡ (t, c))
      → get_elem? s.threads i ≡ some t
      → get_elem? (at_thread m sender pipe j f (get_elem? s.threads j) s).threads i ≡ some t
  unfolding at_thread
  idle-at i j t s f idle at = elim (Option-cases (get_elem? s.threads j)) [
    | inl nobody ↦ rw (nobody, at_thread) at
    | inr (u, there) ↦
        subst (λ o. get_elem? (at_thread m sender pipe j f o s).threads i ≡ some t) (sym there)
          (elim (ℕ_discrete j i) [
            | no other ↦ get_elem?-set_ne s.threads j i (f u s.caller).0 other ∙ at
            | yes same ↦ ground (arith, idle s.caller, get_elem?-set_self s.threads i t t at)
          ])
  ]

  began-at :
      (i : ℕ) (t : Thread) (id : Bytes) (ts : List Thread) (r : Begun × Caller)
      → get_elem? ts i ≡ some t
      → get_elem? (after_begin m sender pipe id ts r).threads i ≡ some t
  unfolding after_begin
  began-at i t id ts (refused e, c) at = at
  began-at i t id ts (waiting a, c) at =
      get_elem?-append_old ts _ i (get_elem?-lt-length ts i at) ∙ at

  -- A goroutine that has ended stays as it is.
  ended-step :
      (i : ℕ) (t : Thread) (l : Label) (s : System)
      → t.phase ≡ ended
      → get_elem? s.threads i ≡ some t
      → get_elem? (step m sender pipe l s).threads i ≡ some t
  unfolding step
  ended-step i t (begin id req) s over at =
      began-at i t id s.threads (begin_request m sender id req s.caller) at
  ended-step i t (arrive bytes) s over at = at
  ended-step i t (shut e) s over at = at
  ended-step i t (resume j) s over at =
      idle-at i j t s _ (λ c. ended-resume m sender pipe t c over) at
  ended-step i t (give_up j w) s over at =
      idle-at i j t s _ (λ c. ended-stop m sender pipe t c w over) at

  pub ended-run :
      (i : ℕ) (t : Thread) (ls : List Label) (s : System)
      → t.phase ≡ ended
      → get_elem? s.threads i ≡ some t
      → get_elem? (run m sender pipe ls s).threads i ≡ some t
  unfolding run
  ended-run i t [] s over at = at
  ended-run i t (l ∷ ls) s over at =
      ended-run i t ls (step m sender pipe l s) over (ended-step i t l s over at)

  pub frame-IsSole :
      (i : ℕ) (t : Thread) (es : List Envelope) (s : System) (d : Bytes) (env : Envelope)
      → m.wire.unmarshal d ≡ ok env
      → env.request_id ≡ t.id
      → IsSole m sender pipe i t es s
      → IsSole m sender pipe i t (es ++ env ∷ []) (step m sender pipe (arrive d) s)
  unfolding step
  frame-IsSole i t es s d env arrived mine sole = record {
    standing = arrive-Standing m sender pipe s i t es d env sole.standing arrived mine;
    others = sole.others;
    owner =
        λ k found. sole.owner k (sym (ap (lookup k) (pending-handle_message m d s.caller)) ∙ found);
  }

  -- The goroutine has moved to `t'`.
  turned-IsSole :
      (i : ℕ) (t t' : Thread) (es es' : List Envelope) (s s' : System) (c : Caller)
      → IsSole m sender pipe i t es s
      → s' ≡ record { caller = c; threads = set s.threads i t' }
      → pending_of m.is_text c ≡ pending_of m.is_text s.caller
      → t'.id ≡ t.id
      → t'.addr ≡ t.addr
      → Standing m sender pipe s' i t' es'
      → IsSole m sender pipe i t' es' s'
  turned-IsSole i t t' es es' s s' c sole turned kept same_id same_addr st = record {
    standing = st;
    others = λ j u ne there.
        let old : get_elem? s.threads j ≡ some u =
          sym (get_elem?-set_ne s.threads i j t' ne)
          ∙ sym (ap (λ x. get_elem? x.threads j) turned)
          ∙ there in
        (
          (λ e. (sole.others j u ne old).0 (e ∙ same_id)),
          (λ e. (sole.others j u ne old).1 (e ∙ same_addr)),
        );
    owner = λ k found.
        sole.owner k (
          sym (ap (lookup k) (ap (λ x. pending_of m.is_text x.caller) turned ∙ kept))
          ∙ found
          ∙ ap some same_addr)
        ∙ sym same_id;
  }

  poll-nothing :
      (a : ℕ) (c : Caller) (q : FrameQueue Envelope)
      → get_elem? c.queues a ≡ some q
      → q.queue ≡ []
      → poll a c ≡ (none, record c { queues = set c.queues a q })
  unfolding poll try_pop
  poll-nothing a c q held nothing = ground arith

  blocked :
      (t : Thread) (c c' : Caller)
      → poll t.addr c ≡ (none, c')
      → t.phase ≢ ended
      → resume_thread m sender pipe t c ≡ (t, c')
  unfolding resume_thread
  blocked t c c' nothing live = ground arith

  -- The goroutine finds its queue empty.
  pub blocked-IsSole :
      (i : ℕ) (t : Thread) (s : System)
      → t.phase ≢ ended
      → IsSole m sender pipe i t [] s
      → IsSole m sender pipe i t [] (step m sender pipe (resume i) s)
  blocked-IsSole i t s live sole =
      let st = sole.standing in
      let q : FrameQueue Envelope = st.queue in
      let c : Caller = record s.caller { queues = set s.caller.queues t.addr q } in
      let turned =
        step-resume m sender pipe s i t st.at
        ∙ ap (λ r. record { caller = r.1; threads = set s.threads i r.0 })
            (blocked t s.caller c (poll-nothing t.addr s.caller q st.held st.content) live) in
      let kept : pending_of m.is_text c ≡ pending_of m.is_text s.caller = ground arith in
      turned-IsSole i t t [] [] s (step m sender pipe (resume i) s) c sole turned kept refl refl (
        subst (λ x. Standing m sender pipe x i t []) (sym turned)
          (record {
            at = get_elem?-set_self s.threads i t t st.at;
            queue = q;
            held = get_elem?-set_self s.caller.queues t.addr q q st.held;
            content = st.content;
            pending = ap (lookup t.id) kept ∙ st.pending;
          }))

  -- The goroutine takes a frame and goes on.
  pub heard-IsSole :
      (i : ℕ) (t : Thread) (e : Envelope) (es : List Envelope) (s : System) (k : Bytes)
      (msg : Message)
      → Open (pipe t.addr)
      → read_envelope m.wire e ≡ some (k, msg)
      → t.phase ≢ ended
      → (heard t msg).phase ≢ ended
      → IsSole m sender pipe i t (e ∷ es) s
      → IsSole m sender pipe i (heard t msg) es (step m sender pipe (resume i) s)
  heard-IsSole i t e es s k msg reader reads live goes sole =
      let st = sole.standing in
      let (c, taken, found, kept) = resumed m sender pipe s i t e es st in
      let move : resume_thread m sender pipe t s.caller ≡ (heard t msg, c) =
        (taken-Heard m sender pipe t s.caller c e k msg reader taken reads live).1 goes in
      let (same_id, same_addr) = heard-same t msg in
      turned-IsSole i t (heard t msg) (e ∷ es) es s (step m sender pipe (resume i) s) c sole
        (step-resume m sender pipe s i t st.at
          ∙ ap (λ r. record { caller = r.1; threads = set s.threads i r.0 }) move)
        kept same_id same_addr
        (moved-Standing m sender pipe s i t (heard t msg) e es st move same_id same_addr)

  pub heard-at :
      (i : ℕ) (t : Thread) (e : Envelope) (es : List Envelope) (s : System) (k : Bytes)
      (msg : Message)
      → Open (pipe t.addr)
      → read_envelope m.wire e ≡ some (k, msg)
      → t.phase ≢ ended
      → Standing m sender pipe s i t (e ∷ es)
      → get_elem? (step m sender pipe (resume i) s).threads i ≡ some (heard t msg)
  heard-at i t e es s k msg reader reads live st =
      let (c, taken, found, kept) = resumed m sender pipe s i t e es st in
      ap (λ x. get_elem? x.threads i) (step-resume m sender pipe s i t st.at)
      ∙ get_elem?-set_self s.threads i (resume_thread m sender pipe t s.caller).0 t st.at
      ∙ ap some (taken-Heard m sender pipe t s.caller c e k msg reader taken reads live).0
