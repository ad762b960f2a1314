-- ===== src/Caller/Delivery.antt =====
-- A streaming response on its way through a caller (golang/client/client.go): frames arrive, are queued,
-- and are taken by the goroutine of their request.
use how.Base.{
  ℕ, Bytes, ◌≡◌, refl, sym, ap, ◌∙◌, subst, List, [], ◌∷◌, ◌++◌, none, some, arith, get_elem?, set,
  get_elem?-set_self,
}
use how.Base.Keyed.{lookup}
use how.Outcome.{ok}
use how.Protocol.Message.{Envelope, Payload, start}
use how.Protocol.Reading.{
  http_response_start, http_response_chunk, http_response_end, read_envelope,
}
use how.Queue.{FrameQueue, push, try_pop}
use how.Handler.Send.{Transport}
use how.Caller.{Caller, Mode, pending_of, poll}
use how.Caller.Request.{streaming, first_frame}
use how.Caller.Pump.{wrote, closed, Pipe, pump_frame}
use how.Caller.System.{
  Thread, awaiting, pumping, ended, System, arrive, resume, step, settle, pumped, resume_thread,
  at_thread,
}
use how.Caller.Routing.{frame_reaches_its_request, pending-handle_message}
use how.Caller.Body.{Open, pump-message}

poll-front :
    (a : ℕ) (c : Caller) (q : FrameQueue Envelope) (env : Envelope) (rest : List Envelope)
    → get_elem? c.queues a ≡ some q
    → q.queue ≡ env ∷ rest
    → poll a c ≡ (some env, record c { queues = set c.queues a (record q { queue = rest }) })
unfolding poll try_pop
poll-front a c q env rest held front = ground arith

module _ (m : Mode) (sender : Transport) (pipe : ℕ → Pipe) where
  -- Goroutine `i` is registered under its id, and its queue holds these envelopes.
  pub record Standing (s : System) (i : ℕ) (t : Thread) (es : List Envelope) : Type 0 where
    pub at : get_elem? s.threads i ≡ some t
    pub queue : FrameQueue Envelope
    pub held : get_elem? s.caller.queues t.addr ≡ some queue
    pub content : queue.queue ≡ es
    pub pending : lookup t.id (pending_of m.is_text s.caller) ≡ some t.addr

  push-content :
      (env : Envelope) (q : FrameQueue Envelope) → (push env q).queue ≡ q.queue ++ env ∷ []
  unfolding push
  push-content env q = refl

  pub arrive-Standing :
      (s : System) (i : ℕ) (t : Thread) (es : List Envelope) (bytes : Bytes) (env : Envelope)
      → Standing s i t es
      → m.wire.unmarshal bytes ≡ ok env
      → env.request_id ≡ t.id
      → Standing (step m sender pipe (arrive bytes) s) i t (es ++ env ∷ [])
  unfolding step
  arrive-Standing s i t es bytes env st arrived mine =
      let claimed : lookup env.request_id (pending_of m.is_text s.caller) ≡ some t.addr =
        ap (λ k. lookup k (pending_of m.is_text s.caller)) mine ∙ st.pending in
      record {
        at = st.at;
        queue = push env st.queue;
        held =
            (frame_reaches_its_request m bytes s.caller env t.addr st.queue arrived claimed
              st.held).0;
        content = push-content env st.queue ∙ ap (λ l. l ++ env ∷ []) st.content;
        pending = ap (lookup t.id) (pending-handle_message m bytes s.caller) ∙ st.pending;
      }

  -- The state after goroutine `i` has taken the first envelope of its queue and has moved to `r`.
  pub resumed :
      (s : System) (i : ℕ) (t : Thread) (env : Envelope) (es : List Envelope)
      → Standing s i t (env ∷ es)
      → (c : Caller) × (poll t.addr s.caller ≡ (some env, c))
        × ((q : FrameQueue Envelope) × (get_elem? c.queues t.addr ≡ some q) × (q.queue ≡ es))
        × (pending_of m.is_text c ≡ pending_of m.is_text s.caller)
  resumed s i t env es st =
      let q : FrameQueue Envelope = record st.queue { queue = es } in
      (
        record s.caller { queues = set s.caller.queues t.addr q },
        poll-front t.addr s.caller st.queue env es st.held st.content,
        (q, get_elem?-set_self s.caller.queues t.addr q st.queue st.held, refl),
        ground arith,
      )

  pub step-resume :
      (s : System) (i : ℕ) (t : Thread)
      → get_elem? s.threads i ≡ some t
      → let r = resume_thread m sender pipe t s.caller in
        step m sender pipe (resume i) s ≡ record { caller = r.1; threads = set s.threads i r.0 }
  unfolding step at_thread
  step-resume s i t at = rw (at, at_thread)

  start-taken :
      (t : Thread) (c c' : Caller) (env : Envelope) (id : Bytes) (p : Payload start)
      → t.phase ≡ awaiting
      → poll t.addr c ≡ (some env, c')
      → read_envelope m.wire env ≡ some (id, http_response_start p)
      → resume_thread m sender pipe t c
        ≡ (record t { phase = pumping; result = some (streaming p.status_code p.headers) }, c')
  unfolding resume_thread settle first_frame read_envelope
  start-taken t c c' env id p waits taken reads = ground arith

  pub next-taken :
      (t : Thread) (c c' : Caller) (env : Envelope)
      → t.phase ≡ pumping
      → poll t.addr c ≡ (some env, c')
      → resume_thread m sender pipe t c ≡ pumped m t c' (pump_frame m (pipe t.addr) env t.ops)
  unfolding resume_thread
  next-taken t c c' env pumps taken = ground arith

  -- Goroutine `i` has moved to `t'` and is still registered.
  pub moved-Standing :
      (s : System) (i : ℕ) (t t' : Thread) (env : Envelope) (es : List Envelope)
      (st : Standing s i t (env ∷ es))
      → resume_thread m sender pipe t s.caller ≡ (t', (resumed s i t env es st).0)
      → t'.id ≡ t.id
      → t'.addr ≡ t.addr
      → Standing (step m sender pipe (resume i) s) i t' es
  moved-Standing s i t t' env es st move same_id same_addr =
      let (c, taken, (q, held, content), kept) = resumed s i t env es st in
      subst (λ x. Standing x i t' es)
        (sym (
          step-resume s i t st.at
          ∙ ap (λ r. record { caller = r.1; threads = set s.threads i r.0 }) move))
        (record {
          at = get_elem?-set_self s.threads i t' t st.at;
          queue = q;
          held = ap (get_elem? c.queues) same_addr ∙ held;
          content = content;
          pending = cc (kept, same_id, same_addr, st.pending);
        })

  -- The goroutine takes a chunk and goes on.
  pub chunk-Standing :
      (s : System) (i : ℕ) (t : Thread) (env : Envelope) (es : List Envelope) (id b : Bytes)
      → Open (pipe t.addr)
      → t.phase ≡ pumping
      → read_envelope m.wire env ≡ some (id, http_response_chunk b)
      → Standing s i t (env ∷ es)
      → Standing (step m sender pipe (resume i) s) i (record t { ops = t.ops ++ wrote b ∷ [] }) es
  unfolding pumped
  chunk-Standing s i t env es id b reader pumps reads st =
      let (c, taken, found, kept) = resumed s i t env es st in
      moved-Standing s i t (record t { ops = t.ops ++ wrote b ∷ [] }) env es st
        (next-taken t s.caller c env pumps taken
          ∙ ap (pumped m t c)
              (pump-message m (pipe t.addr) reader id env (http_response_chunk b) t.ops reads))
        refl refl

  -- The goroutine takes the end and is gone.
  pub end-taken :
      (s : System) (i : ℕ) (t : Thread) (env : Envelope) (es : List Envelope) (id : Bytes)
      → Open (pipe t.addr)
      → t.phase ≡ pumping
      → read_envelope m.wire env ≡ some (id, http_response_end)
      → Standing s i t (env ∷ es)
      → get_elem? (step m sender pipe (resume i) s).threads i
        ≡ some (record t { ops = t.ops ++ closed none ∷ []; phase = ended })
  unfolding pumped
  end-taken s i t env es id reader pumps reads st =
      let (c, taken, found, kept) = resumed s i t env es st in
      let t' : Thread = record t { ops = t.ops ++ closed none ∷ []; phase = ended } in
      let move =
        next-taken t s.caller c env pumps taken
        ∙ ap (pumped m t c)
            (pump-message m (pipe t.addr) reader id env http_response_end t.ops reads) in
      ap (λ x. get_elem? x.threads i)
        (step-resume s i t st.at
          ∙ ap (λ r. record { caller = r.1; threads = set s.threads i r.0 }) move)
      ∙ get_elem?-set_self s.threads i t' t st.at

  -- The goroutine takes the start: `Request` returns, and the pump runs.
  pub start-Standing :
      (s : System) (i : ℕ) (t : Thread) (env : Envelope) (es : List Envelope) (id : Bytes)
      (p : Payload start)
      → t.phase ≡ awaiting
      → read_envelope m.wire env ≡ some (id, http_response_start p)
      → Standing s i t (env ∷ es)
      → Standing
          (step m sender pipe (resume i) s)
          i
          (record t { phase = pumping; result = some (streaming p.status_code p.headers) })
          es
  start-Standing s i t env es id p waits reads st =
      let (c, taken, found, kept) = resumed s i t env es st in
      moved-Standing s i t
        (record t { phase = pumping; result = some (streaming p.status_code p.headers) }) env es st
        (start-taken t s.caller c env id p waits taken reads) refl refl
