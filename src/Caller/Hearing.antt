-- ===== src/Caller/Hearing.antt =====
-- What a goroutine of golang/client/client.go becomes by the messages under its id, one after another:
-- `requestBinary` and `pumpBinary`, and their text twins, as a machine on the messages of spec.md.
use how.Base.{ℕ, Bytes, ◌≡◌, ◌≢◌, refl, sym, ap, subst, ◌∙◌, List, [], ◌∷◌, some, arith}
use how.Outcome.{remote, unexpected_type}
use how.Protocol.Message.{
  Envelope, type_http_request, type_http_response_chunk, type_http_response_end,
}
use how.Protocol.Reading.{
  Message, http_request, http_response, http_response_start, http_response_chunk, http_response_end,
  error, read_envelope,
}
use how.Handler.Send.{Transport}
use how.Caller.{Caller, Mode, poll}
use how.Caller.Request.{Returned, failed, buffered, streaming, first_frame}
use how.Caller.Pump.{Pipe, Pumped, goes_on, returned, pump_frame}
use how.Caller.System.{
  Thread, Phase, awaiting, pumping, ended, phase_after, settle, pumped, resume_thread,
}
use how.Caller.Body.{told, Open, pump-message}
use how.Caller.Delivery.{next-taken}

-- What `Request` returns for the first message.
unfoldable pub first_heard : Message → Returned
first_heard (http_response p) = buffered p.status_code p.headers p.body
first_heard (http_response_start p) = streaming p.status_code p.headers
first_heard (error p) = failed (remote p.code p.message)
first_heard (http_request p) = failed (unexpected_type type_http_request)
first_heard (http_response_chunk b) = failed (unexpected_type type_http_response_chunk)
first_heard http_response_end = failed (unexpected_type type_http_response_end)

-- A pump that goes on, or is done.
unfoldable pub with_told : Thread → Pumped → Thread
with_told t (goes_on ops) = record t { ops = ops }
with_told t (returned ops) = record t { ops = ops; phase = ended }

unfoldable pub heard_in : Phase → Thread → Message → Thread
unfolding first_heard with_told
heard_in awaiting t msg = record t {
  phase = phase_after (first_heard msg);
  result = some (first_heard msg);
}
heard_in pumping t msg = with_told t (told t.ops (msg ∷ []))
heard_in ended t msg = t

-- One message.
unfoldable pub heard : Thread → Message → Thread
unfolding heard_in
heard t msg = heard_in t.phase t msg

-- Messages in turn.
unfoldable pub after_hearing : Thread → List Message → Thread
after_hearing t [] = t
after_hearing t (msg ∷ ms) = after_hearing (heard t msg) ms

module _ (m : Mode) (sender : Transport) (pipe : ℕ → Pipe) where
  first-heard :
      (id k : Bytes) (env : Envelope) (c : Caller) (msg : Message)
      → read_envelope m.wire env ≡ some (k, msg)
      → (first_frame m id env c).0 ≡ first_heard msg
  unfolding first_frame read_envelope first_heard
  first-heard id k env c (http_request p) reads = ground arith
  first-heard id k env c (http_response p) reads = ground arith
  first-heard id k env c (http_response_start p) reads = ground arith
  first-heard id k env c (http_response_chunk b) reads = ground arith
  first-heard id k env c http_response_end reads = ground arith
  first-heard id k env c (error p) reads = ground arith

  first-kept :
      (id : Bytes) (env : Envelope) (c : Caller)
      → phase_after (first_frame m id env c).0 ≢ ended
      → (first_frame m id env c).1 ≡ c
  unfolding first_frame
  first-kept id env c live = ground arith

  pumped-told : (t : Thread) (c : Caller) (p : Pumped) → (pumped m t c p).0 ≡ with_told t p
  unfolding pumped with_told
  pumped-told t c (goes_on ops) = refl
  pumped-told t c (returned ops) = refl

  pumped-kept :
      (t : Thread) (c : Caller) (p : Pumped)
      → (with_told t p).phase ≢ ended
      → (pumped m t c p).1 ≡ c
  unfolding pumped with_told
  pumped-kept t c (goes_on ops) live = refl
  pumped-kept t c (returned ops) live = absurd (live refl)

  abbrev Heard : Thread → Message → Thread × Caller → Caller → Type 0
  Heard t msg r c' = (r.0 ≡ heard t msg) × ((heard t msg).phase ≢ ended → r ≡ (heard t msg, c'))

  first-taken :
      (t : Thread) (c c' : Caller) (env : Envelope)
      → t.phase ≡ awaiting
      → poll t.addr c ≡ (some env, c')
      → resume_thread m sender pipe t c ≡ settle t (first_frame m t.id env c')
  unfolding resume_thread
  first-taken t c c' env waits taken = ground arith

  first-Heard :
      (t : Thread) (k : Bytes) (c' : Caller) (env : Envelope) (msg : Message)
      → t.phase ≡ awaiting
      → read_envelope m.wire env ≡ some (k, msg)
      → Heard t msg (settle t (first_frame m t.id env c')) c'
  unfolding settle heard
  first-Heard t k c' env msg waits reads =
      let r : Returned × Caller = first_frame m t.id env c' in
      let same : r.0 ≡ first_heard msg = first-heard t.id k env c' msg reads in
      let become : heard t msg ≡ record t { phase = phase_after r.0; result = some r.0 } =
        ap (λ p. heard_in p t msg) waits
        ∙ ap (λ x. record t { phase = phase_after x; result = some x }) (sym same) in
      (
        sym become,
        (λ live.
            ap (λ x. (x, r.1)) (sym become)
            ∙ ap (λ x. (heard t msg, x))
                (first-kept t.id env c' (λ e. live (ap (λ x. x.phase) become ∙ e)))),
      )

  next-Heard :
      (t : Thread) (k : Bytes) (c' : Caller) (env : Envelope) (msg : Message)
      → Open (pipe t.addr)
      → t.phase ≡ pumping
      → read_envelope m.wire env ≡ some (k, msg)
      → Heard t msg (pumped m t c' (pump_frame m (pipe t.addr) env t.ops)) c'
  unfolding heard
  next-Heard t k c' env msg reader pumps reads =
      let p : Pumped = pump_frame m (pipe t.addr) env t.ops in
      let become : heard t msg ≡ with_told t p =
        ap (λ q. heard_in q t msg) pumps
        ∙ ap (with_told t) (sym (pump-message m (pipe t.addr) reader k env msg t.ops reads)) in
      (
        pumped-told t c' p ∙ sym become,
        (λ live.
            ap (λ x. (x, (pumped m t c' p).1)) (pumped-told t c' p ∙ sym become)
            ∙ ap (λ x. (heard t msg, x))
                (pumped-kept t c' p (λ e. live (ap (λ x. x.phase) become ∙ e)))),
      )

  taken_in-Heard :
      (p : Phase) (t : Thread) (c c' : Caller) (env : Envelope) (k : Bytes) (msg : Message)
      → t.phase ≡ p
      → Open (pipe t.addr)
      → poll t.addr c ≡ (some env, c')
      → read_envelope m.wire env ≡ some (k, msg)
      → p ≢ ended
      → Heard t msg (resume_thread m sender pipe t c) c'
  taken_in-Heard awaiting t c c' env k msg at reader taken reads live =
      subst (λ r. Heard t msg r c') (sym (first-taken t c c' env at taken))
        (first-Heard t k c' env msg at reads)
  taken_in-Heard pumping t c c' env k msg at reader taken reads live =
      subst (λ r. Heard t msg r c') (sym (next-taken m sender pipe t c c' env at taken))
        (next-Heard t k c' env msg reader at reads)
  taken_in-Heard ended t c c' env k msg at reader taken reads live = absurd (live refl)

  -- A goroutine that takes a frame has heard its message; if it goes on, its caller is as the taking
  -- left it.
  pub taken-Heard :
      (t : Thread) (c c' : Caller) (env : Envelope) (k : Bytes) (msg : Message)
      → Open (pipe t.addr)
      → poll t.addr c ≡ (some env, c')
      → read_envelope m.wire env ≡ some (k, msg)
      → t.phase ≢ ended
      → ((resume_thread m sender pipe t c).0 ≡ heard t msg)
        × ((heard t msg).phase ≢ ended → resume_thread m sender pipe t c ≡ (heard t msg, c'))
  taken-Heard t c c' env k msg reader taken reads live =
      taken_in-Heard t.phase t c c' env k msg refl reader taken reads live

with_told-same :
    (t : Thread) (p : Pumped) → ((with_told t p).id ≡ t.id) × ((with_told t p).addr ≡ t.addr)
unfolding with_told
with_told-same t (goes_on ops) = (refl, refl)
with_told-same t (returned ops) = (refl, refl)

heard_in-same :
    (p : Phase) (t : Thread) (msg : Message)
    → ((heard_in p t msg).id ≡ t.id) × ((heard_in p t msg).addr ≡ t.addr)
unfolding heard_in
heard_in-same awaiting t msg = (refl, refl)
heard_in-same pumping t msg = with_told-same t (told t.ops (msg ∷ []))
heard_in-same ended t msg = (refl, refl)

-- Hearing changes neither the id nor the queue.
pub heard-same :
    (t : Thread) (msg : Message) → ((heard t msg).id ≡ t.id) × ((heard t msg).addr ≡ t.addr)
unfolding heard
heard-same t msg = heard_in-same t.phase t msg
