-- ===== src/Caller/Request.antt =====
-- golang/client/client.go: `Caller.Request`, `requestBinary` and `requestText`, cut at the point where
-- the goroutine blocks in `wait`.
use how.Base.{ℕ, Bytes, [], ◌∷◌, ◌++◌, length, ◌==◌, Bool, Option, none, some, if◌then◌else◌}
use how.Outcome.{Error, Result, ok, err, wrapped, remote, unexpected_type, read_timeout}
use how.Protocol.Message.{
  Envelope, Headers, Payload, request, response, start, failure, type_http_response,
  type_http_response_start, type_error,
}
use how.Handler.Send.{Transport}
use how.Caller.{Caller, Mode, register, remove_pending}

-- Where `Request` stands after its first part: it has returned an error, or it waits on a queue.
pub data Begun : Type 0 where
  refused : Error → Begun
  waiting : ℕ → Begun

-- What `Request` returns. A buffered body is a reader over the bytes; of a streaming one the pump
-- goroutine has been started.
pub data Returned : Type 0 where
  failed : Error → Returned
  buffered : ℕ → Headers → Bytes → Returned
  streaming : ℕ → Headers → Returned

-- What `wait` found ready beside `done` when it returned `false`: the error of the context, if it is
-- done, and which ready branch the select after it takes.
pub record Stopped : Type 0 where
  pub ctx_err : Option Error
  pub prefer_ctx : Bool

choose : Option Error → Option Error → Bool → Error
choose (some closed) (some ctx) prefer_ctx = if prefer_ctx then ctx else closed
choose (some closed) none prefer_ctx = closed
choose none (some ctx) prefer_ctx = ctx
choose none none prefer_ctx = read_timeout

-- `select { case <-c.done: … case <-ctx.Done(): … default: … }`
unfoldable pub stop_error : Caller → Stopped → Error
unfolding choose
stop_error c s = choose c.close_err s.ctx_err s.prefer_ctx

module _ (m : Mode) (sender : Transport) where
  after_send : Bytes → ℕ → Option Error → Caller → Begun × Caller
  after_send id a (some e) c = (refused (wrapped m.send_label e), remove_pending m id c)
  after_send id a none c = (waiting a, c)

  after_marshal : Bytes → ℕ → Result Bytes → Caller → Begun × Caller
  unfolding after_send
  after_marshal id a (err e) c = (refused (wrapped m.marshal_label e), remove_pending m id c)
  after_marshal id a (ok bytes) c =
      after_send id a (sender c.sent (m.frame bytes))
        (record c { sent = c.sent ++ m.frame bytes ∷ [] })

  after_create : Bytes → ℕ → Result Envelope → Caller → Begun × Caller
  unfolding after_marshal
  after_create id a (err e) c = (refused (wrapped "create request" e), remove_pending m id c)
  after_create id a (ok env) c = after_marshal id a (m.wire.marshal env) c

  -- `requestBinary`, `requestText` up to the call of `wait`; the id is registered before the send.
  unfoldable pub request_sent : Bytes → Payload request → Caller → Begun × Caller
  unfolding after_create
  request_sent id req c = after_create id (length c.queues) (m.new_request id req) (register m id c)

  unless_closed : Option Error → Bytes → Payload request → Caller → Begun × Caller
  unless_closed (some e) id req c = (refused e, c)
  unless_closed none id req c = request_sent id req c

  -- `Request`; `id` is the new UUID
  unfoldable pub begin_request : Bytes → Payload request → Caller → Begun × Caller
  unfolding unless_closed
  begin_request id req c = unless_closed c.close_err id req c

module _ (m : Mode) where
  -- `wait` returned `false`.
  unfoldable pub first_stopped : Bytes → Stopped → Caller → Returned × Caller
  first_stopped id s c = (failed (stop_error c s), remove_pending m id c)

  on_response : Bytes → Result (Payload response) → Caller → Returned × Caller
  on_response id (err e) c = (failed (wrapped "decode response" e), remove_pending m id c)
  on_response id (ok p) c = (buffered p.status_code p.headers p.body, remove_pending m id c)

  on_start : Bytes → Result (Payload start) → Caller → Returned × Caller
  on_start id (err e) c = (failed (wrapped "decode response start" e), remove_pending m id c)
  on_start id (ok p) c = (streaming p.status_code p.headers, c)

  on_error : Bytes → Result (Payload failure) → Caller → Returned × Caller
  on_error id (err e) c = (failed (wrapped "decode error" e), remove_pending m id c)
  on_error id (ok p) c = (failed (remote p.code p.message), remove_pending m id c)

  -- The switch on the type of the first frame.
  unfoldable pub first_frame : Bytes → Envelope → Caller → Returned × Caller
  unfolding on_response on_start on_error
  first_frame id first c =
      if first.type == type_http_response
      then on_response id (m.wire.decode response first) c
      else if first.type == type_http_response_start
      then on_start id (m.wire.decode start first) c
      else if first.type == type_error
      then on_error id (m.wire.decode failure first) c
      else (failed (unexpected_type first.type), remove_pending m id c)
