-- ===== src/Handler/Dispatch.antt =====
-- golang/client/client.go: `HOWHandler.HandleBinaryMessage`, `HandleTextMessage`, `dispatchRequest`.
use how.Base.{Bytes, codes, [], ◌∷◌, ◌==◌, Option, none, some, if◌then◌else◌}
use how.Outcome.{Error, Result, ok, err}
use how.Protocol.Message.{
  Headers, Payload, request, response, type_http_request, err_invalid_message, err_internal,
}
use how.Protocol.Wire.{unmarshal, unmarshal_text, decode_payload, decode_text_payload}
use how.Protocol.Make.{new_error, new_text_error}
use how.Handler.Send.{
  Channel, Sink, send_response, send_error_envelope, send_binary_or_nil, send_text_or_nil,
}
use how.Handler.Writer.{ResponseWriter, new_response_writer}

-- A `Handler`; `streaming` one that passes the type assertion to `StreamingHandler`, by the effect of
-- its `ServeHTTPOverWSStream`.
pub data Handler : Type 0 where
  plain : (Payload request → Result (Payload response)) → Handler
  streaming :
      (Payload request → ResponseWriter → Sink → Option Error × ResponseWriter × Sink) → Handler

abbrev pub plain_text : Headers
plain_text = (codes "Content-Type", codes "text/plain" ∷ []) ∷ []

-- The arguments of `go h.dispatchRequest(…)`.
abbrev pub Spawned : Type 0
Spawned = Option (Bytes × Payload request)

module _ (h : Channel) where
  -- The 502 that stands for an error of the handler.
  unfoldable pub bad_gateway : Error → Payload response
  bad_gateway e = record { status_code = 502; headers = plain_text; body = h.error_text e }

  unfoldable pub or_bad_gateway : Result (Payload response) → Payload response
  unfolding bad_gateway
  or_bad_gateway (ok resp) = resp
  or_bad_gateway (err e) = bad_gateway e

  unfoldable pub after_stream : Bytes → Option Error × ResponseWriter × Sink → Sink
  unfolding bad_gateway
  after_stream id (none, rw, sink) = sink
  after_stream id (some e, rw, sink) =
      if rw.started
      then send_error_envelope h id err_internal (h.error_text e) sink
      else send_response h id (bad_gateway e) sink

  unfoldable pub dispatch_request : Handler → Bytes → Payload request → Sink → Sink
  unfolding or_bad_gateway after_stream new_response_writer
  dispatch_request (plain serve) id req sink = send_response h id (or_bad_gateway (serve req)) sink
  dispatch_request (streaming serve) id req sink =
      after_stream id (serve req (new_response_writer id) sink)

  spawn_or_refuse : Bytes → (Error → Sink → Sink) → Result (Payload request) → Sink → Spawned × Sink
  spawn_or_refuse id refuse (ok req) sink = (some (id, req), sink)
  spawn_or_refuse id refuse (err e) sink = (none, refuse e sink)

  -- The goroutine to start, if any, and what was sent meanwhile. Other types are logged and dropped.
  unfoldable pub handle_binary_message : Bytes → Sink → Spawned × Sink
  unfolding spawn_or_refuse
  handle_binary_message bytes sink = elim (unmarshal h.mp bytes) [
    | err e ↦ (none, sink)
    | ok env ↦
        if env.type == type_http_request
        then spawn_or_refuse env.request_id
            (λ e.
              send_binary_or_nil h
                (new_error h.mp env.request_id err_invalid_message (h.error_text e)))
            (decode_payload h.mp request env) sink
        else (none, sink)
  ]

  unfoldable pub handle_text_message : Bytes → Sink → Spawned × Sink
  unfolding spawn_or_refuse
  handle_text_message bytes sink = elim (unmarshal_text h.js bytes) [
    | err e ↦ (none, sink)
    | ok env ↦
        if env.type == type_http_request
        then spawn_or_refuse env.request_id
            (λ e.
              send_text_or_nil h
                (new_text_error h.js env.request_id err_invalid_message (h.error_text e)))
            (decode_text_payload h.js request env) sink
        else (none, sink)
  ]

  -- The goroutine, once it runs.
  unfoldable pub run_spawned : Handler → Spawned × Sink → Sink
  run_spawned handler (none, sink) = sink
  run_spawned handler (some (id, req), sink) = dispatch_request handler id req sink
