-- ===== src/Handler/Reception.antt =====
-- What `HOWHandler.HandleBinaryMessage` and `HandleTextMessage` (golang/client/client.go) do with any
-- frame.
use how.Base.{Bytes, ◌≡◌, List, [], ◌∷◌, true, false, some, arith}
use how.Outcome.{Error, ok, err}
use how.Protocol.Message.{
  Envelope, PayloadType, Payload, request, failure, type_http_request, type_error,
  err_invalid_message,
}
use how.Protocol.Codecs.{MsgPackLaws}
use how.Protocol.Wire.{
  binary_wire, text_wire, unmarshal, decode_payload, unmarshal_text, decode_text_payload,
}
use how.Protocol.Make.{new_error, new_text_error}
use how.Protocol.Reading.{Message, error, read_message, read_envelope, Lossless}
use how.Protocol.Binary.{binary-Lossless}
use how.Handler.Send.{Channel, Sink, OutFrame, send_binary_or_nil, send_text_or_nil}
use how.Handler.Dispatch.{Spawned, handle_binary_message, handle_text_message}
use how.Handler.Receiving.{refusal, Reception, IsReceiver, all-Received}
use how.Handler.Saying.{Extends, read_frame}

-- `HandleBinaryMessage` replies in binary mode, and `HandleTextMessage` in text mode, whatever mode the
-- handler answers in.
abbrev pub binary_side : Channel → Channel
binary_side h = record h { text_mode = false }

abbrev pub text_side : Channel → Channel
text_side h = record h { text_mode = true }

module _ (h : Channel) where
  abbrev refuse_binary : Bytes → Error → Sink → Sink
  refuse_binary id e sink =
      send_binary_or_nil h (new_error h.mp id err_invalid_message (h.error_text e)) sink

  abbrev refuse_text : Bytes → Error → Sink → Sink
  refuse_text id e sink =
      send_text_or_nil h (new_text_error h.js id err_invalid_message (h.error_text e)) sink

  binary-IsReceiver : IsReceiver (binary_wire h.mp) (handle_binary_message h) refuse_binary
  unfolding handle_binary_message
  binary-IsReceiver = record {
    handle_no_frame = λ bytes sink e broken. ground arith;
    handle_other_type = λ bytes sink env arrived other. ground arith;
    handle_request = λ bytes sink env req arrived is_request decoded. ground arith;
    handle_refused = λ bytes sink env e arrived is_request broken. ground arith;
  }

  text-IsReceiver : IsReceiver (text_wire h.js) (handle_text_message h) refuse_text
  unfolding handle_text_message
  text-IsReceiver = record {
    handle_no_frame = λ bytes sink e broken. ground arith;
    handle_other_type = λ bytes sink env arrived other. ground arith;
    handle_request = λ bytes sink env req arrived is_request decoded. ground arith;
    handle_refused = λ bytes sink env e arrived is_request broken. ground arith;
  }

  refuse_binary-says :
      MsgPackLaws h.mp
      → (id : Bytes) (e : Error) (sink : Sink)
      → Extends (binary_side h) id sink (refuse_binary id e sink) (error (refusal h e) ∷ [])
  unfolding send_binary_or_nil new_error read_frame read_message read_envelope
  refuse_binary-says laws id e sink =
      let (b, d, made, sent, received, read) =
        (binary-Lossless h.mp laws).carries failure type_error id (refusal h e) tt tt in
      (OutFrame.binary d ∷ [], ground arith, (ground arith, tt))

  refuse_text-says :
      {GoodId : Bytes → Type 0} {Good : (t : PayloadType) → Payload t → Type 0}
      → Lossless (text_wire h.js) GoodId Good
      → (id : Bytes) (e : Error) (sink : Sink) → GoodId id
      → Good failure (refusal h e)
      → Extends (text_side h) id sink (refuse_text id e sink) (error (refusal h e) ∷ [])
  unfolding send_text_or_nil new_text_error read_frame read_message read_envelope
  refuse_text-says lossless id e sink good_id good =
      let (b, d, made, sent, received, read) =
        lossless.carries failure type_error id (refusal h e) good_id good in
      (OutFrame.text d ∷ [], ground arith, (ground arith, tt))

  pub handle_request :
      (bytes : Bytes) (sink : Sink) (env : Envelope) (req : Payload request)
      → unmarshal h.mp bytes ≡ ok env
      → env.type ≡ type_http_request
      → decode_payload h.mp request env ≡ ok req
      → handle_binary_message h bytes sink ≡ (some (env.request_id, req), sink)
  handle_request = binary-IsReceiver.handle_request

  -- Whatever bytes arrive, `HandleBinaryMessage` starts serving exactly the well-formed requests; answers
  -- a request whose payload cannot be decoded by one `Error` message with code 1003 under its own id; and
  -- sends nothing and starts nothing for frames of other protocols, broken envelopes and other types.
  pub every_frame_received :
      (laws : MsgPackLaws h.mp) (bytes : Bytes) (sink : Sink)
      → (spawned : Spawned) × (id : Bytes) × (ms : List Message) × Reception h
          (binary_wire h.mp)
          bytes
          spawned
          id
          ms
        × ((handle_binary_message h bytes sink).0 ≡ spawned)
        × Extends (binary_side h) id sink (handle_binary_message h bytes sink).1 ms
  every_frame_received laws bytes sink =
      all-Received h (binary_side h) (binary_wire h.mp) binary-IsReceiver bytes sink
        (λ env e arrived broken. refuse_binary-says laws env.request_id e sink)

  -- Whatever text arrives, `HandleTextMessage` starts serving exactly the well-formed requests; answers a
  -- request whose payload cannot be decoded by one `Error` message with code 1003 under its own id, where
  -- text mode carries that message; and sends nothing and starts nothing for broken envelopes and other
  -- types.
  pub every_text_frame_received :
      {GoodId : Bytes → Type 0} {Good : (t : PayloadType) → Payload t → Type 0} (bytes : Bytes)
      (sink : Sink)
      → Lossless (text_wire h.js) GoodId Good
      → ((env : Envelope) (e : Error)
          → unmarshal_text h.js bytes ≡ ok env
          → decode_text_payload h.js request env ≡ err e
          → GoodId env.request_id × Good failure (refusal h e))
      → (spawned : Spawned) × (id : Bytes) × (ms : List Message) × Reception h
          (text_wire h.js)
          bytes
          spawned
          id
          ms
        × ((handle_text_message h bytes sink).0 ≡ spawned)
        × Extends (text_side h) id sink (handle_text_message h bytes sink).1 ms
  every_text_frame_received bytes sink lossless good =
      all-Received h (text_side h) (text_wire h.js) text-IsReceiver bytes sink
        (λ env e arrived broken.
          let (good_id, good_refusal) = good env e arrived broken in
          refuse_text-says lossless env.request_id e sink good_id good_refusal)
