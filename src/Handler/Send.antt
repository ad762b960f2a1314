-- ===== src/Handler/Send.antt =====
-- golang/client/client.go: `HOWHandler` and its `send…` methods.
use how.Base.{ℕ, Bytes, List, [], ◌∷◌, ◌++◌, Bool, Option, some, if◌then◌else◌}
use how.Outcome.{Error, Result, ok, err}
use how.Protocol.Message.{Envelope, Headers, Payload, response}
use how.Protocol.Codecs.{MsgPack, Json}
use how.Protocol.Wire.{marshal, marshal_nil, marshal_text}
use how.Protocol.Make.{
  new_http_response, new_http_response_start, new_http_response_chunk, new_http_response_end,
  new_error, new_text_http_response, new_text_http_response_start, new_text_http_response_chunk,
  new_text_http_response_end, new_text_error,
}

-- What is handed to `Sendable`: `SendBytes(data)` or `SendText(data)`.
pub data OutFrame : Type 0 where
  binary text : Bytes → OutFrame

-- Every call of the `Sendable`, oldest first, those that it rejected included.
abbrev pub Sink : Type 0
Sink = List OutFrame

-- The `Sendable` is the user's: whether it rejects a frame may depend on all that was sent before.
abbrev pub Transport : Type 0
Transport = Sink → OutFrame → Option Error

-- What `HOWHandler` is built over: the codecs, `Error()` of an error, the sender and the mode.
pub record Channel : Type 0 where
  pub mp : MsgPack
  pub js : Json
  pub error_text : Error → Bytes
  pub sender : Transport
  pub text_mode : Bool

module _ (h : Channel) where
  unfoldable pub send : OutFrame → Sink → Option Error × Sink
  send frame sink = (h.sender sink frame, sink ++ frame ∷ [])

  send_marshalled : (Bytes → OutFrame) → Result Bytes → Sink → Option Error × Sink
  unfolding send
  send_marshalled frame (err e) sink = (some e, sink)
  send_marshalled frame (ok bytes) sink = send (frame bytes) sink

  unfoldable pub send_binary : Envelope → Sink → Option Error × Sink
  unfolding send_marshalled
  send_binary env sink = send_marshalled binary (marshal h.mp env) sink

  unfoldable pub send_text : Envelope → Sink → Option Error × Sink
  unfolding send_marshalled
  send_text env sink = send_marshalled text (marshal_text h.js env) sink

  -- `env, err := protocol.New…; if err != nil { return err }; return h.send…(env)`
  send_made : (Envelope → Sink → Option Error × Sink) → Result Envelope → Sink → Option Error × Sink
  send_made post (err e) sink = (some e, sink)
  send_made post (ok env) sink = post env sink

  -- `errEnv, _ := protocol.New…; h.send…(errEnv)`: where the envelope could not be made, it is nil.
  send_made_or_nil :
      (Envelope → Sink → Option Error × Sink)
      → (Sink → Option Error × Sink)
      → Result Envelope
      → Sink
      → Sink
  send_made_or_nil post post_nil (err e) sink = (post_nil sink).1
  send_made_or_nil post post_nil (ok env) sink = (post env sink).1

  unfoldable pub send_binary_or_nil : Result Envelope → Sink → Sink
  unfolding send_made_or_nil send_binary
  send_binary_or_nil made sink =
      send_made_or_nil send_binary (send_marshalled binary (marshal_nil h.mp)) made sink

  unfoldable pub send_text_or_nil : Result Envelope → Sink → Sink
  unfolding send_made_or_nil send_text
  send_text_or_nil made sink =
      send_made_or_nil send_text (send_marshalled text h.js.marshal_nil) made sink

  -- The methods that return no error log and drop it.
  unfoldable pub send_response : Bytes → Payload response → Sink → Sink
  unfolding send_made send_binary send_text
  send_response id resp sink =
      if h.text_mode
      then (send_made send_text (new_text_http_response h.js id resp) sink).1
      else (send_made send_binary (new_http_response h.mp id resp) sink).1

  unfoldable pub send_response_start : Bytes → ℕ → Headers → Sink → Sink
  unfolding send_made send_binary send_text
  send_response_start id status_code headers sink =
      if h.text_mode
      then (send_made send_text (new_text_http_response_start h.js id status_code headers) sink).1
      else (send_made send_binary (new_http_response_start h.mp id status_code headers) sink).1

  unfoldable pub send_response_chunk : Bytes → Bytes → Sink → Option Error × Sink
  unfolding send_made send_binary send_text
  send_response_chunk id bytes sink =
      if h.text_mode
      then send_made send_text (new_text_http_response_chunk h.js id bytes) sink
      else send_made send_binary (new_http_response_chunk h.mp id bytes) sink

  unfoldable pub send_error_envelope : Bytes → ℕ → Bytes → Sink → Sink
  unfolding send_made send_binary send_text
  send_error_envelope id code message sink =
      if h.text_mode
      then (send_made send_text (new_text_error h.js id code message) sink).1
      else (send_made send_binary (new_error h.mp id code message) sink).1

  unfoldable pub send_response_end : Bytes → Sink → Sink
  unfolding send_binary send_text
  send_response_end id sink =
      if h.text_mode
      then (send_text (new_text_http_response_end id) sink).1
      else (send_binary (new_http_response_end id) sink).1
