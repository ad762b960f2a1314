-- ===== src/EndToEnd/Requests.antt =====
-- A request from `Caller.Request` to the goroutine that serves it on the other side
-- (golang/client/client.go).
use how.Base.{
  Bytes, Bool, ◌≡◌, sym, subst, [], ◌∷◌, ◌++◌, length, none, some, arith, Bool-cases, inl, inr,
  if◌then◌else◌,
}
use how.Protocol.Message.{PayloadType, Payload, request, type_http_request}
use how.Protocol.Wire.{binary_wire, text_wire}
use how.Protocol.Make.{new_http_request, new_text_http_request}
use how.Protocol.Reading.{Lossless}
use how.Handler.Send.{Channel, OutFrame, binary, text, Transport, Sink}
use how.Handler.Dispatch.{Spawned, handle_binary_message, handle_text_message}
use how.Handler.Saying.{Reliable}
use how.Caller.{Caller, Mode, binary_mode, text_mode, register}
use how.Caller.Request.{waiting, begin_request, request_sent}
use how.EndToEnd.Whole.{peer_mode}

-- The transport hands binary frames to `HandleBinaryMessage`, text frames to `HandleTextMessage`.
abbrev pub receive : Channel → OutFrame → Sink → Spawned × Sink
receive h (binary d) sink = handle_binary_message h d sink
receive h (text d) sink = handle_text_message h d sink

-- `Request` waits on a new queue, registered under the id, after it sent one frame, for which the
-- handler starts to serve the very same request under the very same id, and sends nothing yet.
abbrev pub Crosses : Channel → Mode → Transport → Bytes → Payload request → Caller → Sink → Type 0
Crosses h m sender id req c sink =
    (f : OutFrame) × (begin_request m sender id req c
      ≡ (waiting (length c.queues), record (register m id c) { sent = c.sent ++ f ∷ [] }))
    × (receive h f sink ≡ (some (id, req), sink))

module _ (h : Channel) (sender : Transport) (id : Bytes) (req : Payload request) (c : Caller)
    (sink : Sink) (open_ : c.close_err ≡ none)
    (accepts : (f : OutFrame) → sender c.sent f ≡ none) where
  binary_reaches :
      {GoodId : Bytes → Type 0} {Good : (t : PayloadType) → Payload t → Type 0}
      → Lossless (binary_wire h.mp) GoodId Good
      → GoodId id
      → Good request req
      → Crosses h (binary_mode h.mp) sender id req c sink
  unfolding begin_request request_sent register new_http_request handle_binary_message
  binary_reaches carrier good_id good =
      let (b, d, made, sent, arrived, read) =
        carrier.carries request type_http_request id req good_id good in
      (binary d, ground (arith, accepts (binary d)), ground arith)

  text_reaches :
      {GoodId : Bytes → Type 0} {Good : (t : PayloadType) → Payload t → Type 0}
      → Lossless (text_wire h.js) GoodId Good
      → GoodId id
      → Good request req
      → Crosses h (text_mode h.js) sender id req c sink
  unfolding begin_request request_sent register new_text_http_request handle_text_message
  text_reaches carrier good_id good =
      let (b, d, made, sent, arrived, read) =
        carrier.carries request type_http_request id req good_id good in
      (text d, ground (arith, accepts (text d)), ground arith)

  -- Both sides in one mode that carries the request. An open caller whose sender takes the frame waits,
  -- after `Request`, on a new queue registered under the id, having sent one frame; and the handler that
  -- receives this frame starts to serve exactly this request under exactly this id.
  pub request_reaches_handler :
      {GoodId : Bytes → Type 0} {Good : (t : PayloadType) → Payload t → Type 0}
      → Reliable h GoodId Good
      → GoodId id
      → Good request req
      → Crosses h (peer_mode h) sender id req c sink
  request_reaches_handler rel good_id good =
      let mode : Bool → Mode = λ t. if t then text_mode h.js else binary_mode h.mp in
      elim (Bool-cases h.text_mode) [
        | inl is_text ↦
            subst (λ t. Crosses h (mode t) sender id req c sink) (sym is_text)
              (text_reaches (rel.text_ok is_text) good_id good)
        | inr is_binary ↦
            subst (λ t. Crosses h (mode t) sender id req c sink) (sym is_binary)
              (binary_reaches (rel.binary_ok is_binary) good_id good)
      ]
