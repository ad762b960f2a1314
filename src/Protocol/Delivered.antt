-- ===== src/Protocol/Delivered.antt =====
-- The constructors of golang/protocol/message.go, then `Marshal` or `MarshalText` on one side; `Unmarshal`
-- or `UnmarshalText`, the type byte and the decoder on the other.
use how.Base.{ℕ, Bytes, ◌≡◌, refl, true, some, arith}
use how.Outcome.{Result, ok}
use how.Protocol.Message.{Envelope, request, response, start, chunk, failure}
use how.Protocol.Codecs.{MsgPack, MsgPackLaws, Json}
use how.Protocol.Wire.{binary_wire, text_wire, marshal, marshal_text}
use how.Protocol.Make.{
  new_http_request, new_http_response, new_http_response_start, new_http_response_chunk,
  new_http_response_end, new_error, new_text_http_request, new_text_http_response,
  new_text_http_response_start, new_text_http_response_chunk, new_text_http_response_end,
  new_text_error,
}
use how.Protocol.Reading.{
  Message, http_request, http_response, http_response_start, http_response_chunk, http_response_end,
  error, read_message, read_envelope,
}
use how.Protocol.Binary.{binary-Lossless}
use how.Protocol.Text.{JsonLaws, SafePayload, text-Lossless}

-- The constructor that makes each message.
abbrev pub made_binary : MsgPack → Bytes → Message → Result Envelope
made_binary mp id (http_request p) = new_http_request mp id p
made_binary mp id (http_response p) = new_http_response mp id p
made_binary mp id (http_response_start p) = new_http_response_start mp id p.status_code p.headers
made_binary mp id (http_response_chunk b) = new_http_response_chunk mp id b
made_binary mp id http_response_end = ok (new_http_response_end id)
made_binary mp id (error p) = new_error mp id p.code p.message

abbrev pub made_text : Json → Bytes → Message → Result Envelope
made_text js id (http_request p) = new_text_http_request js id p
made_text js id (http_response p) = new_text_http_response js id p
made_text js id (http_response_start p) = new_text_http_response_start js id p.status_code p.headers
made_text js id (http_response_chunk b) = new_text_http_response_chunk js id b
made_text js id http_response_end = ok (new_text_http_response_end id)
made_text js id (error p) = new_text_error js id p.code p.message

-- Every string of the message is UTF-8, and text mode leaves its body alone.
abbrev pub SafeMessage : Json → Message → Type 0
SafeMessage js (http_request p) = SafePayload js request p
SafeMessage js (http_response p) = SafePayload js response p
SafeMessage js (http_response_start p) = SafePayload js start p
SafeMessage js (http_response_chunk b) = SafePayload js chunk (record { chunk_data = b })
SafeMessage js http_response_end = Unit
SafeMessage js (error p) = SafePayload js failure p

-- The type byte of section 6 of spec.md.
abbrev pub byte_of : Message → ℕ
byte_of (http_request p) = 0x10
byte_of (http_response p) = 0x11
byte_of (http_response_start p) = 0x12
byte_of (http_response_chunk b) = 0x13
byte_of http_response_end = 0x14
byte_of (error p) = 0xff

-- Where the MessagePack library reads back what it wrote: for every message, its constructor returns an
-- envelope with its type byte, `Marshal` packs that, and the frame, unmarshalled and decoded as its type
-- byte tells, is the same message under the same id.
pub binary_message_delivered :
    (mp : MsgPack) (id : Bytes) (msg : Message)
    → MsgPackLaws mp
    → (env : Envelope) × (d : Bytes) × (made_binary mp id msg ≡ ok env)
      × (env.type ≡ byte_of msg)
      × (marshal mp env ≡ ok d)
      × (read_message (binary_wire mp) d ≡ some (id, msg))
unfolding new_http_request new_http_response new_http_response_start new_http_response_chunk
    new_http_response_end new_error read_message read_envelope
binary_message_delivered mp id (http_request p) laws =
    let (raw, d, made, sent, received, read) =
      (binary-Lossless mp laws).carries request 0x10 id p tt tt in
    (
      record { type = 0x10; request_id = id; payload = raw },
      d,
      ground arith,
      refl,
      sent,
      ground arith,
    )
binary_message_delivered mp id (http_response p) laws =
    let (raw, d, made, sent, received, read) =
      (binary-Lossless mp laws).carries response 0x11 id p tt tt in
    (
      record { type = 0x11; request_id = id; payload = raw },
      d,
      ground arith,
      refl,
      sent,
      ground arith,
    )
binary_message_delivered mp id (http_response_start p) laws =
    let (raw, d, made, sent, received, read) =
      (binary-Lossless mp laws).carries start 0x12 id p tt tt in
    (
      record { type = 0x12; request_id = id; payload = raw },
      d,
      ground arith,
      refl,
      sent,
      ground arith,
    )
binary_message_delivered mp id (http_response_chunk b) laws =
    let (raw, d, made, sent, received, read) =
      (binary-Lossless mp laws).carries chunk 0x13 id (record { chunk_data = b }) tt tt in
    (
      record { type = 0x13; request_id = id; payload = raw },
      d,
      ground arith,
      refl,
      sent,
      ground arith,
    )
binary_message_delivered mp id (error p) laws =
    let (raw, d, made, sent, received, read) =
      (binary-Lossless mp laws).carries failure 0xff id p tt tt in
    (
      record { type = 0xff; request_id = id; payload = raw },
      d,
      ground arith,
      refl,
      sent,
      ground arith,
    )
binary_message_delivered mp id http_response_end laws =
    let (d, sent, received) = (binary-Lossless mp laws).carries_end id tt in
    (new_http_response_end id, d, refl, refl, sent, ground arith)

-- Where encoding/json behaves as documented: for every message whose strings and id are UTF-8 and whose
-- body is empty, UTF-8 text that is no JSON, or compact JSON that is neither a string nor `null`, its
-- text constructor returns an envelope with its type byte, `MarshalText` encodes that, and the text,
-- unmarshalled and decoded as its type byte tells, is the same message under the same id.
pub text_message_delivered :
    (js : Json) (id : Bytes) (msg : Message)
    → JsonLaws js
    → js.valid_utf8 id ≡ true
    → SafeMessage js msg
    → (env : Envelope) × (d : Bytes) × (made_text js id msg ≡ ok env)
      × (env.type ≡ byte_of msg)
      × (marshal_text js env ≡ ok d)
      × (read_message (text_wire js) d ≡ some (id, msg))
unfolding new_text_http_request new_text_http_response new_text_http_response_start
    new_text_http_response_chunk new_text_http_response_end new_text_error read_message
    read_envelope
text_message_delivered js id (http_request p) laws good safe =
    let (raw, d, made, sent, received, read) =
      (text-Lossless js laws).carries request 0x10 id p good safe in
    (
      record { type = 0x10; request_id = id; payload = raw },
      d,
      ground arith,
      refl,
      sent,
      ground arith,
    )
text_message_delivered js id (http_response p) laws good safe =
    let (raw, d, made, sent, received, read) =
      (text-Lossless js laws).carries response 0x11 id p good safe in
    (
      record { type = 0x11; request_id = id; payload = raw },
      d,
      ground arith,
      refl,
      sent,
      ground arith,
    )
text_message_delivered js id (http_response_start p) laws good safe =
    let (raw, d, made, sent, received, read) =
      (text-Lossless js laws).carries start 0x12 id p good safe in
    (
      record { type = 0x12; request_id = id; payload = raw },
      d,
      ground arith,
      refl,
      sent,
      ground arith,
    )
text_message_delivered js id (http_response_chunk b) laws good safe =
    let (raw, d, made, sent, received, read) =
      (text-Lossless js laws).carries chunk 0x13 id (record { chunk_data = b }) good safe in
    (
      record { type = 0x13; request_id = id; payload = raw },
      d,
      ground arith,
      refl,
      sent,
      ground arith,
    )
text_message_delivered js id (error p) laws good safe =
    let (raw, d, made, sent, received, read) =
      (text-Lossless js laws).carries failure 0xff id p good safe in
    (
      record { type = 0xff; request_id = id; payload = raw },
      d,
      ground arith,
      refl,
      sent,
      ground arith,
    )
text_message_delivered js id http_response_end laws good safe =
    let (d, sent, received) = (text-Lossless js laws).carries_end id good in
    (new_text_http_response_end id, d, refl, refl, sent, ground arith)
