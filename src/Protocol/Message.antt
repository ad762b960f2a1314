-- ===== src/Protocol/Message.antt =====
-- golang/protocol/message.go: the message types, the payloads, the error codes and the envelope.
use how.Base.{ℕ, Bytes, List}
use how.Base.Keyed.{Keyed}

-- `ProtocolByte`
abbrev pub protocol_byte : ℕ
protocol_byte = 0x69

-- `MessageType` is a uint8; a frame may carry a type that none of these names.
abbrev pub type_http_request : ℕ
type_http_request = 0x10

abbrev pub type_http_response : ℕ
type_http_response = 0x11

abbrev pub type_http_response_start : ℕ
type_http_response_start = 0x12

abbrev pub type_http_response_chunk : ℕ
type_http_response_chunk = 0x13

abbrev pub type_http_response_end : ℕ
type_http_response_end = 0x14

abbrev pub type_error : ℕ
type_error = 0xff

-- `ErrInvalidMessage` and `ErrInternal`; the other codes are used by no code of the repository.
abbrev pub err_invalid_message : ℕ
err_invalid_message = 1003

abbrev pub err_internal : ℕ
err_internal = 1006

-- `Envelope` and `TextEnvelope` have the same fields; a payload that is absent is empty.
pub record Envelope : Type 0 where
  pub type : ℕ
  pub request_id : Bytes
  pub payload : Bytes

-- The envelope around an encoded payload.
abbrev pub envelope : ℕ → Bytes → Bytes → Envelope
envelope type id payload = record { type = type; request_id = id; payload = payload }

-- `map[string][]string`
abbrev pub Headers : Type 0
Headers = Keyed (List Bytes)

-- The payload structs, over the form in which a `RawBody` field is held: bytes in the program,
-- raw JSON text where the JSON library has asked `RawBody` for its own encoding.
pub record HttpRequestPayload (B : Type 0) : Type 0 where
  pub method : Bytes
  pub url : Bytes
  pub headers : Headers
  pub body : B

pub record HttpResponsePayload (B : Type 0) : Type 0 where
  pub status_code : ℕ
  pub headers : Headers
  pub body : B

pub record HttpResponseStartPayload : Type 0 where
  pub status_code : ℕ
  pub headers : Headers

pub record HttpResponseChunkPayload (B : Type 0) : Type 0 where
  pub chunk_data : B

pub record ErrorPayload : Type 0 where
  pub code : ℕ
  pub message : Bytes

-- The type argument of `DecodePayload[T]` and the dynamic type of `encodePayload(v any)`.
pub data PayloadType : Type 0 where
  request response start chunk failure : PayloadType

abbrev pub PayloadOf : Type 0 → PayloadType → Type 0
PayloadOf B request = HttpRequestPayload B
PayloadOf B response = HttpResponsePayload B
PayloadOf B start = HttpResponseStartPayload
PayloadOf B chunk = HttpResponseChunkPayload B
PayloadOf B failure = ErrorPayload

abbrev pub Payload : PayloadType → Type 0
Payload t = PayloadOf Bytes t
