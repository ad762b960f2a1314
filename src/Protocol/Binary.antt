-- ===== src/Protocol/Binary.antt =====
-- Binary mode carries every payload, by the laws of the MessagePack library.
use how.Base.{Bytes, [], ◌∷◌}
use how.Protocol.Message.{PayloadType, Payload, type_http_response_end, protocol_byte}
use how.Protocol.Codecs.{MsgPack, MsgPackLaws}
use how.Protocol.Wire.{binary_wire, encode_payload, decode_payload}
use how.Protocol.Frames.{unmarshal-marshal}
use how.Protocol.Reading.{Lossless}
use how.Protocol.Message.{envelope}

-- Every id and every payload counts.
abbrev pub AnyId : Bytes → Type 0
AnyId id = Unit {0}

abbrev pub AnyPayload : (t : PayloadType) → Payload t → Type 0
AnyPayload t p = Unit {0}

-- Where the MessagePack library reads back what it wrote, binary mode carries every payload of every
-- message type, under every request id, and `HTTPResponseEnd` without one.
pub binary-Lossless : (mp : MsgPack) → MsgPackLaws mp → Lossless (binary_wire mp) AnyId AnyPayload
unfolding encode_payload decode_payload
binary-Lossless mp laws = record {
  carries = λ t type id p _ _.
      let (b, packed, wrote, read, sent, received) = laws.payload t type id p in
      let (marshalled, unmarshalled) =
        unmarshal-marshal mp (envelope type id b) packed sent received in
      (b, protocol_byte ∷ packed, wrote, marshalled, unmarshalled, rw read);
  carries_end = λ id _.
      let (packed, sent, received) = laws.empty_envelope type_http_response_end id in
      let (marshalled, unmarshalled) =
        unmarshal-marshal mp (envelope type_http_response_end id []) packed sent received in
      (protocol_byte ∷ packed, marshalled, unmarshalled);
}
