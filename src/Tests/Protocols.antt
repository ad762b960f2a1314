-- ===== src/Tests/Protocols.antt =====
-- golang/protocol/message.go at concrete libraries.
use how.Base.{Bytes, ◌≡◌, ◌≢◌, ◌↔◌, refl, [], ◌∷◌, ◌++◌, codes, some}
use how.Outcome.{ok, ◌>>=◌}
use how.Protocol.Message.{Envelope, Payload, request, protocol_byte}
use how.Protocol.RawBody.{marshal_json, unmarshal_json, quote}
use how.Protocol.RawBody.Delivery.{quoted_body_altered}
use how.Protocol.Delivered.{
  made_binary, made_text, binary_message_delivered, text_message_delivered,
}
use how.Protocol.Text.{empty}
use how.Protocol.Wire.{marshal, marshal_text, unmarshal, binary_wire, text_wire}
use how.Protocol.Frames.{unmarshal_accepts}
use how.Protocol.Reading.{http_request, read_message}
use how.Protocol.Message.{envelope}
use how.Tests.Wires.{msgpack, msgpack_laws, json, json_strings, json_laws, is_json}

abbrev hello : Envelope
hello = envelope 0x14 (codes "id-1") []

unmarshal_accepts_example :
    (unmarshal msgpack (protocol_byte ∷ 0x14 ∷ 1 ∷ 5 ∷ []) ≡ ok (envelope 0x14 (5 ∷ []) [])) ↔ (
      (packed : Bytes) × ((protocol_byte ∷ 0x14 ∷ 1 ∷ 5 ∷ []) ≡ protocol_byte ∷ packed)
      × (msgpack.unmarshal_envelope packed ≡ ok (envelope 0x14 (5 ∷ []) [])))
unmarshal_accepts_example =
    unmarshal_accepts msgpack (protocol_byte ∷ 0x14 ∷ 1 ∷ 5 ∷ []) (envelope 0x14 (5 ∷ []) [])

-- The body "hi", with its quotes.
quoted_body_altered_example :
    (marshal_json json (quote ∷ codes "hi" ++ quote ∷ []) >>= unmarshal_json json)
    ≢ ok (quote ∷ codes "hi" ++ quote ∷ [])
unfolding is_json
quoted_body_altered_example =
    quoted_body_altered json json_strings (codes "hi" ++ quote ∷ []) refl refl

-- A `DELETE` with a header and no body.
abbrev removal : Payload request
removal = record {
  method = codes "DELETE";
  url = codes "/items/7";
  headers = (codes "Accept", codes "*/*" ∷ []) ∷ [];
  body = [];
}

binary_message_delivered_example :
    (env : Envelope) × (d : Bytes) × (made_binary msgpack (codes "id-1") (http_request removal)
      ≡ ok env)
    × (env.type ≡ 0x10)
    × (marshal msgpack env ≡ ok d)
    × (read_message (binary_wire msgpack) d ≡ some (codes "id-1", http_request removal))
binary_message_delivered_example =
    binary_message_delivered msgpack (codes "id-1") (http_request removal) msgpack_laws

text_message_delivered_example :
    (env : Envelope) × (d : Bytes) × (made_text json (codes "id-1") (http_request removal) ≡ ok env)
    × (env.type ≡ 0x10)
    × (marshal_text json env ≡ ok d)
    × (read_message (text_wire json) d ≡ some (codes "id-1", http_request removal))
text_message_delivered_example =
    text_message_delivered json (codes "id-1") (http_request removal) json_laws refl
      (refl, refl, (refl, (refl, tt), tt), empty)
