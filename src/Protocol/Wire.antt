-- ===== src/Protocol/Wire.antt =====
-- golang/protocol/message.go: `Marshal`, `Unmarshal`, `DecodePayload`, `encodePayload` and their
-- text-mode twins, and the two modes behind one interface.
use how.Base.{Bytes, ◌==◌, if◌then◌else◌, [], ◌∷◌}
use how.Outcome.{
  Result, ok, err, ◌>>=◌, map_err, wrapped, empty_frame, wrong_protocol_byte, undecodable_payload,
  undecodable_text_payload,
}
use how.Protocol.Message.{Envelope, PayloadType, Payload, protocol_byte}
use how.Protocol.Codecs.{MsgPack, Json}
use how.Protocol.RawBody.{to_raw, from_raw}

module _ (mp : MsgPack) where
  unfoldable pub marshal : Envelope → Result Bytes
  marshal env = do packed ← mp.marshal_envelope env; ok (protocol_byte ∷ packed)

  -- `Marshal` of a nil `*Envelope`
  unfoldable pub marshal_nil : Result Bytes
  marshal_nil = do packed ← mp.marshal_nil; ok (protocol_byte ∷ packed)

  unfoldable pub unmarshal : Bytes → Result Envelope
  unmarshal [] = err empty_frame
  unmarshal (b ∷ packed) =
      if b == protocol_byte
      then map_err (wrapped "unmarshal envelope") (mp.unmarshal_envelope packed)
      else err (wrong_protocol_byte b)

  unfoldable pub encode_payload : (t : PayloadType) → Payload t → Result Bytes
  encode_payload t v = mp.marshal t v

  unfoldable pub decode_payload : (t : PayloadType) → Envelope → Result (Payload t)
  decode_payload t env = map_err (undecodable_payload env.type) (mp.unmarshal t env.payload)

module _ (js : Json) where
  unfoldable pub marshal_text : Envelope → Result Bytes
  marshal_text env = js.marshal_envelope env

  unfoldable pub unmarshal_text : Bytes → Result Envelope
  unmarshal_text text = map_err (wrapped "unmarshal text envelope") (js.unmarshal_envelope text)

  unfoldable pub encode_text_payload : (t : PayloadType) → Payload t → Result Bytes
  encode_text_payload t v = do raw ← to_raw js t v; js.marshal t raw

  unfoldable pub decode_text_payload : (t : PayloadType) → Envelope → Result (Payload t)
  decode_text_payload t env =
      map_err (undecodable_text_payload env.type)
        (do raw ← js.unmarshal t env.payload; from_raw js t raw)

-- What golang/client needs of the messages of a mode.
pub record Wire : Type 0 where
  pub marshal : Envelope → Result Bytes
  pub unmarshal : Bytes → Result Envelope
  pub encode : (t : PayloadType) → Payload t → Result Bytes
  pub decode : (t : PayloadType) → Envelope → Result (Payload t)

abbrev pub binary_wire : MsgPack → Wire
binary_wire mp = record {
  marshal = marshal mp;
  unmarshal = unmarshal mp;
  encode = encode_payload mp;
  decode = decode_payload mp;
}

abbrev pub text_wire : Json → Wire
text_wire js = record {
  marshal = marshal_text js;
  unmarshal = unmarshal_text js;
  encode = encode_text_payload js;
  decode = decode_text_payload js;
}
