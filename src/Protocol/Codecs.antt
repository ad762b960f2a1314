-- ===== src/Protocol/Codecs.antt =====
-- The serialization libraries that golang/protocol/message.go calls: vmihailenco/msgpack and
-- encoding/json. Their code is not in the repository, so they are parameters, with the documented
-- behaviour that the theorems rely on as named laws.
use how.Base.{ℕ, Bytes, ◌≡◌, [], Bool, Option}
use how.Outcome.{Result, ok}
use how.Protocol.Message.{Envelope, envelope, PayloadType, PayloadOf, Payload}

-- `msgpack.Marshal` and `msgpack.Unmarshal` at the types that the program uses.
pub record MsgPack : Type 0 where
  pub marshal_envelope : Envelope → Result Bytes
  -- of a nil pointer
  pub marshal_nil : Result Bytes
  pub unmarshal_envelope : Bytes → Result Envelope
  pub marshal : (t : PayloadType) → Payload t → Result Bytes
  pub unmarshal : (t : PayloadType) → Bytes → Result (Payload t)

-- `json.Marshal`, `json.Unmarshal`, `json.Valid`. A `RawBody` field reaches the library as the
-- text that `RawBody.MarshalJSON` returned, `none` where `omitempty` drops the field.
pub record Json : Type 0 where
  pub marshal_envelope : Envelope → Result Bytes
  -- of a nil pointer
  pub marshal_nil : Result Bytes
  pub unmarshal_envelope : Bytes → Result Envelope
  pub marshal : (t : PayloadType) → PayloadOf (Option Bytes) t → Result Bytes
  pub unmarshal : (t : PayloadType) → Bytes → Result (PayloadOf (Option Bytes) t)
  pub is_valid : Bytes → Bool
  pub marshal_string : Bytes → Result Bytes
  pub unmarshal_string : Bytes → Result Bytes
  -- `utf8.Valid`: what a JSON string can hold
  pub valid_utf8 : Bytes → Bool
  -- the compaction and escaping that `json.Marshal` applies to what a `MarshalJSON` returned
  pub compact : Bytes → Bytes

-- What was marshalled is read back: a payload, an envelope around a marshalled payload, and one without
-- payload. A `msgpack.RawMessage` is copied as it is, so nothing is said of an envelope around other bytes.
pub record MsgPackLaws (mp : MsgPack) : Type 0 where
  pub payload :
      (t : PayloadType) (type : ℕ) (id : Bytes) (p : Payload t)
      → (b : Bytes) × (d : Bytes) × (mp.marshal t p ≡ ok b)
        × (mp.unmarshal t b ≡ ok p)
        × (mp.marshal_envelope (envelope type id b) ≡ ok d)
        × (mp.unmarshal_envelope d ≡ ok (envelope type id b))
  pub empty_envelope :
      (type : ℕ) (id : Bytes)
      → (d : Bytes) × (mp.marshal_envelope (envelope type id []) ≡ ok d)
        × (mp.unmarshal_envelope d ≡ ok (envelope type id []))
