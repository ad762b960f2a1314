-- ===== src/Protocol/Reading.antt =====
-- The messages of spec.md, section 6, as an independent reading of frames: the type byte selects the
-- message, and the payload is decoded at the type that the registry gives it.
use how.Base.{ℕ, Bytes, ◌≡◌, [], Option, none, some, ◌==◌, if◌then◌else◌, arith, inl, inr}
use how.Outcome.{Result, ok, err, Result-cases}
use how.Protocol.Message.{
  Envelope, envelope, PayloadType, Payload, request, response, start, chunk, failure,
  type_http_request, type_http_response, type_http_response_start, type_http_response_chunk,
  type_http_response_end, type_error,
}
use how.Protocol.Wire.{Wire}

pub data Message : Type 0 where
  http_request : Payload request → Message
  http_response : Payload response → Message
  http_response_start : Payload start → Message
  http_response_chunk : Bytes → Message
  http_response_end : Message
  error : Payload failure → Message

reading {ℓ} : {A : Type ℓ} → (A → Message) → Bytes → Result A → Option (Bytes × Message)
reading f id (err e) = none
reading f id (ok p) = some (id, f p)

module _ (w : Wire) where
  unfoldable pub read_envelope : Envelope → Option (Bytes × Message)
  unfolding reading
  read_envelope env =
      if env.type == type_http_request
      then reading http_request env.request_id (w.decode request env)
      else if env.type == type_http_response
      then reading http_response env.request_id (w.decode response env)
      else if env.type == type_http_response_start
      then reading http_response_start env.request_id (w.decode start env)
      else if env.type == type_http_response_chunk
      then reading (λ p. http_response_chunk p.chunk_data) env.request_id (w.decode chunk env)
      else if env.type == type_http_response_end
      then some (env.request_id, http_response_end)
      else if env.type == type_error
      then reading error env.request_id (w.decode failure env)
      else none

  read_result : Result Envelope → Option (Bytes × Message)
  read_result (err e) = none
  read_result (ok env) = read_envelope env

  unfoldable pub read_message : Bytes → Option (Bytes × Message)
  unfolding read_result
  read_message bytes = read_result (w.unmarshal bytes)

-- A frame that reads as a message has an envelope with the message's id.
pub envelope_of :
    (w : Wire) (d id : Bytes) (m : Message)
    → read_message w d ≡ some (id, m)
    → (env : Envelope) × (w.unmarshal d ≡ ok env)
      × (read_envelope w env ≡ some (id, m))
      × (env.request_id ≡ id)
unfolding read_message read_envelope
envelope_of w d id m reads = elim (Result-cases (w.unmarshal d)) [
  | inl (env, arrived) ↦ (env, arrived, ground arith, ground arith)
  | inr (e, broken) ↦ absurd (ground arith)
]

-- What it takes for a mode to carry payloads unchanged: a payload that is `Good`, under an id that is
-- `GoodId`, is encoded, put in an envelope, marshalled, and read back.
pub record Lossless (w : Wire) (GoodId : Bytes → Type 0)
    (Good : (t : PayloadType) → Payload t → Type 0) : Type 0 where
  pub carries :
      (t : PayloadType) (type : ℕ) (id : Bytes) (p : Payload t)
      → GoodId id
      → Good t p
      → (b : Bytes) × (d : Bytes) × (w.encode t p ≡ ok b)
        × (w.marshal (envelope type id b) ≡ ok d)
        × (w.unmarshal d ≡ ok (envelope type id b))
        × (w.decode t (envelope type id b) ≡ ok p)
  pub carries_end :
      (id : Bytes)
      → GoodId id
      → (d : Bytes) × (w.marshal (envelope type_http_response_end id []) ≡ ok d)
        × (w.unmarshal d ≡ ok (envelope type_http_response_end id []))
