-- ===== src/Protocol/Text.antt =====
-- Text mode carries the payloads whose strings are UTF-8 and whose bodies JSON leaves alone.
use how.Base.{
  Bytes, ℕ, ◌≡◌, refl, [], ◌∷◌, List, Bool, true, false, Option, none, some, bytes_eq, ◌==◌, arith,
  ◌||◌,
}
use how.Outcome.{ok}
use how.Protocol.Message.{
  PayloadType, PayloadOf, Payload, request, response, start, chunk, failure, Headers,
  type_http_response_end,
}
use how.Protocol.Codecs.{Json}
use how.Protocol.RawBody.{
  marshal_json, unmarshal_json, null_text, quote, to_raw, from_raw, omit_empty, read_field,
}
use how.Protocol.RawBody.Delivery.{JsonStringLaws}
use how.Protocol.Wire.{
  text_wire, marshal_text, unmarshal_text, encode_text_payload, decode_text_payload,
}
use how.Protocol.Reading.{Lossless}
use how.Protocol.Message.{envelope}

-- A JSON text that is read back as a string or as nothing.
abbrev pub is_special : Bytes → Bool
is_special [] = true
is_special (c ∷ r) = (c == quote) || bytes_eq (c ∷ r) null_text

module _ (js : Json) where
  abbrev Utf8 : Bytes → Type 0
  Utf8 s = js.valid_utf8 s ≡ true

  abbrev Utf8All : List Bytes → Type 0
  Utf8All [] = Unit
  Utf8All (v ∷ vs) = Utf8 v × Utf8All vs

  abbrev Utf8Headers : Headers → Type 0
  Utf8Headers [] = Unit
  Utf8Headers ((k, vs) ∷ hs) = Utf8 k × Utf8All vs × Utf8Headers hs

  -- A body that JSON leaves alone: empty, UTF-8 text that is no JSON, or compact JSON that is neither
  -- a string nor `null`.
  pub data SafeBody : Bytes → Type 0 where
    empty : SafeBody []
    plain : (b : Bytes) → Utf8 b → js.is_valid b ≡ false → SafeBody b
    json : (b : Bytes) → js.is_valid b ≡ true → js.compact b ≡ b → is_special b ≡ false → SafeBody b

  abbrev pub SafePayload : (t : PayloadType) → Payload t → Type 0
  SafePayload request p = Utf8 p.method × Utf8 p.url × Utf8Headers p.headers × SafeBody p.body
  SafePayload response p = Utf8Headers p.headers × SafeBody p.body
  SafePayload start p = Utf8Headers p.headers
  SafePayload chunk p = SafeBody p.chunk_data
  SafePayload failure p = Utf8 p.message

  -- What a `MarshalJSON` may return so that `json.Marshal` copies it as it is.
  abbrev pub Fits : Bytes → Type 0
  Fits text = (js.is_valid text ≡ true) × (js.compact text ≡ text)

  abbrev FitsField : Option Bytes → Type 0
  FitsField none = Unit
  FitsField (some text) = Fits text

  -- A payload whose strings JSON can hold and whose raw fields are copied as they are.
  abbrev pub FitsRaw : (t : PayloadType) → PayloadOf (Option Bytes) t → Type 0
  FitsRaw request p = Utf8 p.method × Utf8 p.url × Utf8Headers p.headers × FitsField p.body
  FitsRaw response p = Utf8Headers p.headers × FitsField p.body
  FitsRaw start p = Utf8Headers p.headers
  FitsRaw chunk p = FitsField p.chunk_data
  FitsRaw failure p = Utf8 p.message

-- Documented behaviour of encoding/json on the structs of the protocol.
pub record JsonLaws (js : Json) : Type 0 where
  pub strings : JsonStringLaws js
  pub null_fits : Fits js null_text
  pub string_fits : (s text : Bytes) → js.marshal_string s ≡ ok text → Fits js text
  pub payload :
      (t : PayloadType) (type : ℕ) (id : Bytes) (raw : PayloadOf (Option Bytes) t)
      → js.valid_utf8 id ≡ true
      → FitsRaw js t raw
      → (b : Bytes) × (d : Bytes) × (js.marshal t raw ≡ ok b)
        × (js.unmarshal t b ≡ ok raw)
        × (js.marshal_envelope (envelope type id b) ≡ ok d)
        × (js.unmarshal_envelope d ≡ ok (envelope type id b))
  pub empty_envelope :
      (type : ℕ) (id : Bytes)
      → js.valid_utf8 id ≡ true
      → (d : Bytes) × (js.marshal_envelope (envelope type id []) ≡ ok d)
        × (js.unmarshal_envelope d ≡ ok (envelope type id []))

module _ (js : Json) (laws : JsonLaws js) where
  body_text :
      (b : Bytes)
      → SafeBody js b
      → (text : Bytes) × (marshal_json js b ≡ ok text)
        × Fits js text
        × (unmarshal_json js text ≡ ok b)
  unfolding marshal_json unmarshal_json bytes_eq
  body_text [] safe = (null_text, refl, laws.null_fits, refl)
  body_text (c ∷ r) (plain b u v) =
      let (q, wrote, read) = laws.strings.quoted (c ∷ r) u in
      (quote ∷ q, ground arith, laws.string_fits (c ∷ r) (quote ∷ q) wrote, ground arith)
  body_text (c ∷ r) (json b v k s) = (c ∷ r, ground arith, (v, k), ground arith)

  field_text :
      (b : Bytes)
      → SafeBody js b
      → (field : Option Bytes) × (omit_empty js b ≡ ok field)
        × FitsField js field
        × (read_field js field ≡ ok b)
  unfolding omit_empty read_field
  field_text [] safe = (none, refl, tt, refl)
  field_text (c ∷ r) safe =
      let (text, wrote, fits, read) = body_text (c ∷ r) safe in (some text, rw wrote, fits, read)

  raw_payload :
      (t : PayloadType) (p : Payload t)
      → SafePayload js t p
      → (raw : PayloadOf (Option Bytes) t) × (to_raw js t p ≡ ok raw)
        × FitsRaw js t raw
        × (from_raw js t raw ≡ ok p)
  unfolding to_raw from_raw omit_empty read_field
  raw_payload request p (m, u, h, safe) =
      let (field, wrote, fits, read) = field_text p.body safe in
      (
        record { method = p.method; url = p.url; headers = p.headers; body = field },
        rw wrote,
        (m, u, h, fits),
        rw read,
      )
  raw_payload response p (h, safe) =
      let (field, wrote, fits, read) = field_text p.body safe in
      (
        record { status_code = p.status_code; headers = p.headers; body = field },
        rw wrote,
        (h, fits),
        rw read,
      )
  raw_payload start p h = (p, refl, h, refl)
  raw_payload chunk p safe =
      let (text, wrote, fits, read) = body_text p.chunk_data safe in
      (record { chunk_data = some text }, rw wrote, fits, rw read)
  raw_payload failure p u = (p, refl, u, refl)

  -- Where encoding/json behaves as documented, text mode carries, under UTF-8 ids, every payload whose
  -- strings are UTF-8 and whose body is empty, UTF-8 text that is no JSON, or compact JSON that is
  -- neither a string nor `null`; it carries `HTTPResponseEnd` too.
  pub text-Lossless : Lossless (text_wire js) (λ id. js.valid_utf8 id ≡ true) (SafePayload js)
  unfolding marshal_text unmarshal_text encode_text_payload decode_text_payload
  text-Lossless = record {
    carries = λ t type id p good safe.
        let (raw, wrote, fits, read) = raw_payload t p safe in
        let (b, d, marshalled, unmarshalled, sent, received) =
          laws.payload t type id raw good fits in
        (b, d, rw wrote marshalled, sent, rw received, rw unmarshalled (rw read));
    carries_end = λ id good.
        let (d, sent, received) = laws.empty_envelope type_http_response_end id good in
        (d, sent, rw received);
  }
