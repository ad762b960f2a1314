-- ===== src/Protocol/RawBody/Delivery.antt =====
-- What becomes of a JSON string that goes through `RawBody.MarshalJSON` and `RawBody.UnmarshalJSON`.
use how.Base.{Bytes, ◌<◌, ◌≡◌, ◌≢◌, ◌∷◌, true, length, bytes_eq, arith}
use how.Outcome.{ok, ◌>>=◌}
use how.Protocol.Codecs.{Json}
use how.Protocol.RawBody.{marshal_json, unmarshal_json, quote}

-- Documented behaviour of encoding/json on strings.
pub record JsonStringLaws (js : Json) : Type 0 where
  pub quoted :
      (s : Bytes)
      → js.valid_utf8 s ≡ true
      → (r : Bytes) × (js.marshal_string s ≡ ok (quote ∷ r))
        × (js.unmarshal_string (quote ∷ r) ≡ ok s)
  -- the quotes are no part of the value
  pub unquoted_shorter :
      (r s : Bytes)
      → js.valid_utf8 (quote ∷ r) ≡ true
      → js.unmarshal_string (quote ∷ r) ≡ ok s
      → length s < length (quote ∷ r)

module _ (js : Json) (laws : JsonStringLaws js) where
  -- `UnmarshalJSON` does not give back, from what `MarshalJSON` returns, any UTF-8 body that is a JSON
  -- string literal: its quotes are lost.
  pub quoted_body_altered :
      (r : Bytes)
      → js.valid_utf8 (quote ∷ r) ≡ true
      → js.is_valid (quote ∷ r) ≡ true
      → (marshal_json js (quote ∷ r) >>= unmarshal_json js) ≢ ok (quote ∷ r)
  unfolding marshal_json unmarshal_json bytes_eq
  quoted_body_altered r u v e = ground (arith, laws.unquoted_shorter r (quote ∷ r) u)
