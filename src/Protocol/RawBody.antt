-- ===== src/Protocol/RawBody.antt =====
-- golang/protocol/message.go: `RawBody`, which stands in JSON as raw JSON or as a string.
pub mod Delivery
use how.Base.{ℕ, Bytes, codes, bytes_eq, ◌==◌, [], ◌∷◌, if◌then◌else◌, Option, none, some}
use how.Outcome.{Result, ok, ◌>>=◌}
use how.Protocol.Message.{PayloadType, request, response, start, chunk, failure, PayloadOf, Payload}
use how.Protocol.Codecs.{Json}

abbrev pub null_text : Bytes
null_text = codes "null"

abbrev pub quote : ℕ
quote = 0x22

module _ (js : Json) where
  -- `len(r) == 0` is the first clause.
  unfoldable pub marshal_json : Bytes → Result Bytes
  marshal_json [] = ok null_text
  marshal_json (c ∷ r) = if js.is_valid (c ∷ r) then ok (c ∷ r) else js.marshal_string (c ∷ r)

  -- The result is what `*r` is set to; nil is empty.
  unfoldable pub unmarshal_json : Bytes → Result Bytes
  unmarshal_json [] = ok []
  unmarshal_json (c ∷ r) =
      if bytes_eq (c ∷ r) null_text
      then ok []
      else if c == quote
      then js.unmarshal_string (c ∷ r)
      else ok (c ∷ r)

  -- A field tagged `omitempty` is left out where it is empty.
  unfoldable pub omit_empty : Bytes → Result (Option Bytes)
  omit_empty [] = ok none
  omit_empty (c ∷ r) = do text ← marshal_json (c ∷ r); ok (some text)

  -- An absent field keeps its zero value.
  unfoldable pub read_field : Option Bytes → Result Bytes
  read_field none = ok []
  read_field (some text) = unmarshal_json text

  -- The `RawBody` fields of a payload, as the struct tags have them encoded.
  unfoldable pub to_raw : (t : PayloadType) → Payload t → Result (PayloadOf (Option Bytes) t)
  unfolding omit_empty
  to_raw request p = do
    b ← omit_empty p.body
    ok (record { method = p.method; url = p.url; headers = p.headers; body = b })
  to_raw response p = do
    b ← omit_empty p.body
    ok (record { status_code = p.status_code; headers = p.headers; body = b })
  to_raw start p = ok p
  to_raw chunk p = do text ← marshal_json p.chunk_data; ok (record { chunk_data = some text })
  to_raw failure p = ok p

  unfoldable pub from_raw : (t : PayloadType) → PayloadOf (Option Bytes) t → Result (Payload t)
  unfolding read_field
  from_raw request p = do
    b ← read_field p.body
    ok (record { method = p.method; url = p.url; headers = p.headers; body = b })
  from_raw response p = do
    b ← read_field p.body
    ok (record { status_code = p.status_code; headers = p.headers; body = b })
  from_raw start p = ok p
  from_raw chunk p = do b ← read_field p.chunk_data; ok (record { chunk_data = b })
  from_raw failure p = ok p
