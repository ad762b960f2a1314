-- ===== src/Tests/Wires.antt =====
-- Concrete libraries for golang/protocol/message.go, and their laws.
use how.Base.{
  ℕ, suc, ◌<◌, Bytes, ◌≡◌, refl, ap, [], ◌∷◌, ◌++◌, Bool, true, false, ◌||◌, ◌==◌, Option, none,
  some, length, arith, bytes_eq,
}
use how.Outcome.{foreign, Result, ok, err}
use how.Protocol.Message.{Envelope}
use how.Protocol.Codecs.{MsgPack, MsgPackLaws, Json}
use how.Protocol.RawBody.{null_text, quote}
use how.Protocol.RawBody.Delivery.{JsonStringLaws}
use how.Protocol.Text.{JsonLaws}
use how.Protocol.Message.{envelope}
use how.Tests.Codec.{put, get, get-put, read, write, read-write}

unfoldable pub write_envelope : Envelope → Bytes
write_envelope e = e.type ∷ put e.request_id e.payload

unfoldable pub read_envelope : Bytes → Result Envelope
read_envelope [] = err (foreign [])
read_envelope (type ∷ l) = let (id, payload) = get l in ok (envelope type id payload)

pub read-write_envelope : (e : Envelope) → read_envelope (write_envelope e) ≡ ok e
unfolding read_envelope write_envelope
read-write_envelope e = ground (arith, get-put e.request_id e.payload)

abbrev pub same : Bytes → Bytes
same b = b

abbrev pub msgpack : MsgPack
msgpack = record {
  marshal_envelope = λ e. ok (write_envelope e);
  marshal_nil = ok [];
  unmarshal_envelope = read_envelope;
  marshal = λ t p. ok (write same same t p);
  unmarshal = λ t d. ok (read same same t d);
}

pub msgpack_laws : MsgPackLaws msgpack
msgpack_laws = record {
  payload = λ t type id p.
      let b : Bytes = write same same t p in
      (
        b,
        write_envelope (envelope type id b),
        refl,
        ap ok (read-write same same (λ b'. refl) t p),
        refl,
        read-write_envelope (envelope type id b),
      );
  empty_envelope = λ type id.
      (write_envelope (envelope type id []), refl, read-write_envelope (envelope type id []));
}

abbrev pub field : Option Bytes → Bytes
field none = []
field (some b) = 0 ∷ b

abbrev pub unfield : Bytes → Option Bytes
unfield [] = none
unfield (c ∷ b) = some b

unfield-field : (o : Option Bytes) → unfield (field o) ≡ o
unfield-field none = refl
unfield-field (some b) = refl

drop_last : ℕ → Bytes → Bytes
drop_last c [] = []
drop_last c (d ∷ r) = c ∷ drop_last d r

init : Bytes → Bytes
unfolding drop_last
init [] = []
init (c ∷ r) = drop_last c r

init-append : (s : Bytes) (q : ℕ) → init (s ++ q ∷ []) ≡ s
unfolding init
init-append [] q = refl
init-append (c ∷ []) q = refl
init-append (c ∷ d ∷ s) q = ap (◌∷◌ c) (init-append (d ∷ s) q)

length-init : (s : Bytes) → length (init s) < suc (length s)
unfolding init
length-init [] = omega arith
length-init (c ∷ []) = omega arith
length-init (c ∷ d ∷ s) = omega (arith, length-init (d ∷ s))

-- A text is valid JSON here where it begins with a quote or is `null`.
unfoldable pub is_json : Bytes → Bool
unfolding bytes_eq
is_json [] = false
is_json (c ∷ r) = (c == quote) || bytes_eq (c ∷ r) null_text

unfoldable pub unquote : Bytes → Result Bytes
unfolding init
unquote [] = err (foreign [])
unquote (c ∷ r) = ok (init r)

abbrev pub json : Json
json = record {
  marshal_envelope = λ e. ok (write_envelope e);
  unmarshal_envelope = read_envelope;
  marshal_nil = ok null_text;
  marshal = λ t p. ok (write field unfield t p);
  unmarshal = λ t d. ok (read field unfield t d);
  is_valid = is_json;
  marshal_string = λ s. ok (quote ∷ (s ++ quote ∷ []));
  unmarshal_string = unquote;
  valid_utf8 = λ s. true;
  compact = λ s. s;
}

pub json_strings : JsonStringLaws json
unfolding unquote
json_strings = record {
  quoted = λ s u. (s ++ quote ∷ [], refl, ap ok (init-append s quote));
  unquoted_shorter = λ r s u e. ground (arith, length-init r);
}

string_is_json : (s text : Bytes) → ok (quote ∷ (s ++ quote ∷ [])) ≡ ok text → is_json text ≡ true
unfolding is_json
string_is_json s [] e = absurd (ground arith)
string_is_json s (c ∷ r) e = ground arith

pub json_laws : JsonLaws json
unfolding is_json
json_laws = record {
  strings = json_strings;
  null_fits = (refl, refl);
  string_fits = λ s text e. (string_is_json s text e, refl);
  payload = λ t type id raw u fits. (
    write field unfield t raw,
    write_envelope (envelope type id (write field unfield t raw)),
    refl,
    ap ok (read-write field unfield unfield-field t raw),
    refl,
    read-write_envelope (envelope type id (write field unfield t raw)),
  );
  empty_envelope = λ type id u.
      (write_envelope (envelope type id []), refl, read-write_envelope (envelope type id []));
}
