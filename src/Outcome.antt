-- ===== src/Outcome.antt =====
-- Go's `error` values and the pairs `(T, error)` of golang/protocol/message.go,
-- golang/client/client.go and golang/client/handler.go.
use how.Base.{ℕ, Bytes, String, ◌≡◌, ◌⊎◌, inl, inr, refl}

pub data Error : Type 0 where
  -- `ErrReadTimeout`, `ErrTransportClosed` of client.go
  read_timeout transport_closed : Error
  -- an error of a library, of the transport or of a user's handler, by its `Error()` text
  foreign : Bytes → Error
  -- `fmt.Errorf("<label>: %w", err)`
  wrapped : String → Error → Error
  -- the two errors of `Unmarshal` about the first byte
  empty_frame : Error
  wrong_protocol_byte : ℕ → Error
  -- `fmt.Errorf("decode payload (type=0x%02x): %w", env.Type, err)`, and "decode text payload …"
  undecodable_payload undecodable_text_payload : ℕ → Error → Error
  -- `fmt.Errorf("remote error (code=%d): %s", code, message)`
  remote : ℕ → Bytes → Error
  -- `fmt.Errorf("unexpected envelope type 0x%02x", type)`
  unexpected_type : ℕ → Error

pub data Result {ℓ} (A : Type ℓ) : Type ℓ where
  ok : A → Result A
  err : Error → Result A

abbrev pub map_err {ℓ} : {A : Type ℓ} → (Error → Error) → Result A → Result A
map_err f (ok a) = ok a
map_err f (err e) = err (f e)

pub Result-cases {ℓ} :
    {A : Type ℓ} (r : Result A) → ((a : A) × (r ≡ ok a)) ⊎ ((e : Error) × (r ≡ err e))
Result-cases (ok a) = inl (a, refl)
Result-cases (err e) = inr (e, refl)

-- A Go function that returns early on an error goes on with `step` otherwise.
infixl 10 ◌>>=◌
abbrev pub ◌>>=◌ {ℓ κ} : {S : Type ℓ} {T : Type κ} → Result S → (S → Result T) → Result T
err e >>= step = err e
ok value >>= step = step value

-- The value of a chain that succeeded.
pub >>=-eq-ok {ℓ κ} :
    {S : Type ℓ} {T : Type κ} (r : Result S) (step : S → Result T) {t : T}
    → (r >>= step) ≡ ok t
    → (s : S) × (r ≡ ok s) × (step s ≡ ok t)
>>=-eq-ok (err e) step chain = cc
>>=-eq-ok (ok s) step chain = (s, refl, chain)
