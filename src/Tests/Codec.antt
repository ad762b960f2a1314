-- ===== src/Tests/Codec.antt =====
-- A small self-delimiting code for the payloads of golang/protocol/message.go, over any code for bodies.
use how.Base.{ℕ, zero, suc, Bytes, ◌≡◌, refl, ap, List, [], ◌∷◌, ◌++◌, length, arith}
use how.Protocol.Message.{Headers, PayloadType, PayloadOf, request, response, start, chunk, failure}

take : ℕ → Bytes → Bytes
take zero l = []
take (suc n) [] = []
take (suc n) (x ∷ l) = x ∷ take n l

drop : ℕ → Bytes → Bytes
drop zero l = l
drop (suc n) [] = []
drop (suc n) (x ∷ l) = drop n l

take-append : (s l : Bytes) → take (length s) (s ++ l) ≡ s
unfolding take
take-append [] l = refl
take-append (x ∷ s) l = ap (◌∷◌ x) (take-append s l)

drop-append : (s l : Bytes) → drop (length s) (s ++ l) ≡ l
unfolding drop
drop-append [] l = refl
drop-append (x ∷ s) l = drop-append s l

-- A string and what follows it.
unfoldable pub put : Bytes → Bytes → Bytes
put s rest = length s ∷ (s ++ rest)

unfoldable pub get : Bytes → Bytes × Bytes
unfolding take drop
get [] = ([], [])
get (n ∷ l) = (take n l, drop n l)

pub get-put : (s rest : Bytes) → get (put s rest) ≡ (s, rest)
unfolding get put
get-put s rest = λ i. (take-append s rest i, drop-append s rest i)

put_all : List Bytes → Bytes → Bytes
put_all [] rest = rest
put_all (v ∷ vs) rest = put v (put_all vs rest)

get_all : ℕ → Bytes → List Bytes × Bytes
get_all zero l = ([], l)
get_all (suc n) l = let (v, l₁) = get l in let (vs, l₂) = get_all n l₁ in (v ∷ vs, l₂)

get_all-put_all :
    (vs : List Bytes) (rest : Bytes) → get_all (length vs) (put_all vs rest) ≡ (vs, rest)
unfolding get_all put_all
get_all-put_all [] rest = refl
get_all-put_all (v ∷ vs) rest = ground (arith, get-put v (put_all vs rest), get_all-put_all vs rest)

put_headers : Headers → Bytes → Bytes
put_headers [] rest = rest
put_headers ((k, vs) ∷ hs) rest = put k (length vs ∷ put_all vs (put_headers hs rest))

get_values : Bytes → List Bytes × Bytes
unfolding get_all
get_values [] = ([], [])
get_values (n ∷ l) = get_all n l

get_headers : ℕ → Bytes → Headers × Bytes
get_headers zero l = ([], l)
get_headers (suc n) l =
    let (k, l₁) = get l in
    let (vs, l₂) = get_values l₁ in let (hs, l₃) = get_headers n l₂ in ((k, vs) ∷ hs, l₃)

get_headers-put_headers :
    (hs : Headers) (rest : Bytes) → get_headers (length hs) (put_headers hs rest) ≡ (hs, rest)
unfolding get_headers put_headers get_values
get_headers-put_headers [] rest = refl
get_headers-put_headers ((k, vs) ∷ hs) rest = ground (
  arith,
  get-put k (length vs ∷ put_all vs (put_headers hs rest)),
  get_all-put_all vs (put_headers hs rest),
  get_headers-put_headers hs rest,
)

-- Headers with their number in front.
unfoldable pub put_map : Headers → Bytes → Bytes
unfolding put_headers put_all put
put_map hs rest = length hs ∷ put_headers hs rest

unfoldable pub get_map : Bytes → Headers × Bytes
unfolding get_headers get_values get
get_map [] = ([], [])
get_map (n ∷ l) = get_headers n l

pub get_map-put_map : (hs : Headers) (rest : Bytes) → get_map (put_map hs rest) ≡ (hs, rest)
unfolding get_map put_map
get_map-put_map hs rest = get_headers-put_headers hs rest

module _ {B : Type 0} (to_bytes : B → Bytes) (of_bytes : Bytes → B) where
  unfoldable pub write : (t : PayloadType) → PayloadOf B t → Bytes
  write request p = put p.method (put p.url (put_map p.headers (to_bytes p.body)))
  write response p = p.status_code ∷ put_map p.headers (to_bytes p.body)
  write start p = p.status_code ∷ put_map p.headers []
  write chunk p = to_bytes p.chunk_data
  write failure p = p.code ∷ p.message

  head_of : Bytes → ℕ
  head_of [] = 0
  head_of (n ∷ l) = n

  tail_of : Bytes → Bytes
  tail_of [] = []
  tail_of (n ∷ l) = l

  unfoldable pub read : (t : PayloadType) → Bytes → PayloadOf B t
  unfolding head_of tail_of
  read request l =
      let (method, l₁) = get l in
      let (url, l₂) = get l₁ in
      let (headers, l₃) = get_map l₂ in
      record { method = method; url = url; headers = headers; body = of_bytes l₃ }
  read response l =
      let (headers, l₁) = get_map (tail_of l) in
      record { status_code = head_of l; headers = headers; body = of_bytes l₁ }
  read start l = record { status_code = head_of l; headers = (get_map (tail_of l)).0 }
  read chunk l = record { chunk_data = of_bytes l }
  read failure l = record { code = head_of l; message = tail_of l }

  pub read-write :
      ((b : B) → of_bytes (to_bytes b) ≡ b)
      → (t : PayloadType) (p : PayloadOf B t) → read t (write t p) ≡ p
  unfolding read write
  read-write code request p = ground (
    arith,
    get-put p.method (put p.url (put_map p.headers (to_bytes p.body))),
    get-put p.url (put_map p.headers (to_bytes p.body)),
    get_map-put_map p.headers (to_bytes p.body),
    code p.body,
  )
  read-write code response p =
      ground (arith, get_map-put_map p.headers (to_bytes p.body), code p.body)
  read-write code start p = ground (arith, get_map-put_map p.headers [])
  read-write code chunk p = ground (arith, code p.chunk_data)
  read-write code failure p = refl
