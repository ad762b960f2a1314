-- ===== src/EndToEnd/Promised.antt =====
-- The status and the bytes of the calls of an `http.Handler`, as httptest records them, beside what
-- golang/client/handler.go makes of them.
use how.Base.{
  ℕ, Bytes, ◌≡◌, refl, sym, ap, ◌∙◌, List, [], ◌∷◌, ◌++◌, ◌≤◌, ◌<◌, length, none, append_assoc,
  append-nil,
}
use how.Protocol.Message.{Headers}
use how.Handler.HttpWriter.{
  HttpProgram, ret, do_header, do_write_header, do_write, do_flush, u16, status_ok,
}
use how.Handler.Http.{HttpLib}
use how.Handler.Exact.{body_of, head_of}
use how.Caller.Pump.{PipeOp}
use how.Caller.Answered.{read_pipe}
use how.EndToEnd.{writes}

-- The code of the first `WriteHeader`, a 1xx too; 200 where a write, a flush or the return comes first.
abbrev pub first_code : HttpProgram → ℕ
first_code ret = status_ok
first_code (do_header edit rest) = first_code rest
first_code (do_write_header code _) = code
first_code (do_write _ _) = status_ok
first_code (do_flush _) = status_ok

-- The bytes of all writes, each told that it succeeded, whatever the status.
abbrev pub all_written : HttpProgram → Bytes
all_written ret = []
all_written (do_header edit rest) = all_written rest
all_written (do_write_header code rest) = all_written rest
all_written (do_write p rest) = p ++ all_written (rest (length p) none)
all_written (do_flush rest) = all_written rest

abbrev pub concat : List Bytes → Bytes
concat [] = []
concat (b ∷ bs) = b ++ concat bs

-- What httptest documents of `ResponseRecorder`: it records the status, which must have three digits,
-- and the bytes; a reader of the recorded body meets no error.
pub record RecorderLaws (lib : HttpLib) : Type 0 where
  pub status :
      (p : HttpProgram)
      → 100 ≤ first_code p
      → first_code p < 1000
      → (lib.record_response p).status_code ≡ first_code p
  pub content :
      (p : HttpProgram) → lib.read_all (lib.record_response p).body ≡ (all_written p, none)

pub head_of-status :
    (p : HttpProgram) (headers : Headers) → (head_of p headers).status_code ≡ u16 (first_code p)
head_of-status ret headers = refl
head_of-status (do_header edit rest) headers = head_of-status rest (edit headers)
head_of-status (do_write_header code _) headers = refl
head_of-status (do_write _ _) headers = refl
head_of-status (do_flush _) headers = refl

pub read_pipe-writes :
    (bs : List Bytes) (acc : Bytes) (ops : List PipeOp)
    → read_pipe acc (writes bs ++ ops) ≡ read_pipe (acc ++ concat bs) ops
unfolding read_pipe
read_pipe-writes [] acc ops = ap (λ a. read_pipe a ops) (sym (append-nil acc))
read_pipe-writes (b ∷ bs) acc ops =
    read_pipe-writes bs (acc ++ b) ops ∙ ap (λ a. read_pipe a ops) (append_assoc acc b (concat bs))

pub concat-body_of : (p : HttpProgram) → concat (body_of p) ≡ all_written p
concat-body_of ret = refl
concat-body_of (do_header edit rest) = concat-body_of rest
concat-body_of (do_write_header code rest) = concat-body_of rest
concat-body_of (do_write [] rest) = concat-body_of (rest 0 none)
concat-body_of (do_write (b ∷ p) rest) =
    ap (λ l. (b ∷ p) ++ l) (concat-body_of (rest (length (b ∷ p)) none))
concat-body_of (do_flush rest) = concat-body_of rest
