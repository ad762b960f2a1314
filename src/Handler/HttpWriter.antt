-- ===== src/Handler/HttpWriter.antt =====
-- golang/client/handler.go: `streamingResponseWriter`, which makes an `http.ResponseWriter` of a
-- `ResponseWriter`, and the user's `http.Handler` that is handed one.
use how.Base.{ℕ, ◌%◌, Bytes, [], ◌∷◌, length, Bool, true, false, Option, none, some, if◌then◌else◌}
use how.Outcome.{Error}
use how.Protocol.Message.{Headers}
use how.Handler.Send.{Channel, Sink}
use how.Handler.Writer
use how.Handler.Writer.{ResponseWriter}

-- `uint16(statusCode)`, of a status code that is not negative.
abbrev pub u16 : ℕ → ℕ
u16 n = n % 65536

abbrev pub status_ok : ℕ
status_ok = 200

-- What an `http.Handler` does to its writer: it edits the map of `Header()`, and calls `WriteHeader`,
-- `Write` (which returns a count and an error) and `Flush`.
pub data HttpProgram : Type 0 where
  ret : HttpProgram
  do_header : (Headers → Headers) → HttpProgram → HttpProgram
  do_write_header : ℕ → HttpProgram → HttpProgram
  do_write : Bytes → (ℕ → Option Error → HttpProgram) → HttpProgram
  do_flush : HttpProgram → HttpProgram

-- `hdr` is nil until `Header()` makes it: nil and empty are read alike.
pub record StreamingResponseWriter : Type 0 where
  pub rw : ResponseWriter
  pub hdr : Headers
  pub started : Bool

unfoldable pub new_streaming_writer : ResponseWriter → StreamingResponseWriter
new_streaming_writer rw = record { rw = rw; hdr = []; started = false }

module _ (h : Channel) where
  -- The header map is copied before it is sent.
  unfoldable pub write_header : ℕ → StreamingResponseWriter → Sink → StreamingResponseWriter × Sink
  write_header status_code s sink =
      if s.started
      then (s, sink)
      else (let (rw, sink') = Writer.write_header h (u16 status_code) s.hdr s.rw sink in
          (record s { rw = rw; started = true }, sink'))

  -- `if !s.started { s.WriteHeader(http.StatusOK) }`
  unfoldable pub ensure_header : StreamingResponseWriter → Sink → StreamingResponseWriter × Sink
  ensure_header s sink = if s.started then (s, sink) else write_header status_ok s sink

  write_chunk : Bytes → StreamingResponseWriter → Sink → ℕ × Option Error × Sink
  write_chunk p s sink =
      let (e, sink') = Writer.write h p s.rw sink in
      elim e [ none ↦ (length p, none, sink') | some x ↦ (0, some x, sink') ]

  write_bytes : Bytes → StreamingResponseWriter → Sink → ℕ × Option Error × Sink
  unfolding write_chunk
  write_bytes [] s sink = (0, none, sink)
  write_bytes (b ∷ p) s sink = write_chunk (b ∷ p) s sink

  -- The count, the error, and the writer after the call.
  unfoldable pub write :
      Bytes → StreamingResponseWriter → Sink → ℕ × Option Error × StreamingResponseWriter × Sink
  unfolding write_bytes ensure_header
  write p s sink =
      let (s', sink') = ensure_header s sink in
      let (n, e, sink'') = write_bytes p s' sink' in (n, e, s', sink'')

  unfoldable pub flush : StreamingResponseWriter → Sink → StreamingResponseWriter × Sink
  unfolding ensure_header
  flush s sink = ensure_header s sink

  -- The user's code runs against the writer.
  unfoldable pub run_http :
      HttpProgram → StreamingResponseWriter → Sink → StreamingResponseWriter × Sink
  run_http ret s sink = (s, sink)
  run_http (do_header edit rest) s sink = run_http rest (record s { hdr = edit s.hdr }) sink
  run_http (do_write_header status_code rest) s sink =
      let (s', sink') = write_header status_code s sink in run_http rest s' sink'
  run_http (do_write p rest) s sink =
      let (n, e, s', sink') = write p s sink in run_http (rest n e) s' sink'
  run_http (do_flush rest) s sink = let (s', sink') = flush s sink in run_http rest s' sink'
