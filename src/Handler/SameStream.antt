-- ===== src/Handler/SameStream.antt =====
-- The streaming `http.Handler` adapter of golang/client/handler.go is a `StreamingHandler` that makes
-- certain calls of its `ResponseWriter`.
use how.Base.{ℕ, Bytes, ◌≡◌, refl, [], ◌∷◌, Bool, true, false, Option, none, some, length, inl, inr}
use how.Outcome.{Error, Result-cases}
use how.Protocol.Message.{Headers, Payload, request}
use how.Handler.Send.{Channel, Sink}
use how.Handler.Writer
use how.Handler.Writer.{StreamProgram, ResponseWriter, run_stream, close}
use how.Handler.HttpWriter.{
  HttpProgram, ret, do_header, do_write_header, do_write, do_flush, StreamingResponseWriter,
  run_http, write_header, ensure_header, write, flush, u16, status_ok, new_streaming_writer,
}
use how.Handler.Http.{HttpLib, build_request}
use how.Handler.Adapters.{serve_streaming}
use how.Handler.Service.{as_stream, stream_request}

-- What follows a `Write` that returned this.
abbrev answered_by :
    Bytes → (ℕ → Option Error → HttpProgram) → Headers → Option Error → StreamProgram
answered_by p rest headers e = elim e [
  | none ↦ as_stream (rest (length p) none) headers true
  | some x ↦ as_stream (rest 0 (some x)) headers true
]

abbrev told_by : Bytes → Sink → Option Error → ℕ × Option Error × Sink
told_by p sink e = elim e [ none ↦ (length p, none, sink) | some x ↦ (0, some x, sink) ]

module _ (h : Channel) where
  after_handler : StreamingResponseWriter × Sink → Option Error × ResponseWriter × Sink
  after_handler (s, sink) =
      let (s', sink') = ensure_header h s sink in (none, s'.rw, close h s'.rw sink')

  as_stream_lem :
      (program : HttpProgram) (headers : Headers) (started : Bool) (w : ResponseWriter)
      (sink : Sink)
      → run_stream h (as_stream program headers started) w sink
        ≡ after_handler
            (run_http h program (record { rw = w; hdr = headers; started = started }) sink)
  unfolding as_stream run_stream after_handler run_http ensure_header flush write write_header
  as_stream_lem ret headers true w sink = refl
  as_stream_lem ret headers false w sink = refl
  as_stream_lem (do_header edit rest) headers started w sink =
      as_stream_lem rest (edit headers) started w sink
  as_stream_lem (do_write_header code rest) headers true w sink =
      as_stream_lem rest headers true w sink
  as_stream_lem (do_write_header code rest) headers false w sink =
      let r : ResponseWriter × Sink = Writer.write_header h (u16 code) headers w sink in
      as_stream_lem rest headers true r.0 r.1
  as_stream_lem (do_flush rest) headers true w sink = as_stream_lem rest headers true w sink
  as_stream_lem (do_flush rest) headers false w sink =
      let r : ResponseWriter × Sink = Writer.write_header h (u16 status_ok) headers w sink in
      as_stream_lem rest headers true r.0 r.1
  as_stream_lem (do_write [] rest) headers true w sink =
      as_stream_lem (rest 0 none) headers true w sink
  as_stream_lem (do_write [] rest) headers false w sink =
      let r : ResponseWriter × Sink = Writer.write_header h (u16 status_ok) headers w sink in
      as_stream_lem (rest 0 none) headers true r.0 r.1
  as_stream_lem (do_write (b ∷ p) rest) headers true w sink =
      let r : Option Error × Sink = Writer.write h (b ∷ p) w sink in
      elim r.0
        as (λ e.
          run_stream h (answered_by (b ∷ p) rest headers e) w r.1
          ≡ after_handler (
              let (n, x, k) = told_by (b ∷ p) r.1 e in
              run_http h (rest n x) (record { rw = w; hdr = headers; started = true }) k)) [
                | none ↦ as_stream_lem (rest (length (b ∷ p)) none) headers true w r.1
                | some x ↦ as_stream_lem (rest 0 (some x)) headers true w r.1
              ]
  as_stream_lem (do_write (b ∷ p) rest) headers false w sink =
      let v : ResponseWriter × Sink = Writer.write_header h (u16 status_ok) headers w sink in
      let r : Option Error × Sink = Writer.write h (b ∷ p) v.0 v.1 in
      elim r.0
        as (λ e.
          run_stream h (answered_by (b ∷ p) rest headers e) v.0 r.1
          ≡ after_handler (
              let (n, x, k) = told_by (b ∷ p) r.1 e in
              run_http h (rest n x) (record { rw = v.0; hdr = headers; started = true }) k)) [
                | none ↦ as_stream_lem (rest (length (b ∷ p)) none) headers true v.0 r.1
                | some x ↦ as_stream_lem (rest 0 (some x)) headers true v.0 r.1
              ]

module _ (lib : HttpLib) (h : Channel) (handler : lib.Request → HttpProgram) where
  -- The two descriptions of the streaming adapter agree: run against any `ResponseWriter` and any
  -- sender, the calls that `as_stream` lists do what `ServeHTTPOverWSStream` does with the
  -- `streamingResponseWriter` in between, and both return the same error.
  pub adapter_is_stream :
      (req : Payload request) (w : ResponseWriter) (sink : Sink)
      → run_stream h (stream_request lib handler (build_request lib req.url req)) w sink
        ≡ serve_streaming lib h handler req w sink
  unfolding stream_request serve_streaming run_stream new_streaming_writer after_handler
  adapter_is_stream req w sink = elim (Result-cases (build_request lib req.url req)) [
    | inl (r, built) ↦
        rw (built, stream_request, serve_streaming) (as_stream_lem h (handler r) [] false w sink)
    | inr (e, broken) ↦ rw (broken, stream_request, serve_streaming)
  ]
