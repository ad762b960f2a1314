-- ===== src/Handler/Exact.antt =====
-- What the streaming `http.Handler` adapter of golang/client/handler.go sends over a sender that rejects
-- nothing, told from the handler's calls alone. It differs from the server of net/http in three
-- ways: no `Content-Type` is sniffed from the first write, a 1xx is taken as the final status, and the
-- writes under a 204 or 304 are sent.
use how.Base.{ℕ, Bytes, ◌≡◌, refl, sym, subst, List, [], ◌∷◌, ◌++◌, length, Option, none, arith}
use how.Outcome.{Error, ok}
use how.Protocol.Message.{PayloadType, Payload, Headers, request, start, chunk}
use how.Protocol.Reading.{http_response_start, http_response_end}
use how.Handler.Send.{Channel, Sink}
use how.Handler.Writer
use how.Handler.Writer.{new_response_writer}
use how.Handler.HttpWriter.{
  HttpProgram, ret, do_header, do_write_header, do_write, do_flush, StreamingResponseWriter, u16,
  status_ok, run_http, write_header, write, flush, new_streaming_writer,
}
use how.Handler.Http.{HttpLib, build_request}
use how.Handler.Adapters.{serve_streaming}
use how.Handler.Dispatch.{dispatch_request, streaming}
use how.Handler.Saying.{Reliable, Extends, Extends-nil, Extends-append}
use how.Handler.StreamSteps.{
  start_of, chunk_of, chunks_of, stream_of, Sane, IsFresh, IsStarted, write_header-starts,
  write_header-started, ensure_header-started, ensure_header-fresh, write-started, write-fresh,
  ensure_header_twice,
}
use how.Handler.Streams.{chunks_of-append, finish, close-says, dispatch_streaming}
use how.Handler.Forwarding.{Accepts, write_succeeds}

-- A write of no bytes is no piece of the body.
abbrev pub piece : Bytes → List Bytes
piece [] = []
piece (b ∷ p) = (b ∷ p) ∷ []

-- The pieces of the body that a handler writes, each write being told that it succeeded.
abbrev pub body_of : HttpProgram → List Bytes
body_of ret = []
body_of (do_header edit rest) = body_of rest
body_of (do_write_header code rest) = body_of rest
body_of (do_write p rest) = piece p ++ body_of (rest (length p) none)
body_of (do_flush rest) = body_of rest

-- The code of the first `WriteHeader`, which is 200 where a write, a flush or the return comes first, with
-- the header map as it stands at that moment.
abbrev pub head_of : HttpProgram → Headers → Payload start
head_of ret headers = start_of status_ok headers
head_of (do_header edit rest) headers = head_of rest (edit headers)
head_of (do_write_header code _) headers = start_of (u16 code) headers
head_of (do_write _ _) headers = start_of status_ok headers
head_of (do_flush _) headers = start_of status_ok headers

module _ (h : Channel) {GoodId : Bytes → Type 0} {Good : (t : PayloadType) → Payload t → Type 0}
    (rel : Reliable h GoodId Good) (id : Bytes) (good_id : GoodId id) (accepts : Accepts h) where
  write-started-result :
      (p : Bytes) (s : StreamingResponseWriter) (sink : Sink)
      → IsStarted h rel id good_id s
      → Good chunk (chunk_of p)
      → ((write h p s sink).0 ≡ length p) × ((write h p s sink).1 ≡ none)
  unfolding write
  write-started-result [] s sink st good = (refl, refl)
  write-started-result (b ∷ p) s sink st good =
      let fine = write_succeeds h rel id good_id accepts (b ∷ p) s.rw sink st.ids good in
      (
        ground (arith, fine, ensure_header-started h rel id good_id s sink st),
        ground (arith, fine, ensure_header-started h rel id good_id s sink st),
      )

  piece-says :
      (p : Bytes) (s : StreamingResponseWriter) (sink : Sink)
      → IsStarted h rel id good_id s
      → Good chunk (chunk_of p)
      → Extends h id sink (write h p s sink).3 (chunks_of (piece p))
  piece-says [] s sink st good = (write-started h rel id good_id [] s sink st good).1
  piece-says (b ∷ p) s sink st good = (write-started h rel id good_id (b ∷ p) s sink st good).1

  -- A run from a started writer sent exactly these chunks and left the writer started.
  abbrev SentBody : List Bytes → Sink → StreamingResponseWriter × Sink → Type 0
  SentBody bs sink (s, sink') =
      IsStarted h rel id good_id s × Extends h id sink sink' (chunks_of bs)

  SentBody-append :
      (a b : Sink) (xs ys : List Bytes) (r : StreamingResponseWriter × Sink)
      → Extends h id a b (chunks_of xs)
      → SentBody ys b r
      → SentBody (xs ++ ys) a r
  SentBody-append a b xs ys (s, c) first (st, second) = (
    st,
    rw chunks_of-append (Extends-append h id a b c (chunks_of xs) (chunks_of ys) first second),
  )

  run-body :
      (program : HttpProgram) (s : StreamingResponseWriter) (sink : Sink)
      → IsStarted h rel id good_id s
      → Sane Good program s.hdr
      → SentBody (body_of program) sink (run_http h program s sink)
  unfolding run_http flush
  run-body ret s sink st sane = (st, Extends-nil h id sink)
  run-body (do_header edit rest) s sink st sane =
      run-body rest (record s { hdr = edit s.hdr }) sink
        (record { ids = st.ids; is_started = st.is_started }) sane
  run-body (do_write_header code rest) s sink st sane =
      subst (λ r. SentBody (body_of rest) sink (run_http h rest r.0 r.1))
        (sym (write_header-started h rel id good_id code s sink st))
        (run-body rest s sink st sane.1)
  run-body (do_write p rest) s sink st sane =
      let w : ℕ × Option Error × StreamingResponseWriter × Sink = write h p s sink in
      let next : HttpProgram = rest (length p) none in
      let same = (write-started h rel id good_id p s sink st sane.1).0 in
      let (count, fine) = write-started-result p s sink st sane.1 in
      let after : SentBody (body_of next) w.3 (run_http h next w.2 w.3) =
        run-body (rest (length p) none) w.2 w.3 (subst (IsStarted h rel id good_id) (sym same) st)
          (subst (λ x. Sane Good next x.hdr) (sym same) (sane.2 (length p) none)) in
      SentBody-append sink w.3 (piece p) (body_of next) (run_http h (rest w.0 w.1) w.2 w.3)
        (piece-says p s sink st sane.1)
        (subst (λ n. SentBody (body_of next) w.3 (run_http h (rest n w.1) w.2 w.3)) (sym count)
          (subst (λ e. SentBody (body_of next) w.3 (run_http h (rest (length p) e) w.2 w.3))
            (sym fine) after))
  run-body (do_flush rest) s sink st sane =
      subst (λ r. SentBody (body_of rest) sink (run_http h rest r.0 r.1))
        (sym (ensure_header-started h rel id good_id s sink st)) (run-body rest s sink st sane.1)

  -- A call that starts the response with the head `p`, and the rest of the run with the end.
  start-exact :
      (code : ℕ) (s : StreamingResponseWriter) (sink : Sink) (rest : HttpProgram)
      → IsFresh h rel id good_id s
      → Good start (start_of (u16 code) s.hdr)
      → Sane Good rest s.hdr
      → let w = write_header h code s sink in
        Extends h id sink
          (finish h rel id good_id (run_http h rest w.0 w.1))
          (stream_of (start_of (u16 code) s.hdr) (body_of rest))
  start-exact code s sink rest f good sane =
      let w : StreamingResponseWriter × Sink = write_header h code s sink in
      let (st, same, started) = write_header-starts h rel id good_id code s sink f good in
      let r : StreamingResponseWriter × Sink = run_http h rest w.0 w.1 in
      let (st', sent) = run-body rest w.0 w.1 st (subst (Sane Good rest) (sym same) sane) in
      let last : Sink = finish h rel id good_id r in
      Extends-append h id sink w.1 last (http_response_start (start_of (u16 code) s.hdr) ∷ [])
        (chunks_of (body_of rest) ++ http_response_end ∷ []) started
        (Extends-append h id w.1 r.1 last (chunks_of (body_of rest)) (http_response_end ∷ []) sent
          (close-says h rel id good_id r.0 r.1 st'))

  run-exact :
      (program : HttpProgram) (s : StreamingResponseWriter) (sink : Sink)
      → IsFresh h rel id good_id s
      → Sane Good program s.hdr
      → Extends h id sink
          (finish h rel id good_id (run_http h program s sink))
          (stream_of (head_of program s.hdr) (body_of program))
  unfolding run_http flush finish
  run-exact ret s sink f sane =
      subst
        (λ r.
          Extends h id sink (Writer.close h r.0.rw r.1) (stream_of (start_of status_ok s.hdr) []))
        (sym (ensure_header_twice h rel id good_id s sink f))
        (start-exact status_ok s sink ret f sane sane)
  run-exact (do_header edit rest) s sink f sane =
      run-exact rest (record s { hdr = edit s.hdr }) sink
        (record { ids = f.ids; fresh = f.fresh; fresh_rw = f.fresh_rw }) sane
  run-exact (do_write_header code rest) s sink f sane = start-exact code s sink rest f sane.0 sane.1
  run-exact (do_write p rest) s sink f sane =
      subst
        (λ w.
          Extends h id sink (finish h rel id good_id (run_http h (rest w.0 w.1) w.2 w.3))
            (stream_of (start_of status_ok s.hdr) (body_of (do_write p rest))))
        (sym (write-fresh h rel id good_id p s sink f))
        (start-exact status_ok s sink (do_write p rest) f sane.0 sane)
  run-exact (do_flush rest) s sink f sane =
      subst
        (λ r.
          Extends h id sink (finish h rel id good_id (run_http h rest r.0 r.1))
            (stream_of (start_of status_ok s.hdr) (body_of rest)))
        (sym (ensure_header-fresh h rel id good_id s sink f))
        (start-exact status_ok s sink rest f sane.0 sane.1)

  -- Over a sender that rejects nothing and a mode that carries what the handler writes, and for a request
  -- that `http.NewRequestWithContext` accepts, the streaming adapter sends, under the request's id, exactly
  -- this: the code of the handler's first `WriteHeader` (as 16 bits, a 1xx too; 200 where it writes,
  -- flushes or returns first) with the header map as it stands then and nothing added, each non-empty
  -- write as one chunk, in order and whatever the code, and the end.
  pub streaming_adapter_exact :
      (lib : HttpLib) (handler : lib.Request → HttpProgram) (req : Payload request) (sink : Sink)
      {r : lib.Request}
      → build_request lib req.url req ≡ ok r
      → Sane Good (handler r) []
      → Extends h id sink
          (dispatch_request h (streaming (serve_streaming lib h handler)) id req sink)
          (stream_of (head_of (handler r) []) (body_of (handler r)))
  unfolding new_streaming_writer new_response_writer
  streaming_adapter_exact lib handler req sink {r} built sane =
      subst (λ s. Extends h id sink s (stream_of (head_of (handler r) []) (body_of (handler r))))
        (sym (dispatch_streaming h rel id good_id lib handler req sink built))
        (run-exact (handler r) (new_streaming_writer (new_response_writer id)) sink
          (record { ids = refl; fresh = refl; fresh_rw = refl }) sane)
