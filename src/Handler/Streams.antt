-- ===== src/Handler/Streams.antt =====
-- The streaming `http.Handler` adapter of golang/client/handler.go hands its `Sendable` a well-formed
-- stream, whatever the user's handler does and whatever the `Sendable` answers.
use how.Base.{
  ℕ, Bytes, ◌≡◌, refl, sym, ap, subst, List, [], ◌∷◌, ◌++◌, Option, arith, All, All-append,
}
use how.Outcome.{Error, ok}
use how.Protocol.Message.{PayloadType, Payload, request, start}
use how.Protocol.Reading.{http_response_start, http_response_chunk, http_response_end}
use how.Handler.Send.{Channel, Sink}
use how.Handler.Writer
use how.Handler.Writer.{ResponseWriter, new_response_writer}
use how.Handler.HttpWriter.{
  HttpProgram, ret, do_header, do_write_header, do_write, do_flush, StreamingResponseWriter, u16,
  status_ok, run_http, write_header, ensure_header, write, flush, new_streaming_writer,
}
use how.Handler.Http.{HttpLib, build_request}
use how.Handler.Adapters.{serve_streaming}
use how.Handler.Dispatch.{dispatch_request, streaming}
use how.Handler.Saying.{Reliable, Extends, Extends-nil, Extends-append, send_response_end-says}
use how.Handler.StreamSteps.{
  start_of, chunks_of, stream_of, NonEmpty, Sane, IsFresh, IsStarted, kept, kept-NonEmpty,
  write_header-starts, write_header-started, ensure_header-started, ensure_header-fresh,
  write-started, write-fresh, ensure_header_twice,
}

pub chunks_of-append : (xs ys : List Bytes) → chunks_of (xs ++ ys) ≡ chunks_of xs ++ chunks_of ys
chunks_of-append [] ys = refl
chunks_of-append (x ∷ xs) ys = ap (◌∷◌ (http_response_chunk x)) (chunks_of-append xs ys)

-- A whole stream was sent under an id: a start, chunks none of which is empty, and an end.
abbrev pub SentStream : Channel → Bytes → Sink → Sink → Type 0
SentStream h id sink sink' =
    (p : Payload start) × (chunks : List Bytes) × All NonEmpty chunks
    × Extends h id sink sink' (stream_of p chunks)

module _ (h : Channel) {GoodId : Bytes → Type 0} {Good : (t : PayloadType) → Payload t → Type 0}
    (rel : Reliable h GoodId Good) (id : Bytes) (good_id : GoodId id) where
  -- A run sent these chunks, none of them empty, and left the writer started.
  abbrev SentChunks : Sink → StreamingResponseWriter × Sink → Type 0
  SentChunks sink (s, sink') =
      IsStarted h rel id good_id s
      × ((chunks : List Bytes) × All NonEmpty chunks × Extends h id sink sink' (chunks_of chunks))

  SentChunks-append :
      (a b : Sink) (xs : List Bytes) (r : StreamingResponseWriter × Sink)
      → All NonEmpty xs
      → Extends h id a b (chunks_of xs)
      → SentChunks b r
      → SentChunks a r
  SentChunks-append a b xs (s, c) nx first (st, (ys, ny, second)) = (
    st,
    (
      xs ++ ys,
      All-append NonEmpty xs ys nx ny,
      rw chunks_of-append (Extends-append h id a b c (chunks_of xs) (chunks_of ys) first second),
    ),
  )

  run-started :
      (program : HttpProgram) (s : StreamingResponseWriter) (sink : Sink)
      → IsStarted h rel id good_id s
      → Sane Good program s.hdr
      → SentChunks sink (run_http h program s sink)
  unfolding run_http flush
  run-started ret s sink st sane = (st, ([], tt, Extends-nil h id sink))
  run-started (do_header edit rest) s sink st sane =
      run-started rest (record s { hdr = edit s.hdr }) sink
        (record { ids = st.ids; is_started = st.is_started }) sane
  run-started (do_write_header code rest) s sink st sane =
      subst (λ r. SentChunks sink (run_http h rest r.0 r.1))
        (sym (write_header-started h rel id good_id code s sink st))
        (run-started rest s sink st sane.1)
  run-started (do_write p rest) s sink st sane =
      let w : ℕ × Option Error × StreamingResponseWriter × Sink = write h p s sink in
      let (same, sent) = write-started h rel id good_id p s sink st sane.1 in
      SentChunks-append sink w.3 (kept h rel id good_id p) (run_http h (rest w.0 w.1) w.2 w.3)
        (kept-NonEmpty h rel id good_id p) sent
        (run-started (rest w.0 w.1) w.2 w.3 (subst (IsStarted h rel id good_id) (sym same) st)
          (subst (λ x. Sane Good (rest w.0 w.1) x.hdr) (sym same) (sane.2 w.0 w.1)))
  run-started (do_flush rest) s sink st sane =
      subst (λ r. SentChunks sink (run_http h rest r.0 r.1))
        (sym (ensure_header-started h rel id good_id s sink st)) (run-started rest s sink st sane.1)

  -- What the adapter does after the user's handler returned.
  unfoldable pub finish : StreamingResponseWriter × Sink → Sink
  finish (s, sink) = let (s', sink') = ensure_header h s sink in Writer.close h s'.rw sink'

  pub close-says :
      (s : StreamingResponseWriter) (sink : Sink)
      → IsStarted h rel id good_id s
      → Extends h id sink (finish (s, sink)) (http_response_end ∷ [])
  unfolding finish Writer.close
  close-says s sink st =
      let (fs, e, said) = send_response_end-says h rel id good_id sink in
      (fs, ground (arith, ensure_header-started h rel id good_id s sink st), said)

  -- From a start, the rest of the run and the end.
  complete :
      (a b : Sink) (p : Payload start) (r : StreamingResponseWriter × Sink)
      → Extends h id a b (http_response_start p ∷ [])
      → SentChunks b r
      → SentStream h id a (finish r)
  complete a b p (s, c) started (st, (chunks, ne, sent)) = (
    p,
    chunks,
    ne,
    Extends-append h id a b (finish (s, c)) (http_response_start p ∷ [])
        (chunks_of chunks ++ http_response_end ∷ []) started
        (Extends-append h id b c (finish (s, c)) (chunks_of chunks) (http_response_end ∷ []) sent
          (close-says s c st)),
  )

  -- A call that starts the response, and what follows it.
  start_then :
      (code : ℕ) (s : StreamingResponseWriter) (sink : Sink) (rest : HttpProgram)
      → IsFresh h rel id good_id s
      → Good start (start_of (u16 code) s.hdr)
      → Sane Good rest s.hdr
      → let w = write_header h code s sink in
        SentStream h id sink (finish (run_http h rest w.0 w.1))
  start_then code s sink rest f good sane =
      let w : StreamingResponseWriter × Sink = write_header h code s sink in
      let (st, same, started) = write_header-starts h rel id good_id code s sink f good in
      complete sink w.1 (start_of (u16 code) s.hdr) (run_http h rest w.0 w.1) started
        (run-started rest w.0 w.1 st (subst (Sane Good rest) (sym same) sane))

  run-fresh :
      (program : HttpProgram) (s : StreamingResponseWriter) (sink : Sink)
      → IsFresh h rel id good_id s
      → Sane Good program s.hdr
      → SentStream h id sink (finish (run_http h program s sink))
  unfolding run_http flush finish
  run-fresh ret s sink f sane =
      subst (λ r. SentStream h id sink (Writer.close h r.0.rw r.1))
        (sym (ensure_header_twice h rel id good_id s sink f))
        (start_then status_ok s sink ret f sane sane)
  run-fresh (do_header edit rest) s sink f sane =
      run-fresh rest (record s { hdr = edit s.hdr }) sink
        (record { ids = f.ids; fresh = f.fresh; fresh_rw = f.fresh_rw }) sane
  run-fresh (do_write_header code rest) s sink f sane = start_then code s sink rest f sane.0 sane.1
  run-fresh (do_write p rest) s sink f sane =
      subst (λ w. SentStream h id sink (finish (run_http h (rest w.0 w.1) w.2 w.3)))
        (sym (write-fresh h rel id good_id p s sink f))
        (start_then status_ok s sink (do_write p rest) f sane.0 sane)
  run-fresh (do_flush rest) s sink f sane =
      subst (λ r. SentStream h id sink (finish (run_http h rest r.0 r.1)))
        (sym (ensure_header-fresh h rel id good_id s sink f))
        (start_then status_ok s sink rest f sane.0 sane.1)

  pub dispatch_streaming :
      (lib : HttpLib) (handler : lib.Request → HttpProgram) (req : Payload request) (sink : Sink)
      {r : lib.Request}
      → build_request lib req.url req ≡ ok r
      → dispatch_request h (streaming (serve_streaming lib h handler)) id req sink
        ≡ finish (run_http h (handler r) (new_streaming_writer (new_response_writer id)) sink)
  unfolding dispatch_request serve_streaming finish new_streaming_writer
  dispatch_streaming lib handler req sink built = rw (built, serve_streaming)

  -- A request that `http.NewRequestWithContext` accepts, dispatched to the streaming adapter: the
  -- frames with which the `Sendable` is called are exactly one `HTTPResponseStart`, then chunks none of
  -- which is empty, then exactly one `HTTPResponseEnd`, all under the request's id. The calls that the
  -- `Sendable` answers by an error are counted too, so where it rejects frames the stream is that of the
  -- calls and not of what the peer gets. This holds for every `http.Handler`, as long as the mode carries
  -- what the handler writes.
  pub streaming_adapter_conforms :
      (lib : HttpLib) (handler : lib.Request → HttpProgram) (req : Payload request) (sink : Sink)
      {r : lib.Request}
      → build_request lib req.url req ≡ ok r
      → Sane Good (handler r) []
      → SentStream h id sink
          (dispatch_request h (streaming (serve_streaming lib h handler)) id req sink)
  unfolding new_streaming_writer new_response_writer
  streaming_adapter_conforms lib handler req sink {r} built sane =
      subst (SentStream h id sink) (sym (dispatch_streaming lib handler req sink built)) (
        run-fresh (handler r) (new_streaming_writer (new_response_writer id)) sink
          (record { ids = refl; fresh = refl; fresh_rw = refl }) sane)
