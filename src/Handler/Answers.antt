-- ===== src/Handler/Answers.antt =====
-- What `dispatchRequest` (golang/client/client.go) answers for a plain `Handler`, and for a user's
-- `StreamingHandler` that succeeds or fails.
use how.Base.{
  ℕ, zero, suc, ◌+◌, ◌≤◌, Bytes, ◌≡◌, ◌⊎◌, inl, inr, refl, List, [], ◌∷◌, ◌++◌, Bool, true, false,
  Option, none, some, arith, Bool-cases, if◌then◌else◌,
}
use how.Outcome.{Error, Result, ok, err}
use how.Protocol.Message.{
  PayloadType, Payload, Headers, request, response, start, chunk, failure, err_internal,
}
use how.Protocol.Reading.{
  Message, http_response, http_response_start, http_response_chunk, http_response_end, error,
}
use how.Handler.Send.{Channel, Sink}
use how.Handler.Writer.{
  ResponseWriter, new_response_writer, StreamProgram, ret, do_write_header, do_write, do_close,
  write_header, write, close, run_stream,
}
use how.Handler.Dispatch.{dispatch_request, after_stream, plain, streaming, plain_text}
use how.Handler.Saying.{
  Reliable, Extends, Extends-nil, Extends-append, send_response-says, send_response_start-says,
  send_response_chunk-says, send_error_envelope-says, send_response_end-says,
}
use how.Handler.StreamSteps.{start_of, chunk_of}

-- The 502 of a handler that failed before its response started.
abbrev pub gateway_failure : Channel → Error → Payload response
gateway_failure h e = record { status_code = 502; headers = plain_text; body = h.error_text e }

-- The answer that a plain handler's result calls for.
abbrev pub AnswerTo : Channel → Result (Payload response) → Payload response → Type 0
AnswerTo h r resp = (r ≡ ok resp) ⊎ ((e : Error) × (r ≡ err e) × (resp ≡ gateway_failure h e))

-- How many responses these messages start.
abbrev pub starts : List Message → ℕ
starts [] = 0
starts (http_response_start p ∷ ms) = suc (starts ms)
starts (_ ∷ ms) = starts ms

-- The last word on a streaming handler: nothing if it succeeded; a 502 response if it failed and
-- no start was sent, an `Error` message otherwise.
abbrev pub last_word : Channel → Option Error → ℕ → List Message
last_word h none n = []
last_word h (some e) zero = http_response (gateway_failure h e) ∷ []
last_word h (some e) (suc n) = error (record { code = err_internal; message = h.error_text e }) ∷ []

starts-append : (ms ns : List Message) → starts (ms ++ ns) ≡ starts ms + starts ns
starts-append [] ns = omega arith
starts-append (http_response_start p ∷ ms) ns = omega (arith, starts-append ms ns)
starts-append (_ ∷ ms) ns = starts-append ms ns

-- Everything that the program may send can be carried.
module _ (Good : (t : PayloadType) → Payload t → Type 0) where
  abbrev pub SaneStream : StreamProgram → Type 0
  SaneStream (ret e) = Unit
  SaneStream (do_write_header code headers rest) =
      Good start (start_of code headers) × SaneStream rest
  SaneStream (do_write bytes rest) =
      Good chunk (chunk_of bytes) × ((e : Option Error) → SaneStream (rest e))
  SaneStream (do_close rest) = SaneStream rest

-- What the calls of the program send, one by one, by what each call finds: a start for the first
-- `WriteHeader`, a chunk for each `Write`, an end for each `Close`.
module _ (h : Channel) where
  unfoldable pub spoken : StreamProgram → ResponseWriter → Sink → List Message
  spoken (ret e) rw sink = []
  spoken (do_write_header code headers rest) rw sink =
      let (rw', sink') = write_header h code headers rw sink in
      (if rw.started then [] else http_response_start (start_of code headers) ∷ [])
      ++ spoken rest rw' sink'
  spoken (do_write bytes rest) rw sink =
      let (e, sink') = write h bytes rw sink in
      http_response_chunk bytes ∷ [] ++ spoken (rest e) rw sink'
  spoken (do_close rest) rw sink = http_response_end ∷ [] ++ spoken rest rw (close h rw sink)

module _ (h : Channel) {GoodId : Bytes → Type 0} {Good : (t : PayloadType) → Payload t → Type 0}
    (rel : Reliable h GoodId Good) (id : Bytes) (good_id : GoodId id) where
  -- A plain handler is answered by exactly one message, the `HTTPResponse` that its result calls for:
  -- the handler's own response, or a 502 with the text of its error, if the mode carries it.
  pub plain_answers_once :
      (serve : Payload request → Result (Payload response)) (req : Payload request)
      (resp : Payload response) (sink : Sink)
      → AnswerTo h (serve req) resp
      → Good response resp
      → Extends h id sink (dispatch_request h (plain serve) id req sink) (http_response resp ∷ [])
  unfolding dispatch_request
  plain_answers_once serve req resp sink answer good =
      let (fs, e, said) = send_response-says h rel id good_id resp sink good in
      (fs, ground arith, said)

  -- A run of a program sent messages with as many starts as the writer's flag tells.
  abbrev flag : Bool → ℕ
  flag true = 1
  flag false = 0

  abbrev Ran : Bool → Sink → List Message → Option Error × ResponseWriter × Sink → Type 0
  Ran started sink ms (e, rw, sink') =
      (rw.request_id ≡ id)
      × (starts ms + flag started ≡ flag rw.started)
      × Extends h id sink sink' ms

  -- One call of the writer, then the rest of the program.
  Ran-after :
      (a b : Bool) (sink sink' : Sink) (ms ns : List Message)
      (r : Option Error × ResponseWriter × Sink)
      → starts ms + flag a ≡ flag b
      → Extends h id sink sink' ms
      → Ran b sink' ns r
      → Ran a sink (ms ++ ns) r
  Ran-after a b sink sink' ms ns (e, rw, c) n first (same, k, second) = (
    same,
    omega (arith, starts-append ms ns),
    Extends-append h id sink sink' c ms ns first second,
  )

  write_header-Ran :
      (code : ℕ) (headers : Headers) (u : ResponseWriter) (sink : Sink)
      → u.request_id ≡ id
      → Good start (start_of code headers)
      → let w = write_header h code headers u sink in
        let ms = if u.started then [] else http_response_start (start_of code headers) ∷ [] in
        (w.0.request_id ≡ id)
        × (starts ms + flag u.started ≡ flag w.0.started)
        × Extends h id sink w.1 ms
  unfolding write_header
  write_header-Ran code headers u sink same good = elim (Bool-cases u.started) [
    | inl old ↦
        let (fs, e, said) = Extends-nil h id sink in
        (ground arith, ground arith, (fs, ground arith, rw old said))
    | inr new ↦
        let (fs, e, said) = send_response_start-says h rel id good_id code headers sink good in
        (ground arith, ground arith, (fs, ground arith, rw new said))
  ]

  write-says :
      (bytes : Bytes) (w : ResponseWriter) (sink : Sink)
      → w.request_id ≡ id
      → Good chunk (chunk_of bytes)
      → Extends h id sink (write h bytes w sink).1 (http_response_chunk bytes ∷ [])
  unfolding write
  write-says bytes w sink same good =
      rw same (send_response_chunk-says h rel id good_id bytes sink good)

  close-says :
      (w : ResponseWriter) (sink : Sink)
      → w.request_id ≡ id
      → Extends h id sink (close h w sink) (http_response_end ∷ [])
  unfolding close
  close-says w sink same = rw same (send_response_end-says h rel id good_id sink)

  run_stream-Ran :
      (program : StreamProgram) (rw : ResponseWriter) (sink : Sink)
      → rw.request_id ≡ id
      → SaneStream Good program
      → Ran rw.started sink (spoken h program rw sink) (run_stream h program rw sink)
  unfolding run_stream spoken
  run_stream-Ran (ret e) rw sink same sane = (same, omega arith, Extends-nil h id sink)
  run_stream-Ran (do_write_header code headers rest) rw sink same sane =
      let w : ResponseWriter × Sink = write_header h code headers rw sink in
      let (still, n, sent) = write_header-Ran code headers rw sink same sane.0 in
      Ran-after rw.started w.0.started sink w.1 _ (spoken h rest w.0 w.1)
        (run_stream h rest w.0 w.1) n sent (run_stream-Ran rest w.0 w.1 still sane.1)
  run_stream-Ran (do_write bytes rest) rw sink same sane =
      let w : Option Error × Sink = write h bytes rw sink in
      Ran-after rw.started rw.started sink w.1 (http_response_chunk bytes ∷ [])
        (spoken h (rest w.0) rw w.1) (run_stream h (rest w.0) rw w.1) (omega arith)
        (write-says bytes rw sink same sane.0) (run_stream-Ran (rest w.0) rw w.1 same (sane.1 w.0))
  run_stream-Ran (do_close rest) rw sink same sane =
      Ran-after rw.started rw.started sink (close h rw sink) (http_response_end ∷ [])
        (spoken h rest rw (close h rw sink)) (run_stream h rest rw (close h rw sink)) (omega arith)
        (close-says rw sink same) (run_stream-Ran rest rw (close h rw sink) same sane)

  last_word-says :
      (e : Option Error) (w : ResponseWriter) (sink : Sink) (n : ℕ)
      → n ≡ flag w.started
      → ((x : Error) → Good response (gateway_failure h x))
      → ((x : Error) → Good failure (record { code = err_internal; message = h.error_text x }))
      → Extends h id sink (after_stream h id (e, w, sink)) (last_word h e n)
  unfolding after_stream
  last_word-says none w sink n k good_response good_failure = Extends-nil h id sink
  last_word-says (some e) w sink n k good_response good_failure = elim (Bool-cases w.started) [
    | inl old ↦
        let one : n ≡ 1 = ground arith in
        let (fs, x, said) =
          send_error_envelope-says h rel id good_id err_internal (h.error_text e) sink
            (good_failure e) in
        rw (one, old) (fs, x, said)
    | inr new ↦
        let no : n ≡ 0 = ground arith in
        let (fs, x, said) =
          send_response-says h rel id good_id (gateway_failure h e) sink (good_response e) in
        rw (no, new) (fs, x, said)
  ]

  -- A user's streaming handler causes these calls of the `Sendable`, whatever that answers: a start for
  -- its first `WriteHeader` only, a chunk for each `Write` and an end for each `Close`, in their order. If
  -- it succeeds, nothing follows. If it fails, a 502 `HTTPResponse` with the text of its error follows where
  -- no start was among them, and an `Error` message with code 1006 and that text where one was. The mode
  -- is taken to carry what the handler writes and these two answers.
  pub stream_handler_messages :
      (serve : Payload request → StreamProgram) (req : Payload request) (sink : Sink)
      → SaneStream Good (serve req)
      → ((x : Error) → Good response (gateway_failure h x))
      → ((x : Error) → Good failure (record { code = err_internal; message = h.error_text x }))
      → let ms = spoken h (serve req) (new_response_writer id) sink in
        (starts ms ≤ 1)
        × Extends h id sink
            (dispatch_request h (streaming (λ q. run_stream h (serve q))) id req sink)
            (ms
              ++ last_word h (run_stream h (serve req) (new_response_writer id) sink).0 (starts ms))
  unfolding dispatch_request new_response_writer
  stream_handler_messages serve req sink sane good_response good_failure =
      let w : ResponseWriter = record { request_id = id; started = false } in
      let r : Option Error × ResponseWriter × Sink = run_stream h (serve req) w sink in
      let ms : List Message = spoken h (serve req) w sink in
      let (same, n, sent) = run_stream-Ran (serve req) w sink refl sane in
      (
        ground arith,
        Extends-append h id sink r.2 (after_stream h id r) ms (last_word h r.0 (starts ms)) sent
            (last_word-says r.0 r.1 r.2 (starts ms) (omega arith) good_response good_failure),
      )
