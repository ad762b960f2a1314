-- ===== src/Handler/Forwarding.antt =====
-- What `ForwardHandler` (golang/client/handler.go) relays of an upstream response.
use how.Base.{
  ℕ, Bytes, ◌≡◌, refl, sym, subst, List, [], ◌∷◌, ◌++◌, Option, none, some, arith, Bool-cases, inl,
  inr, All,
}
use how.Outcome.{Error, ok}
use how.Protocol.Message.{PayloadType, Payload, Headers, request, start, chunk}
use how.Protocol.Reading.{http_response_start, http_response_chunk, http_response_end}
use how.Protocol.Message.{type_http_response_chunk}
use how.Protocol.Make.{new_http_response_chunk, new_text_http_response_chunk}
use how.Handler.Send.{Channel, Sink, OutFrame, send_response_chunk}
use how.Handler.Writer.{
  ResponseWriter, StreamProgram, new_response_writer, write_header, write, close, run_stream, ret,
  do_close, do_write_header,
}
use how.Handler.HttpWriter.{u16}
use how.Handler.Http.{HttpLib, HttpResponse, BodyReads, last, more}
use how.Handler.Adapters.{pump_body, forward_stream, exchange}
use how.Handler.Dispatch.{dispatch_request, after_stream, streaming}
use how.Handler.Saying.{
  Reliable, Extends, Extends-append, send_response_start-says, send_response_chunk-says,
  send_response_end-says,
}
use how.Handler.StreamSteps.{start_of, chunk_of, chunks_of, stream_of}

-- The reads that returned bytes, the last one included; with what error the body ended plays no part.
abbrev pub relayed : BodyReads → List Bytes
relayed (last [] e) = []
relayed (last (b ∷ bytes) e) = (b ∷ bytes) ∷ []
relayed (more [] reads) = relayed reads
relayed (more (b ∷ bytes) reads) = (b ∷ bytes) ∷ relayed reads

-- The sender rejects nothing.
abbrev pub Accepts : Channel → Type 0
Accepts h = (sink : Sink) (f : OutFrame) → h.sender sink f ≡ none

module _ (h : Channel) {GoodId : Bytes → Type 0} {Good : (t : PayloadType) → Payload t → Type 0}
    (rel : Reliable h GoodId Good) (id : Bytes) (good_id : GoodId id) (accepts : Accepts h) where
  -- A write of bytes that the mode carries is told to have succeeded.
  pub write_succeeds :
      (bytes : Bytes) (w : ResponseWriter) (sink : Sink)
      → w.request_id ≡ id
      → Good chunk (chunk_of bytes)
      → (write h bytes w sink).0 ≡ none
  unfolding write send_response_chunk new_http_response_chunk new_text_http_response_chunk
  write_succeeds bytes w sink same good = elim (Bool-cases h.text_mode) [
    | inl is_text ↦
        let (b, d, made, sent, received, read) =
          (rel.text_ok is_text).carries chunk type_http_response_chunk id (chunk_of bytes) good_id
            good in
        ground (arith, accepts sink (OutFrame.text d))
    | inr is_binary ↦
        let (b, d, made, sent, received, read) =
          (rel.binary_ok is_binary).carries chunk type_http_response_chunk id (chunk_of bytes)
            good_id good in
        ground (arith, accepts sink (OutFrame.binary d))
  ]

  pub write-relays :
      (bytes : Bytes) (w : ResponseWriter) (sink : Sink)
      → w.request_id ≡ id
      → Good chunk (chunk_of bytes)
      → Extends h id sink (write h bytes w sink).1 (http_response_chunk bytes ∷ [])
  unfolding write
  write-relays bytes w sink same good =
      rw same (send_response_chunk-says h rel id good_id bytes sink good)

  pub close-relays :
      (w : ResponseWriter) (sink : Sink)
      → w.request_id ≡ id
      → Extends h id sink (close h w sink) (http_response_end ∷ [])
  unfolding close
  close-relays w sink same = rw same (send_response_end-says h rel id good_id sink)

  -- The loop sent the chunks and the end, and returned no error.
  abbrev Relayed : List Bytes → Sink → Option Error × ResponseWriter × Sink → Type 0
  Relayed bs sink (e, w, sink') =
      (e ≡ none) × Extends h id sink sink' (chunks_of bs ++ http_response_end ∷ [])

  relay-one :
      (bytes : Bytes) (w : ResponseWriter) (sink : Sink) (rest : Option Error → StreamProgram)
      (bs : List Bytes)
      → w.request_id ≡ id
      → Good chunk (chunk_of bytes)
      → Relayed bs (write h bytes w sink).1 (run_stream h (rest none) w (write h bytes w sink).1)
      → Relayed
          (bytes ∷ bs)
          sink
          (run_stream h (rest (write h bytes w sink).0) w (write h bytes w sink).1)
  relay-one bytes w sink rest bs same good (fine, sent) =
      let sink' : Sink = (write h bytes w sink).1 in
      let after : Option Error × ResponseWriter × Sink = run_stream h (rest none) w sink' in
      subst (λ e. Relayed (bytes ∷ bs) sink (run_stream h (rest e) w sink'))
        (sym (write_succeeds bytes w sink same good))
        (
          fine,
          Extends-append h id sink sink' after.2 (http_response_chunk bytes ∷ [])
              (chunks_of bs ++ http_response_end ∷ []) (write-relays bytes w sink same good) sent,
        )

  pump_body-relays :
      (reads : BodyReads) (w : ResponseWriter) (sink : Sink)
      → w.request_id ≡ id
      → All (λ b. Good chunk (chunk_of b)) (relayed reads)
      → Relayed (relayed reads) sink (run_stream h (pump_body reads) w sink)
  unfolding pump_body run_stream
  pump_body-relays (last [] e) w sink same good = (refl, close-relays w sink same)
  pump_body-relays (last (b ∷ bytes) e) w sink same good =
      relay-one (b ∷ bytes) w sink
        (λ e. elim e [ none ↦ do_close (ret none) | some x ↦ ret (some x) ]) [] same good.0
        (refl, close-relays w _ same)
  pump_body-relays (more [] reads) w sink same good = pump_body-relays reads w sink same good
  pump_body-relays (more (b ∷ bytes) reads) w sink same good =
      relay-one (b ∷ bytes) w sink (λ e. elim e [ none ↦ pump_body reads | some x ↦ ret (some x) ])
        (relayed reads) same good.0 (pump_body-relays reads w _ same good.1)

  start-relays :
      (code : ℕ) (headers : Headers) (sink : Sink)
      → Good start (start_of code headers)
      → let w = write_header h code headers (new_response_writer id) sink in
        (w.0.request_id ≡ id)
        × Extends h id sink w.1 (http_response_start (start_of code headers) ∷ [])
  unfolding write_header new_response_writer
  start-relays code headers sink good =
      (refl, send_response_start-says h rel id good_id code headers sink good)

  after_success :
      (r : Option Error × ResponseWriter × Sink) → r.0 ≡ none → after_stream h id r ≡ r.2
  unfolding after_stream
  after_success (none, w, sink) fine = refl
  after_success (some e, w, sink) fine = cc

  forward_program :
      (lib : HttpLib) (target : Bytes) (req : Payload request) (resp : HttpResponse)
      → exchange lib target req ≡ ok resp
      → forward_stream lib target req
        ≡ do_write_header (u16 resp.status_code) resp.header (pump_body resp.body)
  unfolding forward_stream
  forward_program lib target req resp answered = rw (answered, forward_stream)

  -- Where the sender rejects nothing, the upstream answers and the mode carries its response, the forward
  -- handler relays the upstream's status (as 16 bits) and headers, every read that returned bytes as one chunk, in order, and then
  -- `HTTPResponseEnd`. It does so whatever error ended the upstream body: the peer sees the same frames
  -- after a clean end as after an upstream that broke off.
  pub forward_relays :
      (lib : HttpLib) (target : Bytes) (req : Payload request) (sink : Sink) (resp : HttpResponse)
      → exchange lib target req ≡ ok resp
      → Good start (start_of (u16 resp.status_code) resp.header)
      → All (λ b. Good chunk (chunk_of b)) (relayed resp.body)
      → Extends h id sink
          (dispatch_request h
            (streaming (λ q. run_stream h (forward_stream lib target q)))
            id
            req
            sink)
          (stream_of (start_of (u16 resp.status_code) resp.header) (relayed resp.body))
  unfolding dispatch_request run_stream
  forward_relays lib target req sink resp answered good_start good_chunks =
      let code : ℕ = u16 resp.status_code in
      let w : ResponseWriter × Sink =
        write_header h code resp.header (new_response_writer id) sink in
      let (same, started) = start-relays code resp.header sink good_start in
      let (fine, sent) = pump_body-relays resp.body w.0 w.1 same good_chunks in
      let r : Option Error × ResponseWriter × Sink = run_stream h (pump_body resp.body) w.0 w.1 in
      subst
        (λ p.
          Extends h id sink (after_stream h id (run_stream h p (new_response_writer id) sink))
            (stream_of (start_of code resp.header) (relayed resp.body)))
        (sym (forward_program lib target req resp answered))
        (subst
          (λ s. Extends h id sink s (stream_of (start_of code resp.header) (relayed resp.body)))
          (sym (after_success r fine))
          (Extends-append h id sink w.1 r.2 (http_response_start (start_of code resp.header) ∷ [])
            (chunks_of (relayed resp.body) ++ http_response_end ∷ []) started sent))
