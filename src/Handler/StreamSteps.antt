-- ===== src/Handler/StreamSteps.antt =====
-- What each call of `streamingResponseWriter` (golang/client/handler.go) sends, before and after the
-- start of the response.
use how.Base.{ℕ, Bytes, ◌≡◌, ◌≢◌, List, [], ◌∷◌, ◌++◌, true, false, Option, arith, All}
use how.Outcome.{Error}
use how.Protocol.Message.{PayloadType, Payload, Headers, start, chunk}
use how.Protocol.Reading.{Message, http_response_start, http_response_chunk, http_response_end}
use how.Handler.Send.{Channel, Sink}
use how.Handler.Writer
use how.Handler.Writer.{ResponseWriter, new_response_writer}
use how.Handler.HttpWriter.{
  HttpProgram, ret, do_header, do_write_header, do_write, do_flush, StreamingResponseWriter, u16,
  status_ok, write_header, ensure_header, write,
}
use how.Handler.Saying.{
  Reliable, Extends, Extends-nil, send_response_start-says, send_response_chunk-says,
}

abbrev pub start_of : ℕ → Headers → Payload start
start_of status_code headers = record { status_code = status_code; headers = headers }

abbrev pub chunk_of : Bytes → Payload chunk
chunk_of bytes = record { chunk_data = bytes }

-- A streaming response of spec.md, section 8.3: start, chunks, end.
abbrev pub chunks_of : List Bytes → List Message
chunks_of [] = []
chunks_of (b ∷ bs) = http_response_chunk b ∷ chunks_of bs

abbrev pub stream_of : Payload start → List Bytes → List Message
stream_of p chunks = http_response_start p ∷ (chunks_of chunks ++ http_response_end ∷ [])

abbrev pub NonEmpty : Bytes → Type 0
NonEmpty b = b ≢ []

-- What the program may put on the wire can be carried: the headers as they stand when they may be sent,
-- and every chunk that it may write.
module _ (Good : (t : PayloadType) → Payload t → Type 0) where
  abbrev pub Sane : HttpProgram → Headers → Type 0
  Sane ret hdr = Good start (start_of status_ok hdr)
  Sane (do_header edit rest) hdr = Sane rest (edit hdr)
  Sane (do_write_header status_code rest) hdr =
      Good start (start_of (u16 status_code) hdr) × Sane rest hdr
  Sane (do_write p rest) hdr =
      Good start (start_of status_ok hdr)
      × Good chunk (chunk_of p)
      × ((n : ℕ) (e : Option Error) → Sane (rest n e) hdr)
  Sane (do_flush rest) hdr = Good start (start_of status_ok hdr) × Sane rest hdr

module _ (h : Channel) {GoodId : Bytes → Type 0} {Good : (t : PayloadType) → Payload t → Type 0}
    (rel : Reliable h GoodId Good) (id : Bytes) (good_id : GoodId id) where
  -- The writer before its first `WriteHeader`, and after it.
  pub record IsFresh (s : StreamingResponseWriter) : Type 0 where
    pub ids : s.rw.request_id ≡ id
    pub fresh : s.started ≡ false
    pub fresh_rw : s.rw.started ≡ false

  pub record IsStarted (s : StreamingResponseWriter) : Type 0 where
    pub ids : s.rw.request_id ≡ id
    pub is_started : s.started ≡ true

  -- The first `WriteHeader` sends the start.
  pub write_header-starts :
      (code : ℕ) (s : StreamingResponseWriter) (sink : Sink)
      → IsFresh s
      → Good start (start_of (u16 code) s.hdr)
      → IsStarted (write_header h code s sink).0
        × ((write_header h code s sink).0.hdr ≡ s.hdr)
        × Extends h id sink
            (write_header h code s sink).1
            (http_response_start (start_of (u16 code) s.hdr) ∷ [])
  unfolding write_header Writer.write_header
  write_header-starts code s sink f good =
      let (fs, e, said) = send_response_start-says h rel id good_id (u16 code) s.hdr sink good in
      (ground arith, ground arith, (fs, ground arith, said))

  -- Started: further headers change nothing, and a write sends its bytes as a chunk, if there are any.
  pub write_header-started :
      (code : ℕ) (s : StreamingResponseWriter) (sink : Sink)
      → IsStarted s
      → write_header h code s sink ≡ (s, sink)
  unfolding write_header
  write_header-started code s sink st = ground arith

  pub ensure_header-started :
      (s : StreamingResponseWriter) (sink : Sink) → IsStarted s → ensure_header h s sink ≡ (s, sink)
  unfolding ensure_header
  ensure_header-started s sink st = ground arith

  pub ensure_header-fresh :
      (s : StreamingResponseWriter) (sink : Sink)
      → IsFresh s
      → ensure_header h s sink ≡ write_header h status_ok s sink
  unfolding ensure_header
  ensure_header-fresh s sink f = ground arith

  abbrev pub kept : Bytes → List Bytes
  kept [] = []
  kept (b ∷ p) = (b ∷ p) ∷ []

  pub kept-NonEmpty : (p : Bytes) → All NonEmpty (kept p)
  kept-NonEmpty [] = tt
  kept-NonEmpty (b ∷ p) = ((λ e. cc), tt)

  pub write-started :
      (p : Bytes) (s : StreamingResponseWriter) (sink : Sink)
      → IsStarted s
      → Good chunk (chunk_of p)
      → ((write h p s sink).2 ≡ s) × Extends h id sink (write h p s sink).3 (chunks_of (kept p))
  unfolding write Writer.write ensure_header
  write-started [] s sink st good =
      let (fs, e, said) = Extends-nil h id sink in (ground arith, (fs, ground arith, said))
  write-started (b ∷ p) s sink st good =
      let (fs, e, said) = send_response_chunk-says h rel id good_id (b ∷ p) sink good in
      (ground arith, (fs, ground arith, said))

  -- Fresh: a write is the implicit `WriteHeader(200)` and then the write.
  pub write-fresh :
      (p : Bytes) (s : StreamingResponseWriter) (sink : Sink)
      → IsFresh s
      → let w = write_header h status_ok s sink in write h p s sink ≡ write h p w.0 w.1
  unfolding write ensure_header write_header
  write-fresh p s sink f = ground arith

  pub ensure_header_twice :
      (s : StreamingResponseWriter) (sink : Sink)
      → IsFresh s
      → let w = write_header h status_ok s sink in ensure_header h s sink ≡ ensure_header h w.0 w.1
  unfolding ensure_header write_header
  ensure_header_twice s sink f = ground arith
