-- ===== src/Caller/Body.antt =====
-- The body that a streaming response yields (golang/client/client.go, `pumpBinary`, `pumpText`), by the
-- messages that arrive.
use how.Base.{Bytes, ◌≡◌, refl, sym, subst, List, [], ◌∷◌, ◌++◌, none, some, arith}
use how.Outcome.{remote}
use how.Protocol.Message.{Envelope}
use how.Protocol.Wire.{Wire}
use how.Protocol.Reading.{
  Message, http_request, http_response, http_response_start, http_response_chunk, http_response_end,
  error, read_envelope,
}
use how.Caller.{Mode}
use how.Caller.Pump.{
  PipeOp, wrote, closed, Pipe, Pumped, goes_on, returned, pump_frame, pump_frames, next_frame,
}

-- The envelopes read as these messages, under some id.
abbrev pub Reads : Wire → Bytes → List Envelope → List Message → Type 0
Reads w id [] [] = Unit
Reads w id (e ∷ es) (m ∷ ms) = (read_envelope w e ≡ some (id, m)) × Reads w id es ms
Reads w id _ _ = ⊥

-- What the messages tell the reader of the body: each chunk's bytes; a clean end at
-- `HTTPResponseEnd`; the remote error at `Error`. Nothing after the end is told, and messages of other
-- types tell nothing.
abbrev pub told : List PipeOp → List Message → Pumped
told ops [] = goes_on ops
told ops (http_response_chunk b ∷ ms) = told (ops ++ wrote b ∷ []) ms
told ops (http_response_end ∷ ms) = returned (ops ++ closed none ∷ [])
told ops (error p ∷ ms) = returned (ops ++ closed (some (remote p.code p.message)) ∷ [])
told ops (http_request p ∷ ms) = told ops ms
told ops (http_response p ∷ ms) = told ops ms
told ops (http_response_start p ∷ ms) = told ops ms

-- The reader has not closed the pipe.
abbrev pub Open : Pipe → Type 0
Open pipe = (ops : List PipeOp) (b : Bytes) → pipe ops b ≡ none

module _ (m : Mode) (pipe : Pipe) (reader : Open pipe) where
  pub pump-message :
      (id : Bytes) (e : Envelope) (msg : Message) (ops : List PipeOp)
      → read_envelope m.wire e ≡ some (id, msg)
      → pump_frame m pipe e ops ≡ told ops (msg ∷ [])
  unfolding pump_frame read_envelope
  pump-message id e (http_response_chunk b) ops reads = ground (arith, reader ops b)
  pump-message id e _ ops reads = ground arith

  next-told :
      (ops : List PipeOp) (msg : Message) (ms : List Message) (f : List PipeOp → Pumped)
      → ((o : List PipeOp) → f o ≡ told o ms)
      → next_frame m pipe (told ops (msg ∷ [])) f ≡ told ops (msg ∷ ms)
  unfolding next_frame
  next-told ops (http_response_chunk b) ms f h = h (ops ++ wrote b ∷ [])
  next-told ops http_response_end ms f h = refl
  next-told ops (error p) ms f h = refl
  next-told ops (http_request p) ms f h = h ops
  next-told ops (http_response p) ms f h = h ops
  next-told ops (http_response_start p) ms f h = h ops

  -- While the reader keeps the pipe open, the pump does to the pipe exactly what the messages that
  -- arrive tell: it writes each chunk's bytes in order; closes cleanly at `HTTPResponseEnd`; closes
  -- with the remote code and text at `Error`, so that a failed stream is no clean end of file; ignores
  -- other messages; and does nothing after the first end or error.
  pub pump_follows_messages :
      (id : Bytes) (es : List Envelope) (ms : List Message) (ops : List PipeOp)
      → Reads m.wire id es ms
      → pump_frames m pipe es ops ≡ told ops ms
  unfolding pump_frames
  pump_follows_messages id [] [] ops reads = refl
  pump_follows_messages id [] (msg ∷ ms) ops reads = absurd reads
  pump_follows_messages id (e ∷ es) [] ops reads = absurd reads
  pump_follows_messages id (e ∷ es) (msg ∷ ms) ops reads =
      subst (λ p. next_frame m pipe p (pump_frames m pipe es) ≡ told ops (msg ∷ ms))
        (sym (pump-message id e msg ops reads.0))
        (next-told ops msg ms (pump_frames m pipe es)
          (λ o. pump_follows_messages id es ms o reads.1))
