-- ===== src/Caller/Pump.antt =====
-- golang/client/client.go: `pumpBinary` and `pumpText`, which copy the frames of a streaming response
-- into the pipe that the body is read from.
use how.Base.{Bytes, List, [], ◌∷◌, ◌++◌, ◌==◌, Option, none, some, if◌then◌else◌}
use how.Outcome.{Error, Result, ok, err, wrapped, remote}
use how.Protocol.Message.{
  Envelope, Payload, chunk, failure, type_http_response_chunk, type_http_response_end, type_error,
}
use how.Caller.{Caller, Mode}
use how.Caller.Request.{Stopped, stop_error}

-- What is done to the `io.PipeWriter`: a `Write`, or `Close()` (no error) and `CloseWithError`.
pub data PipeOp : Type 0 where
  wrote : Bytes → PipeOp
  closed : Option Error → PipeOp

-- `io.Pipe` and its reader: the error of a `Write`, given all that was done to the pipe before.
abbrev pub Pipe : Type 0
Pipe = List PipeOp → Bytes → Option Error

-- After a frame the pump goes on, or returns; then its deferred `removePending` runs.
pub data Pumped : Type 0 where
  goes_on : List PipeOp → Pumped
  returned : List PipeOp → Pumped

-- `wait` returned `false`.
unfoldable pub pump_stopped : Stopped → Caller → List PipeOp → List PipeOp
pump_stopped s c ops = ops ++ closed (some (stop_error c s)) ∷ []

module _ (m : Mode) (pipe : Pipe) where
  after_write : Option Error → List PipeOp → Pumped
  after_write none ops = goes_on ops
  after_write (some e) ops = returned ops

  on_chunk : Result (Payload chunk) → List PipeOp → Pumped
  unfolding after_write
  on_chunk (err e) ops = returned (ops ++ closed (some (wrapped "decode chunk" e)) ∷ [])
  on_chunk (ok p) ops = after_write (pipe ops p.chunk_data) (ops ++ wrote p.chunk_data ∷ [])

  on_failure : Result (Payload failure) → List PipeOp → Pumped
  on_failure (err e) ops =
      returned (ops ++ closed (some (wrapped "malformed error envelope" e)) ∷ [])
  on_failure (ok p) ops = returned (ops ++ closed (some (remote p.code p.message)) ∷ [])

  -- The body of the loop, on the frame that `wait` returned.
  unfoldable pub pump_frame : Envelope → List PipeOp → Pumped
  unfolding on_chunk on_failure
  pump_frame msg ops =
      if msg.type == type_http_response_chunk
      then on_chunk (m.wire.decode chunk msg) ops
      else if msg.type == type_http_response_end
      then returned (ops ++ closed none ∷ [])
      else if msg.type == type_error
      then on_failure (m.wire.decode failure msg) ops
      else goes_on ops

  unfoldable pub next_frame : Pumped → (List PipeOp → Pumped) → Pumped
  next_frame (goes_on ops) f = f ops
  next_frame (returned ops) f = returned ops

  -- The loop over the frames that arrive, in turn.
  unfoldable pub pump_frames : List Envelope → List PipeOp → Pumped
  unfolding next_frame
  pump_frames [] ops = goes_on ops
  pump_frames (msg ∷ msgs) ops = next_frame (pump_frame msg ops) (pump_frames msgs)
