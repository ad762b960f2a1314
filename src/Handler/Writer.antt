-- ===== src/Handler/Writer.antt =====
-- golang/client/handler.go: `ResponseWriter`, and the user's `StreamingHandler` that is handed one.
use how.Base.{ℕ, Bytes, Bool, true, false, Option, if◌then◌else◌}
use how.Outcome.{Error}
use how.Protocol.Message.{Headers}
use how.Handler.Send.{Channel, Sink, send_response_start, send_response_chunk, send_response_end}

-- What a `StreamingHandler` does to its `ResponseWriter` is a tree: the code after a `Write` may
-- depend on the error that the `Write` returned.
pub data StreamProgram : Type 0 where
  ret : Option Error → StreamProgram
  do_write_header : ℕ → Headers → StreamProgram → StreamProgram
  do_write : Bytes → (Option Error → StreamProgram) → StreamProgram
  do_close : StreamProgram → StreamProgram

pub record ResponseWriter : Type 0 where
  pub request_id : Bytes
  pub started : Bool

unfoldable pub new_response_writer : Bytes → ResponseWriter
new_response_writer id = record { request_id = id; started = false }

module _ (h : Channel) where
  unfoldable pub write_header : ℕ → Headers → ResponseWriter → Sink → ResponseWriter × Sink
  write_header status_code headers rw sink = if rw.started then (rw, sink) else (
    record rw { started = true },
    send_response_start h rw.request_id status_code headers sink,
  )

  unfoldable pub write : Bytes → ResponseWriter → Sink → Option Error × Sink
  write bytes rw sink = send_response_chunk h rw.request_id bytes sink

  unfoldable pub close : ResponseWriter → Sink → Sink
  close rw sink = send_response_end h rw.request_id sink

  -- The user's code runs against the writer.
  unfoldable pub run_stream :
      StreamProgram → ResponseWriter → Sink → Option Error × ResponseWriter × Sink
  run_stream (ret e) rw sink = (e, rw, sink)
  run_stream (do_write_header status_code headers rest) rw sink =
      let (rw', sink') = write_header status_code headers rw sink in run_stream rest rw' sink'
  run_stream (do_write bytes rest) rw sink =
      let (e, sink') = write bytes rw sink in run_stream (rest e) rw sink'
  run_stream (do_close rest) rw sink = run_stream rest rw (close rw sink)
