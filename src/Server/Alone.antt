-- ===== src/Server/Alone.antt =====
-- A goroutine of `dispatchRequest` (golang/client/client.go), run call by call of its sender, does what
-- `dispatchRequest` does as a whole.
use how.Base.{ℕ, suc, Bytes, ◌≡◌, refl, Option}
use how.Outcome.{Error}
use how.Protocol.Message.{Payload, request}
use how.Handler.Send.{Channel, Sink}
use how.Handler.Writer.{
  StreamProgram, ret, do_write_header, do_write, do_close, ResponseWriter, run_stream, write_header,
  write, close, new_response_writer,
}
use how.Handler.Dispatch.{dispatch_request, after_stream}
use how.Handler.Service.{Service, answers, streams, handler_of}
use how.Server.{writing, finished, spawn, advance_work, run_alone}

module _ (h : Channel) (id : Bytes) where
  stream_ends :
      (program : StreamProgram) (rw : ResponseWriter) (sink : Sink)
      → (n : ℕ) × (run_alone h n id (writing rw program) sink
          ≡ (finished, after_stream h id (run_stream h program rw sink)))
  unfolding run_alone advance_work run_stream
  stream_ends (ret e) rw sink = (1, refl)
  stream_ends (do_write_header code headers rest) rw sink =
      let w : ResponseWriter × Sink = write_header h code headers rw sink in
      let (n, e) = stream_ends rest w.0 w.1 in (suc n, e)
  stream_ends (do_write bytes rest) rw sink =
      let w : Option Error × Sink = write h bytes rw sink in
      let (n, e) = stream_ends (rest w.0) rw w.1 in (suc n, e)
  stream_ends (do_close rest) rw sink =
      let (n, e) = stream_ends rest rw (close h rw sink) in (suc n, e)

  -- Left alone, the goroutine of any request ends after finitely many calls of the sender, and has then
  -- done exactly what `dispatchRequest` does, whatever the sender rejects.
  pub job_ends_as_dispatch :
      (service : Service) (req : Payload request) (sink : Sink)
      → (n : ℕ) × (run_alone h n id (spawn h service id req) sink
          ≡ (finished, dispatch_request h (handler_of h service) id req sink))
  unfolding run_alone advance_work spawn dispatch_request handler_of
  job_ends_as_dispatch (answers serve) req sink = (1, refl)
  job_ends_as_dispatch (streams serve) req sink =
      stream_ends (serve req) (new_response_writer id) sink
