-- ===== src/Server.antt =====
-- golang/client/client.go: a `HOWHandler` with the goroutines that its `go h.dispatchRequest(…)` starts,
-- which share one sender and are interleaved between any two calls of it.
pub mod Alone
pub mod Transcript
pub mod Apart
pub mod Tracking
pub mod Interleaving
use how.Base.{ℕ, zero, suc, Bytes, List, [], ◌∷◌, ◌++◌, Option, none, some, get_elem?, set}
use how.Outcome.{Error, Result}
use how.Protocol.Message.{Payload, request, response}
use how.Handler.Send.{Channel, Sink, send_response}
use how.Handler.Writer.{
  StreamProgram, ret, do_write_header, do_write, do_close, ResponseWriter, new_response_writer,
  write_header, write, close, run_stream,
}
use how.Handler.Service.{Service, answers, streams}
use how.Handler.Dispatch.{Spawned, or_bad_gateway, after_stream, handle_binary_message}

-- What a goroutine still has to do: to send its one response, to run the rest of a streaming handler, or
-- nothing.
pub data Work : Type 0 where
  answering : Payload response → Work
  writing : ResponseWriter → StreamProgram → Work
  finished : Work

-- `id` is the `requestID` of `dispatchRequest`.
pub record Job : Type 0 where
  pub id : Bytes
  pub work : Work

pub record Server : Type 0 where
  pub sink : Sink
  pub jobs : List Job

pub data Label : Type 0 where
  -- `HandleBinaryMessage` is called
  arrive : Bytes → Label
  -- a goroutine moves past its next call of the sender
  advance : ℕ → Label

module _ (h : Channel) where
  -- `dispatchRequest` up to its first call of the sender
  unfoldable pub spawn : Service → Bytes → Payload request → Work
  spawn (answers serve) id req = answering (or_bad_gateway h (serve req))
  spawn (streams serve) id req = writing (new_response_writer id) (serve req)

  -- The goroutine runs on, up to its next call of the sender.
  unfoldable pub advance_work : Bytes → Work → Sink → Work × Sink
  advance_work id (answering resp) sink = (finished, send_response h id resp sink)
  advance_work id (writing rw (ret e)) sink = (finished, after_stream h id (e, rw, sink))
  advance_work id (writing rw (do_write_header code headers rest)) sink =
      let (rw', sink') = write_header h code headers rw sink in (writing rw' rest, sink')
  advance_work id (writing rw (do_write bytes rest)) sink =
      let (e, sink') = write h bytes rw sink in (writing rw (rest e), sink')
  advance_work id (writing rw (do_close rest)) sink = (writing rw rest, close h rw sink)
  advance_work id finished sink = (finished, sink)

  -- The goroutine alone, for a number of moves.
  unfoldable pub run_alone : ℕ → Bytes → Work → Sink → Work × Sink
  run_alone zero id work sink = (work, sink)
  run_alone (suc n) id work sink =
      let (work', sink') = advance_work id work sink in run_alone n id work' sink'

module _ (h : Channel) (service : Service) where
  unfoldable pub with_spawned : List Job → Spawned × Sink → Server
  unfolding spawn
  with_spawned jobs (none, sink) = record { sink = sink; jobs = jobs }
  with_spawned jobs (some (id, req), sink) = record {
    sink = sink;
    jobs = jobs ++ record { id = id; work = spawn h service id req } ∷ [];
  }

  advance_job : ℕ → Option Job → Server → Server
  advance_job i none s = s
  advance_job i (some j) s =
      let (work, sink) = advance_work h j.id j.work s.sink in
      record { sink = sink; jobs = set s.jobs i (record j { work = work }) }

  unfoldable pub step : Label → Server → Server
  unfolding with_spawned advance_job
  step (arrive bytes) s = with_spawned s.jobs (handle_binary_message h bytes s.sink)
  step (advance i) s = advance_job i (get_elem? s.jobs i) s

  unfoldable pub run : List Label → Server → Server
  run [] s = s
  run (l ∷ ls) s = run ls (step l s)
