-- ===== src/Tests/Callers.antt =====
-- The caller side of golang/client, and both sides together, at concrete requests.
use how.Base.{
  ℕ, zero, suc, arith, ◌≡◌, refl, List, [], ◌∷◌, ◌++◌, false, none, some, get_elem?, bytes_eq,
}
use how.Base.Keyed.{lookup}
use how.Outcome.{read_timeout}
use how.Protocol.Message.{Envelope}
use how.Protocol.Reading.{http_response_end, read_envelope}
use how.Protocol.Message.{envelope}
use how.Queue.{new_frame_queue, try_pop}
use how.Handler.Send.{OutFrame, Transport}
use how.Handler.Http.{build_request}
use how.Handler.Adapters.{serve_streaming}
use how.Handler.Dispatch.{dispatch_request, streaming as streaming_handler}
use how.Caller.{Caller, Mode, pos, new_caller, register, remove_pending, poll}
use how.Caller.Request.{failed, begin_request, request_sent, first_stopped, stop_error}
use how.Caller.Pump.{Pipe, pump_frames}
use how.Caller.System.{
  Thread, awaiting, ended, System, Label, begin, give_up, step, run, stop_thread, stop_in, settle,
}
use how.Caller.Leaks.{ended_requests_leave_nothing, step-IsOwned, IsOwned}
use how.Caller.Body.{pump_follows_messages, told}
use how.Caller.Delivery.{Standing}
use how.EndToEnd.Whole.{peer_mode, Answered, handler_output_is_body, upstream_body_is_body}
use how.Handler.Http.{add_headers}
use how.Handler.Adapters.{exchange, forward_stream}
use how.Handler.Writer.{run_stream}
use how.Handler.StreamSteps.{start_of}
use how.Handler.Forwarding.{relayed}
use how.Base.{codes}
use how.Protocol.Wire.{marshal, encode_payload}
use how.Protocol.Make.{new_http_request}
use how.Tests.Handlers.{quiet, quiet_reliable, lib, broken_off, get_root, hello, id}

abbrev pub m : Mode
m = peer_mode quiet

abbrev pub sender : Transport
sender sink f = none

abbrev pub pipe : ℕ → Pipe
pipe a ops b = none

abbrev pub waiting_caller : Caller
waiting_caller = record {
  text_mode = false;
  read_timeout = pos 0;
  pending = (id, 0) ∷ [];
  text_pending = [];
  queues = new_frame_queue ∷ [];
  close_err = none;
  sent = [];
}

abbrev pub goroutine : Thread
goroutine = record { id = id; addr = 0; phase = awaiting; result = none; ops = [] }

abbrev pub waiting_system : System
waiting_system = record { caller = waiting_caller; threads = goroutine ∷ [] }

pub waiting_Standing : Standing m sender pipe waiting_system 0 goroutine []
unfolding lookup bytes_eq new_frame_queue
waiting_Standing = record {
  at = refl;
  queue = new_frame_queue;
  held = refl;
  content = refl;
  pending = refl;
}

handler_output_is_body_example :
    (fs : List OutFrame) × (dispatch_request quiet
        (streaming_handler (serve_streaming lib quiet hello))
        id
        get_root
        []
      ≡ [] ++ fs)
    × Answered quiet sender pipe waiting_system 0 goroutine fs
        (start_of 200 [])
        (codes "hello" ∷ [])
unfolding build_request
handler_output_is_body_example =
    handler_output_is_body quiet quiet_reliable (λ sink f. refl) sender pipe waiting_system 0
      goroutine tt waiting_Standing refl refl (λ ops b. refl) lib hello get_root [] refl
      (tt, tt, (λ n e. (tt, tt, λ k x. tt)))

upstream_body_is_body_example :
    (fs : List OutFrame) × (dispatch_request quiet
        (streaming_handler (λ q. run_stream quiet (forward_stream lib (codes "http://up") q)))
        id
        get_root
        []
      ≡ [] ++ fs)
    × Answered quiet sender pipe waiting_system 0 goroutine fs
        (start_of 200 [])
        (relayed broken_off.body)
unfolding exchange build_request add_headers
upstream_body_is_body_example =
    upstream_body_is_body quiet quiet_reliable (λ sink f. refl) sender pipe waiting_system 0
      goroutine tt waiting_Standing refl refl (λ ops b. refl) lib (codes "http://up") get_root []
      broken_off refl tt (tt, tt)

-- An `HTTPResponseEnd`.
abbrev pub end_envelope : Envelope
end_envelope = envelope 0x14 id []

pump_follows_messages_example :
    pump_frames m (pipe 0) (end_envelope ∷ []) [] ≡ told [] (http_response_end ∷ [])
unfolding read_envelope
pump_follows_messages_example =
    pump_follows_messages m (pipe 0) (λ ops b. refl) id (end_envelope ∷ []) (http_response_end ∷ [])
      [] (refl, tt)

empty_IsOwned : IsOwned m sender pipe (record { caller = new_caller []; threads = [] })
unfolding new_caller lookup
empty_IsOwned k a h = cc

step-IsOwned_example :
    IsOwned m sender pipe
      (step m sender pipe (begin id get_root) (record { caller = new_caller []; threads = [] }))
step-IsOwned_example =
    step-IsOwned m sender pipe (begin id get_root) (record { caller = new_caller []; threads = [] })
      empty_IsOwned

-- A request that times out.
abbrev timed_out : List Label
timed_out = begin id get_root ∷ give_up 0 (record { ctx_err = none; prefer_ctx = false }) ∷ []

abbrev gone : Thread
gone = record goroutine { phase = ended; result = some (failed read_timeout) }

abbrev after_timeout : System
after_timeout = run m sender pipe timed_out (record { caller = new_caller []; threads = [] })

threads_after_timeout : after_timeout.threads ≡ gone ∷ []
unfolding run step new_caller begin_request request_sent register marshal encode_payload
    new_http_request stop_thread poll first_stopped stop_error new_frame_queue settle remove_pending
    try_pop stop_in
threads_after_timeout = refl

all_gone :
    (ts : List Thread)
    → ts ≡ gone ∷ []
    → (i : ℕ) (t : Thread) → get_elem? ts i ≡ some t
    → t.phase ≡ ended
all_gone [] same i t h = cc
all_gone (x ∷ ts) same zero t h = ground arith
all_gone (x ∷ []) same (suc i) t h = cc
all_gone (x ∷ y ∷ ts) same (suc i) t h = absurd (ground arith)

ended_requests_leave_nothing_example : lookup id after_timeout.caller.pending ≡ none
unfolding new_caller
ended_requests_leave_nothing_example =
    ended_requests_leave_nothing m sender pipe timed_out (new_caller []) after_timeout refl refl
      (all_gone after_timeout.threads threads_after_timeout) id
