-- ===== src/Tests/Bodies.antt =====
-- The bodies and timers of golang/client, and whole responses, at concrete requests.
use how.Base.{
  false, Bytes, codes, ◌≡◌, ◌↔◌, ◌≤◌, ◌<◌, refl, List, [], ◌∷◌, ◌++◌, map, true, none, some,
  get_elem?, arith, bytes_eq,
}
use how.Protocol.Message.{Envelope, envelope}
use how.Base.Keyed.{lookup}
use how.Outcome.{Error, ok, foreign}
use how.Handler.HttpWriter.{HttpProgram, ret, do_write_header, do_write}
use how.Handler.Http.{HttpLib, last, build_request}
use how.Handler.Service.{with_streaming, http_handler, handler_of}
use how.Handler.Dispatch.{dispatch_request}
use how.Caller.{effective_timeout, new_caller, pending_of}
use how.Caller.Request.{Stopped}
use how.Caller.Delivery.{Standing}
use how.Queue.{new_frame_queue, push}
use how.Caller.System.{Thread, pumping, ended, takes, give_up}
use how.Caller.Cancelling.{Streams, new_cancelling_body, canceled, caller, collect, run}
use how.Caller.Dropping.{pipes, dropped_body_frees_request}
use how.Caller.ReadTimer
use how.Caller.ReadTimer.{elapse, frame, is_due, start_at}
use how.Caller.Silence.{timeout_iff_silence}
use how.EndToEnd.Promised.{RecorderLaws, first_code, all_written}
use how.EndToEnd.SameResponse.{Gets, options_leave_response}
use how.Examples.{RequestView, mux}
use how.Protocol.Message.{Payload, request}
use how.Examples.Echo.{ViewLaws, bytes_of, echo_returns_body}
use how.Tests.Handlers.{quiet, quiet_reliable, get_root, id}
use how.Tests.Callers.{m, sender, pipe, waiting_system, goroutine, waiting_Standing, waiting_caller}

abbrev eof : Error
eof = foreign (codes "EOF")

-- An httptest that records the status and all bytes.
abbrev recording : HttpLib
recording = record {
  Request = Bytes;
  new_request = λ method url body. ok body;
  header_add = λ k v r. r;
  do_request = λ r. ok (record { status_code = 200; header = []; body = last [] eof });
  read_all = λ b. (bytes_of b, none);
  record_response =
      λ p. record { status_code = first_code p; header = []; body = last (all_written p) eof };
}

recording_laws : RecorderLaws recording
recording_laws = record { status = λ p low high. refl; content = λ p. refl }

abbrev greet : Bytes → HttpProgram
greet r = do_write_header 201 (do_write (codes "hi") (λ n e. do_write r (λ k x. ret)))

options_leave_response_example :
    Gets quiet quiet_reliable
      (λ sink f. refl)
      sender
      pipe
      waiting_system
      0
      goroutine
      tt
      waiting_Standing
      refl
      refl
      (λ ops b. refl)
      []
      (dispatch_request quiet
        (handler_of quiet (http_handler recording greet (with_streaming ∷ [])))
        id
        get_root
        [])
      201
      (codes "hi")
unfolding build_request
options_leave_response_example =
    options_leave_response quiet quiet_reliable (λ sink f. refl) sender pipe waiting_system 0
      goroutine tt waiting_Standing refl refl (λ ops b. refl) recording recording_laws greet
      get_root [] {r = []} refl (omega arith) (omega arith) (with_streaming ∷ [])
      (tt, (tt, tt, λ n e. (tt, tt, λ k x. tt))) tt

-- Every request is for `/echo`, and one read gives its body.
abbrev posted : RequestView recording
posted = record {
  pattern_of = λ r. codes "/echo";
  method_of = λ r. codes "POST";
  url_of = λ r. codes "/echo";
  content_type_of = λ r. codes "text/plain";
  body_of = λ r. last r eof;
  not_found = λ r. ret;
}

posted_laws : ViewLaws recording posted
posted_laws = record { body = λ m u b r made. cc; headers = λ k v r. refl }

abbrev post_echo : Payload request
post_echo = record {
  method = codes "POST";
  url = codes "/echo";
  headers = (codes "Accept", codes "*/*" ∷ []) ∷ [];
  body = 1 ∷ 2 ∷ 3 ∷ [];
}

echo_returns_body_example :
    Gets quiet quiet_reliable
      (λ sink f. refl)
      sender
      pipe
      waiting_system
      0
      goroutine
      tt
      waiting_Standing
      refl
      refl
      (λ ops b. refl)
      []
      (dispatch_request quiet
        (handler_of quiet (http_handler recording (mux recording posted) []))
        id
        post_echo
        [])
      200
      (1 ∷ 2 ∷ 3 ∷ [])
echo_returns_body_example =
    echo_returns_body quiet quiet_reliable (λ sink f. refl) sender pipe waiting_system 0 goroutine
      waiting_Standing refl refl (λ ops b. refl) recording recording_laws posted posted_laws
      post_echo [] (1 ∷ 2 ∷ 3 ∷ []) refl refl

-- Five seconds pass, a frame comes, and then nothing for the default timeout.
abbrev passing : List ReadTimer.Label
passing = elapse 5000000000 ∷ frame ∷ elapse 20000000000 ∷ elapse 10000000000 ∷ []

timeout_iff_silence_example :
    (is_due (ReadTimer.run (new_caller []) passing (start_at (new_caller []) 7)).timer ≡ true)
    ↔ ((0 < effective_timeout (new_caller [])) × (effective_timeout (new_caller []) ≤ 30000000000))
timeout_iff_silence_example = timeout_iff_silence (new_caller []) 7 passing

-- A goroutine that pumps a streaming response, with a chunk in its queue.
abbrev chunk_envelope : Envelope
chunk_envelope = envelope 0x13 id (1 ∷ 2 ∷ [])

abbrev pumper : Thread
pumper = record goroutine { phase = pumping }

abbrev streamed : Streams
streamed = record {
  system = record {
    caller = record waiting_caller { queues = push chunk_envelope new_frame_queue ∷ [] };
    threads = pumper ∷ [];
  };
  bodies = λ a. new_cancelling_body;
  parent_done = λ a. false;
  due = λ a. false;
}

pumper_Standing : Standing m sender (pipes streamed) streamed.system 0 pumper (chunk_envelope ∷ [])
unfolding lookup bytes_eq new_frame_queue push
pumper_Standing = record {
  at = refl;
  queue = push chunk_envelope new_frame_queue;
  held = refl;
  content = refl;
  pending = refl;
}

abbrev context_done : Stopped
context_done = record { ctx_err = some canceled; prefer_ctx = true }

dropped_body_frees_request_example :
    let s' =
      run m sender
        (collect 0 ∷ map caller (takes 0 (chunk_envelope ∷ []) ++ give_up 0 context_done ∷ []))
        streamed in
    ((s'.bodies 0).cancelled ≡ true)
    × ((t' : Thread) × (get_elem? s'.system.threads 0 ≡ some t') × (t'.phase ≡ ended))
    × (lookup id (pending_of m.is_text s'.system.caller) ≡ none)
unfolding new_cancelling_body
dropped_body_frees_request_example =
    dropped_body_frees_request m sender (collect 0) streamed 0 pumper (chunk_envelope ∷ [])
      context_done canceled (refl, refl) refl pumper_Standing refl
