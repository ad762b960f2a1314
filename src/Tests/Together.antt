-- ===== src/Tests/Together.antt =====
-- Both sides of golang/client with everything else that they do, at concrete schedules.
use how.Base.{
  ℕ, zero, suc, Bytes, ◌≡◌, ◌≢◌, refl, sym, subst, List, [], ◌∷◌, ◌++◌, some, get_elem?, append-nil,
  bytes_eq, bytes_eq_iff, arith,
}
use how.Base.Keyed.{lookup}
use how.Protocol.Message.{Envelope, start}
use how.Protocol.Reading.{http_response_start, read_message, read_envelope}
use how.Protocol.Message.{envelope}
use how.Protocol.Wire.{unmarshal, decode_payload, encode_payload, marshal}
use how.Protocol.Make.{new_http_response_start, new_http_request}
use how.Handler.Send.{send_response_start}
use how.Handler.Writer
use how.Handler.Writer.{new_response_writer}
use how.Handler.Http.{build_request, add_headers}
use how.Handler.Adapters.{forward_stream, exchange}
use how.Handler.Saying.{read_frame}
use how.Tests.Wires
use how.Tests.Wires.{same, msgpack_laws}
use how.Tests.Codec
use how.Handler.StreamSteps.{start_of}
use how.Handler.Dispatch.{handle_binary_message}
use how.Handler.Dispatch.{dispatch_request}
use how.Handler.Service.{handler_of}
use how.Caller.System
use how.Caller.System.{takes}
use how.Caller.{pending_of, new_caller, register, handle_message}
use how.Caller.Request.{waiting, begin_request, request_sent}
use how.Caller.Fresh.{begun_thread, fresh_request_follows}
use how.Caller.Hearing.{after_hearing}
use how.Caller.Sole.{IsSole}
use how.Caller.Reply.{Telling, silent, frame, take, elsewhere, Followed, request_follows_messages}
use how.EndToEnd.Concurrent.{response_among_others}
use how.Tests.Callers.{m, sender, pipe, waiting_system, goroutine, waiting_Standing}
use how.Server
use how.Server.{Server, Job, advance}
use how.Server.Transcript.{said, will_say}
use how.Server.Tracking.{nothing_yet}
use how.Tests.Servers.{forwarder, request_frame, request_envelope, request_arrives, request_decodes}
use how.Tests.Handlers.{quiet, get_root, id}

abbrev serving : Server
serving = Server.run quiet forwarder (Server.arrive request_frame ∷ advance 0 ∷ []) nothing_yet

sent_start : said quiet id serving.sink ≡ http_response_start (start_of 200 []) ∷ []
unfolding said Server.run Server.step Server.spawn Server.with_spawned Server.advance_work
    handle_binary_message unmarshal decode_payload encode_payload marshal forward_stream exchange
    build_request add_headers Writer.write_header send_response_start new_http_response_start
    read_frame read_message read_envelope Wires.read_envelope Wires.write_envelope Codec.get
    Codec.put Codec.read Codec.write new_response_writer bytes_eq Codec.get_map Codec.put_map
sent_start = refl

-- The `HTTPResponseStart` that `serving` sent.
abbrev start_frame : Bytes
start_frame =
    0x69 ∷ Wires.write_envelope (envelope 0x12 id (Codec.write same same start (start_of 200 [])))

start_reads : read_message m.wire start_frame ≡ some (id, http_response_start (start_of 200 []))
unfolding unmarshal decode_payload read_message read_envelope Wires.read_envelope
    Wires.write_envelope Codec.get Codec.put Codec.read Codec.write Codec.get_map Codec.put_map
start_reads = refl

-- The goroutine finds its queue empty, a frame of another protocol comes, then the start, and the
-- goroutine takes it.
abbrev meanwhile : List System.Label
meanwhile = System.resume 0 ∷ System.arrive [] ∷ System.arrive start_frame ∷ System.resume 0 ∷ []

meanwhile_Telling : Telling m 0 id meanwhile (http_response_start (start_of 200 []) ∷ [])
unfolding unmarshal
meanwhile_Telling = take (
    elsewhere (System.arrive []) (λ env h. absurd (cc))
      (frame start_frame (http_response_start (start_of 200 [])) start_reads (take silent)))

only_one : (j : ℕ) (u : System.Thread) → 0 ≢ j → get_elem? waiting_system.threads j ≡ some u → ⊥
only_one zero u ne there = ne refl
only_one (suc j) u ne there = cc

waiting_IsSole : IsSole m sender pipe 0 goroutine [] waiting_system
unfolding lookup
waiting_IsSole = record {
  standing = waiting_Standing;
  others = λ j u ne there. absurd (only_one j u ne there);
  owner = λ k found. ground (arith, bytes_eq_iff id k);
}

request_follows_messages_example :
    Followed m sender pipe 0 id goroutine
      (http_response_start (start_of 200 []) ∷ [])
      (System.run m sender pipe meanwhile waiting_system)
request_follows_messages_example =
    request_follows_messages m sender pipe 0 id goroutine [] [] waiting_system (λ ops b. refl)
      (λ e. cc) refl waiting_IsSole tt meanwhile_Telling

response_among_others_example :
    let s' = System.run m sender pipe meanwhile waiting_system in
    ((x : ℕ) × (j : Job) × (get_elem? serving.jobs x ≡ some j)
      × (j.id ≡ id)
      × (said quiet id serving.sink ++ said quiet id [] ++ will_say quiet j.work
          ≡ said quiet id (dispatch_request quiet (handler_of quiet forwarder) id get_root [])))
    × Followed m sender pipe 0 id goroutine (said quiet id serving.sink) s'
    × ((es : List Envelope) × (get_elem? (System.run m sender pipe (takes 0 es) s').threads 0
          ≡ some (after_hearing goroutine (said quiet id serving.sink))))
response_among_others_example =
    response_among_others quiet msgpack_laws refl (λ sink f. refl) forwarder id [] (advance 0 ∷ [])
      request_frame request_envelope get_root sender pipe 0 goroutine waiting_system serving.sink []
      meanwhile tt (tt, tt) request_arrives refl refl request_decodes
      (sym (append-nil serving.sink)) (λ ops b. refl) (λ e. cc) refl waiting_IsSole
      (subst (Telling m 0 id meanwhile) (sym sent_start) meanwhile_Telling)

-- A frame of another protocol comes first.
abbrev used : System.System
used =
    System.run m sender pipe (System.arrive [] ∷ [])
      (record { caller = new_caller []; threads = [] })

used_begins : (begin_request m sender id get_root used.caller).0 ≡ waiting 0
unfolding begin_request request_sent register marshal encode_payload new_http_request new_caller
    System.run System.step unmarshal handle_message
used_begins = refl

new_caller_pending : pending_of m.is_text (new_caller []) ≡ []
unfolding new_caller
new_caller_pending = refl

fresh_request_follows_example :
    let s' =
      System.run m sender pipe meanwhile
        (System.step m sender pipe (System.begin id get_root) used) in
    Followed m sender pipe 0 id (begun_thread id 0) (http_response_start (start_of 200 []) ∷ []) s'
    × ((es : List Envelope) × (get_elem? (System.run m sender pipe (takes 0 es) s').threads 0
          ≡ some (after_hearing (begun_thread id 0) (http_response_start (start_of 200 []) ∷ []))))
unfolding System.run System.step
fresh_request_follows_example =
    fresh_request_follows m sender pipe (System.arrive [] ∷ []) (new_caller []) id get_root 0
      new_caller_pending (λ j u at. absurd (cc)) used_begins (λ ops b. refl) meanwhile_Telling
