-- ===== src/Tests/Servers.antt =====
-- The serving side of golang/client and golang/cmd/howclient at concrete requests.
use how.Base.{
  ℕ, ap, Bytes, codes, ◌≡◌, ◌↔◌, refl, List, [], ◌∷◌, ◌++◌, true, none, some, get_elem?, ◌⊎◌, map,
}
use how.Outcome.{Result, ok, map_err, wrapped, undecodable_payload, foreign}
use how.Protocol.Message.{Envelope, request}
use how.Protocol.Wire.{unmarshal, decode_payload}
use how.Protocol.Message.{envelope}
use how.Handler.Http.{build_request, add_headers}
use how.Handler.Adapters.{forward_stream, exchange}
use how.Handler.Service.{Service, streams, handler_of}
use how.Handler.Dispatch.{dispatch_request}
use how.Handler.StreamSteps.{start_of, stream_of}
use how.Handler.Forwarding.{relayed}
use how.Server.{arrive, advance, Job, finished, run}
use how.Server.Transcript.{said, will_say}
use how.Server.Tracking.{nothing_yet}
use how.Server.Interleaving.{served_as_if_alone}
use how.Howclient.{help, given, Conn, ws_message, ws_sender, main, exit_status}
use how.Howclient.Said.{said_on}
use how.Howclient.Exits.{Interrupted, clean_exit_iff}
use how.Howclient.Forwards.{request_is_forwarded}
use how.Tests.Wires.{msgpack, msgpack_laws, json, same, write_envelope, read-write_envelope}
use how.Tests.Codec.{write, read-write}
use how.Tests.Handlers.{quiet, lib, broken_off, get_root, id}

abbrev upstream : Bytes
upstream = codes "http://up"

abbrev pub forwarder : Service
forwarder = streams (λ q. forward_stream lib upstream q)

abbrev pub request_envelope : Envelope
request_envelope = envelope 0x10 id (write same same request get_root)

abbrev pub request_frame : Bytes
request_frame = 0x69 ∷ write_envelope request_envelope

pub request_arrives : unmarshal msgpack request_frame ≡ ok request_envelope
unfolding unmarshal
request_arrives = ap (map_err (wrapped "unmarshal envelope")) (read-write_envelope request_envelope)

pub request_decodes : decode_payload msgpack request request_envelope ≡ ok get_root
unfolding decode_payload
request_decodes =
    ap (λ r. map_err (undecodable_payload 0x10) (ok r))
      (read-write same same (λ b. refl) request get_root)

served_as_if_alone_example :
    let s = run quiet forwarder ([] ++ arrive request_frame ∷ advance 0 ∷ []) nothing_yet in
    (i : ℕ) × (j : Job) × (get_elem? s.jobs i ≡ some j)
    × (j.id ≡ id)
    × (said quiet id s.sink ++ will_say quiet j.work
        ≡ said quiet id (dispatch_request quiet (handler_of quiet forwarder) id get_root []))
    × (j.work ≡ finished
        → said quiet id s.sink
          ≡ said quiet id (dispatch_request quiet (handler_of quiet forwarder) id get_root []))
served_as_if_alone_example =
    served_as_if_alone quiet msgpack_laws refl (λ sink f. refl) forwarder id [] (advance 0 ∷ [])
      request_frame request_envelope get_root tt (tt, tt) request_arrives refl refl request_decodes

-- The request is read, the goroutine moves once, a frame of another protocol is read, and SIGTERM.
abbrev link : Conn
link = record {
  reads = ([], request_frame) ∷ (0 ∷ [], 0x00 ∷ []) ∷ [];
  read_error = foreign (codes "closed");
  interrupted = true;
  write = λ sent w. none;
}

abbrev parse : Bytes → Result Bytes
parse u = ok u

abbrev dial : Bytes → List Bytes → Result Conn
dial url protocols = ok link

clean_exit_iff_example :
    (exit_status
        (main msgpack json quiet.error_text lib parse dial (given (codes "ws://s") upstream)).0
      ≡ 0)
    ↔ ((given (codes "ws://s") upstream ≡ help)
        ⊎ ((server_url : Bytes) × (target : Bytes) × (given (codes "ws://s") upstream
              ≡ given server_url target)
            × Interrupted msgpack json quiet.error_text lib parse dial server_url target))
clean_exit_iff_example =
    clean_exit_iff msgpack json quiet.error_text lib parse dial (given (codes "ws://s") upstream)

request_is_forwarded_example :
    let s =
      (main msgpack json quiet.error_text lib parse dial (given (codes "ws://s") upstream)).1 in
    (i : ℕ) × (j : Job) × (get_elem? s.jobs i ≡ some j)
    × (j.id ≡ id)
    × (said_on msgpack id (map ws_message s.sink) ++ will_say quiet j.work
        ≡ stream_of (start_of 200 []) (relayed broken_off.body))
unfolding exchange build_request add_headers unmarshal ws_sender
request_is_forwarded_example =
    request_is_forwarded msgpack json quiet.error_text lib parse dial (codes "ws://s") upstream
      upstream link id [] ((0 ∷ [], 0x00 ∷ []) ∷ []) [] request_frame request_envelope get_root
      (upstream ++ get_root.url) broken_off msgpack_laws (λ e. cc) (λ e. cc) refl refl
      (λ sent w. refl) refl tt ((λ env h. absurd (cc)), tt) request_arrives refl refl
      request_decodes refl refl
