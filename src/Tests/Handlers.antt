-- ===== src/Tests/Handlers.antt =====
-- The handler side of golang/client at concrete handlers.
use how.Base.{Bytes, ◌≡◌, ◌≤◌, refl, List, [], ◌∷◌, ◌++◌, false, none, some, codes, inr}
use how.Outcome.{foreign, Result, ok, err}
use how.Protocol.Message.{Payload, request, response}
use how.Protocol.Reading.{Message, http_response}
use how.Protocol.Message.{envelope}
use how.Protocol.Binary.{binary-Lossless, AnyId, AnyPayload}
use how.Handler.Send.{Channel}
use how.Handler.Writer.{StreamProgram, new_response_writer, run_stream}
use how.Handler.Writer
use how.Handler.HttpWriter.{HttpProgram, ret, do_write}
use how.Handler.Http.{HttpLib, HttpResponse, last, more, build_request, add_headers}
use how.Handler.Adapters.{serve_streaming, forward_stream, exchange}
use how.Handler.Dispatch.{
  Spawned, dispatch_request, handle_binary_message, handle_text_message, plain, streaming,
}
use how.Handler.Saying.{Reliable, Extends}
use how.Handler.StreamSteps.{start_of, stream_of}
use how.Handler.Exact.{streaming_adapter_exact}
use how.Handler.Streams.{SentStream, streaming_adapter_conforms}
use how.Handler.Answers.{
  plain_answers_once, stream_handler_messages, spoken, gateway_failure, starts, last_word,
}
use how.Handler.Forwarding.{forward_relays, relayed}
use how.Protocol.Wire.{binary_wire, text_wire}
use how.Handler.Receiving.{Reception}
use how.Handler.Reception.{every_frame_received, every_text_frame_received, binary_side, text_side}
use how.Protocol.Text.{text-Lossless}
use how.Tests.Codec.{write}
use how.Tests.Wires.{msgpack, msgpack_laws, json, json_laws, write_envelope, field, unfield}

abbrev pub quiet : Channel
quiet = record {
  mp = msgpack;
  js = json;
  error_text = λ e. codes "failed";
  sender = λ sink f. none;
  text_mode = false;
}

pub quiet_reliable : Reliable quiet AnyId AnyPayload
quiet_reliable = record {
  binary_ok = λ e. binary-Lossless msgpack msgpack_laws;
  text_ok = λ e. absurd (cc);
}

-- An upstream that breaks off after two bytes.
abbrev pub broken_off : HttpResponse
broken_off = record {
  status_code = 200;
  header = [];
  body = more (1 ∷ 2 ∷ []) (last [] (foreign (codes "unexpected EOF")));
}

abbrev pub lib : HttpLib
lib = record {
  Request = Bytes;
  new_request = λ method url body. ok url;
  header_add = λ k v r. r;
  do_request = λ r. ok broken_off;
  read_all = λ b. ([], none);
  record_response = λ p. broken_off;
}

abbrev pub get_root : Payload request
get_root = record { method = codes "GET"; url = codes "/"; headers = []; body = [] }

abbrev pub hello : lib.Request → HttpProgram
hello r = do_write (codes "hello") (λ n e. do_write [] (λ k x. ret))

abbrev pub id : Bytes
id = codes "id-1"

streaming_adapter_conforms_example :
    SentStream quiet id []
      (dispatch_request quiet (streaming (serve_streaming lib quiet hello)) id get_root [])
unfolding build_request
streaming_adapter_conforms_example =
    streaming_adapter_conforms quiet quiet_reliable id tt lib hello get_root [] refl
      (tt, tt, (λ n e. (tt, tt, λ k x. tt)))

streaming_adapter_exact_example :
    Extends quiet id []
      (dispatch_request quiet (streaming (serve_streaming lib quiet hello)) id get_root [])
      (stream_of (start_of 200 []) (codes "hello" ∷ []))
unfolding build_request
streaming_adapter_exact_example =
    streaming_adapter_exact quiet quiet_reliable id tt (λ sink f. refl) lib hello get_root [] refl
      (tt, tt, (λ n e. (tt, tt, λ k x. tt)))

failing : Payload request → Result (Payload response)
failing req = err (foreign [])

plain_answers_once_example :
    Extends quiet id []
      (dispatch_request quiet (plain failing) id get_root [])
      (http_response (gateway_failure quiet (foreign [])) ∷ [])
unfolding failing
plain_answers_once_example =
    plain_answers_once quiet quiet_reliable id tt failing get_root
      (gateway_failure quiet (foreign [])) [] (inr (foreign [], refl, refl)) tt

abbrev gives_up_early : Payload request → StreamProgram
gives_up_early req =
    Writer.do_write_header 200 [] (Writer.do_write (1 ∷ []) (λ e. Writer.ret (some (foreign []))))

stream_handler_messages_example :
    let ms = spoken quiet (gives_up_early get_root) (new_response_writer id) [] in
    (starts ms ≤ 1)
    × Extends quiet id []
        (dispatch_request quiet
          (streaming (λ q. run_stream quiet (gives_up_early q)))
          id
          get_root
          [])
        (ms
          ++ last_word quiet
              (run_stream quiet (gives_up_early get_root) (new_response_writer id) []).0
              (starts ms))
stream_handler_messages_example =
    stream_handler_messages quiet quiet_reliable id tt gives_up_early get_root []
      (tt, (tt, (λ e. tt))) (λ x. tt) (λ x. tt)

forward_relays_example :
    Extends quiet id []
      (dispatch_request quiet
        (streaming (λ q. run_stream quiet (forward_stream lib (codes "http://up") q)))
        id
        get_root
        [])
      (stream_of (start_of 200 []) (relayed broken_off.body))
unfolding exchange build_request add_headers
forward_relays_example =
    forward_relays quiet quiet_reliable id tt (λ sink f. refl) lib (codes "http://up") get_root []
      broken_off refl tt (tt, tt)

every_frame_received_example :
    (spawned : Spawned) × (rid : Bytes) × (ms : List Message) × Reception quiet
      (binary_wire msgpack)
      (0x69 ∷ 0x10 ∷ [])
      spawned
      rid
      ms
    × ((handle_binary_message quiet (0x69 ∷ 0x10 ∷ []) []).0 ≡ spawned)
    × Extends (binary_side quiet) rid [] (handle_binary_message quiet (0x69 ∷ 0x10 ∷ []) []).1 ms
every_frame_received_example = every_frame_received quiet msgpack_laws (0x69 ∷ 0x10 ∷ []) []

-- A text request.
abbrev text_request : Bytes
text_request = write_envelope (
    envelope 0x10 id (
      write field unfield request
        (record { method = codes "GET"; url = codes "/"; headers = []; body = none })))

every_text_frame_received_example :
    (spawned : Spawned) × (rid : Bytes) × (ms : List Message) × Reception quiet
      (text_wire json)
      text_request
      spawned
      rid
      ms
    × ((handle_text_message quiet text_request []).0 ≡ spawned)
    × Extends (text_side quiet) rid [] (handle_text_message quiet text_request []).1 ms
every_text_frame_received_example =
    every_text_frame_received quiet text_request [] (text-Lossless json json_laws)
      (λ env e arrived broken. (refl, refl))
