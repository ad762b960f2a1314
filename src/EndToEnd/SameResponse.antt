-- ===== src/EndToEnd/SameResponse.antt =====
-- `HTTPHandler` of golang/client/handler.go with and without `WithStreaming()`, as a user of
-- `Caller.Request` of golang/client/client.go sees it.
use how.Base.{
  ℕ, Bytes, ◌≡◌, refl, ap, ◌∙◌, subst, List, [], ◌∷◌, ◌++◌, ◌≤◌, ◌<◌, true, false, none, some,
  arith, get_elem?, inl, if◌then◌else◌,
}
use how.Outcome.{ok}
use how.Protocol.Message.{PayloadType, Payload, request, response}
use how.Protocol.Reading.{http_response, envelope_of}
use how.Handler.Send.{Channel, OutFrame, Transport, Sink}
use how.Handler.HttpWriter.{HttpProgram, u16}
use how.Handler.Writer.{new_response_writer}
use how.Handler.Http.{HttpLib, build_request}
use how.Handler.Adapters.{serve_streaming, serve_buffered}
use how.Handler.Service.{
  HttpHandlerConfig, http_handler, handler_of, configured, streaming_service, answers,
}
use how.Handler.SameStream.{adapter_is_stream}
use how.Handler.Dispatch.{dispatch_request, after_stream, streaming as streaming_handler}
use how.Handler.StreamSteps.{Sane}
use how.Handler.Exact.{body_of}
use how.Handler.Forwarding.{Accepts}
use how.Handler.Answers.{plain_answers_once}
use how.Handler.Saying.{Reliable, Extends}
use how.Caller.Pump.{closed, Pipe}
use how.Caller.Request.{Returned, buffered, streaming}
use how.Caller.System.{Thread, awaiting, ended, System, takes, arrive, run, step}
use how.Caller.Body.{Open}
use how.Caller.Delivery.{Standing, arrive-Standing}
use how.Caller.Answered.{read_pipe, read_body, status_of, response_is_taken}
use how.EndToEnd.{Hears, arrivals}
use how.EndToEnd.Whole.{peer_mode, frame_bytes, Says-Hears, handler_output_is_body}
use how.EndToEnd.Promised.{
  first_code, all_written, RecorderLaws, head_of-status, read_pipe-writes, concat-body_of,
}

module _ (h : Channel) {GoodId : Bytes → Type 0} {Good : (t : PayloadType) → Payload t → Type 0}
    (rel : Reliable h GoodId Good) (accepts : Accepts h) (sender : Transport) (pipe : ℕ → Pipe)
    (s : System) (i : ℕ) (t : Thread) (good_id : GoodId t.id)
    (st : Standing (peer_mode h) sender pipe s i t []) (waits : t.phase ≡ awaiting)
    (nothing : t.ops ≡ []) (reader : Open (pipe t.addr)) where
  -- A request is dispatched, the frames that this sends reach the waiting goroutine `i` in order, and
  -- it takes them. Then `Request` has returned a response with this status, and `io.ReadAll` of its body
  -- gives these bytes and no error.
  abbrev pub Gets : Sink → Sink → ℕ → Bytes → Type 0
  Gets sink sink' code body =
      (fs : List OutFrame) × (sink' ≡ sink ++ fs)
      × (t' : Thread) × (get_elem?
            (run (peer_mode h) sender pipe (arrivals (frame_bytes fs) ++ takes i (frame_bytes fs))
              s).threads
            i
          ≡ some t')
      × (res : Returned) × (t'.phase ≡ ended)
      × (t'.result ≡ some res)
      × (status_of res ≡ some code)
      × (read_body res t'.ops ≡ some (body, none))

  one_taken :
      (ds : List Bytes) (p : Payload response)
      → Hears (peer_mode h).wire t.id ds (http_response p ∷ [])
      → get_elem? (run (peer_mode h) sender pipe (arrivals ds ++ takes i ds) s).threads i
        ≡ some (record t { phase = ended; result = some (buffered p.status_code p.headers p.body) })
  unfolding run
  one_taken [] p hears = absurd hears
  one_taken (d ∷ e ∷ ds) p hears = absurd hears.1
  one_taken (d ∷ []) p hears =
      let m = peer_mode h in
      let (env, arrived, reads, mine) = envelope_of m.wire d t.id (http_response p) hears.0 in
      response_is_taken m sender pipe (step m sender pipe (arrive d) s) i t env [] t.id p waits
        reads (arrive-Standing m sender pipe s i t [] d env st arrived mine)

  one_response :
      (sink sink' : Sink) (p : Payload response)
      → Extends h t.id sink sink' (http_response p ∷ [])
      → Gets sink sink' p.status_code p.body
  unfolding status_of read_body
  one_response sink sink' p (fs, sent, says) = (
    fs,
    sent,
    _,
    one_taken (frame_bytes fs) p (Says-Hears h t.id fs (http_response p ∷ []) says),
    buffered p.status_code p.headers p.body,
    refl,
    refl,
    refl,
    refl,
  )

  module _ (lib : HttpLib) (laws : RecorderLaws lib) (handler : lib.Request → HttpProgram)
      (req : Payload request) (sink : Sink) {r : lib.Request}
      (built : build_request lib req.url req ≡ ok r) (three : 100 ≤ first_code (handler r))
      (digits : first_code (handler r) < 1000) where
    dispatch_streamed :
        dispatch_request h (handler_of h (streaming_service lib handler)) t.id req sink
        ≡ dispatch_request h (streaming_handler (serve_streaming lib h handler)) t.id req sink
    unfolding dispatch_request handler_of streaming_service
    dispatch_streamed =
        ap (after_stream h t.id)
          (adapter_is_stream lib h handler req (new_response_writer t.id) sink)

    streamed :
        Sane Good (handler r) []
        → Gets sink
            (dispatch_request h (handler_of h (streaming_service lib handler)) t.id req sink)
            (u16 (first_code (handler r)))
            (all_written (handler r))
    unfolding status_of read_body read_pipe
    streamed sane =
        let (fs, sent, got) =
          handler_output_is_body h rel accepts sender pipe s i t good_id st waits nothing reader lib
            handler req sink built sane in
        let bs : List Bytes = body_of (handler r) in
        (
          fs,
          dispatch_streamed ∙ sent,
          _,
          got,
          streaming _ _,
          refl,
          refl,
          ap some (head_of-status (handler r) []),
          read_pipe-writes bs [] (closed none ∷ [])
              ∙ ap (λ b. some (b, none)) (concat-body_of (handler r)),
        )

    -- What the recorder makes of the handler's calls.
    abbrev recorded : Payload response
    recorded =
        let result = lib.record_response (handler r) in
        record {
          status_code = u16 result.status_code;
          headers = result.header;
          body = (lib.read_all result.body).0;
        }

    serve_buffered_lem : serve_buffered lib handler req ≡ ok recorded
    unfolding serve_buffered
    serve_buffered_lem = rw built

    buffered_once :
        Good response recorded
        → Gets sink
            (dispatch_request h (handler_of h (answers (serve_buffered lib handler))) t.id req sink)
            (u16 (first_code (handler r)))
            (all_written (handler r))
    unfolding handler_of
    buffered_once good =
        subst (λ c. Gets sink sink' c (all_written (handler r)))
          (ap u16 (laws.status (handler r) three digits))
          (subst (Gets sink sink' recorded.status_code) (ap (λ x. x.0) (laws.content (handler r))) (
            one_response sink sink' recorded (
              plain_answers_once h rel t.id good_id (serve_buffered lib handler) req recorded sink
                (inl serve_buffered_lem) good)))
      where
        sink' : Sink
        sink' =
            dispatch_request h (handler_of h (answers (serve_buffered lib handler))) t.id req sink

    -- `HTTPHandler` with any options, in a mode that carries what the handler writes and over a sender
    -- that rejects nothing. The handler's status has three digits, and the frames reach a caller whose
    -- goroutine waits under the request's id, with an empty queue and a reader that stays. Then `Request`
    -- returns the status of the handler's first `WriteHeader` (200 without one before a write, a flush or
    -- the return), and `io.ReadAll` of the body gives the bytes of all its writes and no error. In this
    -- the buffered and the streaming adapter do not differ.
    pub options_leave_response :
        (opts : List (HttpHandlerConfig → HttpHandlerConfig))
        → Sane Good (handler r) []
        → Good response recorded
        → Gets sink
            (dispatch_request h (handler_of h (http_handler lib handler opts)) t.id req sink)
            (first_code (handler r))
            (all_written (handler r))
    unfolding http_handler
    options_leave_response opts sane good =
        let small : u16 (first_code (handler r)) ≡ first_code (handler r) = omega arith in
        subst
          (λ c.
            Gets sink
              (dispatch_request h (handler_of h (http_handler lib handler opts)) t.id req sink) c
              (all_written (handler r)))
          small
          (elim (configured opts (record { streaming = false })).streaming
            as (λ b.
              Gets sink
                (dispatch_request h
                  (handler_of h (
                    if b
                    then streaming_service lib handler
                    else answers (serve_buffered lib handler)))
                  t.id req sink)
                (u16 (first_code (handler r))) (all_written (handler r))) [
                  | true ↦ streamed sane
                  | false ↦ buffered_once good
                ])
