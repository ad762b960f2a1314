-- ===== src/Handler/Adapters.antt =====
-- golang/client/handler.go: `ForwardHandler`, `HTTPHandlerAdapter` and `streamingHTTPHandlerAdapter`.
use how.Base.{Bytes, [], ◌∷◌, ◌++◌, Option, none, some}
use how.Outcome.{Error, Result, ok, err, ◌>>=◌, map_err, wrapped}
use how.Protocol.Message.{Payload, request, response}
use how.Handler.Send.{Channel, Sink}
use how.Handler.Writer
use how.Handler.Writer.{ResponseWriter, StreamProgram, ret, do_write_header, do_write, do_close}
use how.Handler.HttpWriter
use how.Handler.HttpWriter.{HttpProgram, u16}
use how.Handler.Http.{HttpLib, HttpResponse, BodyReads, last, more, build_request}

-- The loop over `resp.Body.Read`: any read error, a clean end or not, leaves it by `w.Close()`.
unfoldable pub pump_body : BodyReads → StreamProgram
pump_body (last [] read_err) = do_close (ret none)
pump_body (last (b ∷ chunk) read_err) =
    do_write (b ∷ chunk) (λ e. elim e [ none ↦ do_close (ret none) | some x ↦ ret (some x) ])
pump_body (more [] reads) = pump_body reads
pump_body (more (b ∷ chunk) reads) =
    do_write (b ∷ chunk) (λ e. elim e [ none ↦ pump_body reads | some x ↦ ret (some x) ])

-- `body, err := io.ReadAll(…)` where an error ends the call.
read_body : Bytes × Option Error → Result Bytes
read_body (body, none) = ok body
read_body (body, some e) = err (wrapped "read response body" e)

stream_response : Result HttpResponse → StreamProgram
stream_response (err e) = ret (some e)
stream_response (ok resp) = do_write_header (u16 resp.status_code) resp.header (pump_body resp.body)

module _ (lib : HttpLib) where
  -- `targetURL`, the request, and `h.Client.Do`; `target` is `h.Target.String()`.
  unfoldable pub exchange : Bytes → Payload request → Result HttpResponse
  exchange target req = do
    r ← build_request lib (target ++ req.url) req
    map_err (wrapped "forward request") (lib.do_request r)

  -- `ForwardHandler.ServeHTTPOverWS`
  unfoldable pub forward : Bytes → Payload request → Result (Payload response)
  unfolding read_body
  forward target req = do
    resp ← exchange target req
    body ← read_body (lib.read_all resp.body)
    ok (record { status_code = u16 resp.status_code; headers = resp.header; body = body })

  -- `ForwardHandler.ServeHTTPOverWSStream`
  unfoldable pub forward_stream : Bytes → Payload request → StreamProgram
  unfolding stream_response
  forward_stream target req = stream_response (exchange target req)

  -- `HTTPHandlerAdapter.ServeHTTPOverWS`; the error of `io.ReadAll` is dropped.
  unfoldable pub serve_buffered :
      (lib.Request → HttpProgram) → Payload request → Result (Payload response)
  serve_buffered handler req = do
    r ← build_request lib req.url req
    let result = lib.record_response (handler r)
    ok (record {
      status_code = u16 result.status_code;
      headers = result.header;
      body = (lib.read_all result.body).0;
    })

  module _ (h : Channel) where
    run_handler : HttpProgram → ResponseWriter → Sink → Option Error × ResponseWriter × Sink
    run_handler program w sink =
        let (s, sink₁) = HttpWriter.run_http h program (HttpWriter.new_streaming_writer w) sink in
        let (s', sink₂) = HttpWriter.ensure_header h s sink₁ in
        (none, s'.rw, Writer.close h s'.rw sink₂)

    -- `streamingHTTPHandlerAdapter.ServeHTTPOverWSStream`
    unfoldable pub serve_streaming :
        (lib.Request → HttpProgram)
        → Payload request
        → ResponseWriter
        → Sink
        → Option Error × ResponseWriter × Sink
    unfolding run_handler
    serve_streaming handler req w sink = elim (build_request lib req.url req) [
      | err e ↦ (some e, w, sink)
      | ok r ↦ run_handler (handler r) w sink
    ]
