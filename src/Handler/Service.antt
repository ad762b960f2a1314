-- ===== src/Handler/Service.antt =====
-- golang/client/handler.go and client.go: how a `HOWHandler` and the handlers that it serves are built.
use how.Base.{Bytes, ℕ, length, List, [], ◌∷◌, Bool, true, false, none, some, if◌then◌else◌}
use how.Outcome.{Error, Result, ok, err, ◌>>=◌, map_err, wrapped}
use how.Protocol.Message.{Headers, Payload, request, response}
use how.Protocol.Codecs.{MsgPack, Json}
use how.Handler.Send.{Channel, Transport}
use how.Handler.Writer.{StreamProgram, ret, do_write_header, do_write, do_close, run_stream}
use how.Handler.HttpWriter.{HttpProgram, u16, status_ok}
use how.Handler.Http.{HttpLib, build_request}
use how.Handler.Adapters.{forward_stream, serve_buffered}
use how.Handler.Dispatch.{Handler, plain, streaming}

-- A `Handler` by the calls that it makes: a plain one, or a `StreamingHandler`.
pub data Service : Type 0 where
  answers : (Payload request → Result (Payload response)) → Service
  streams : (Payload request → StreamProgram) → Service

unfoldable pub handler_of : Channel → Service → Handler
handler_of h (answers serve) = plain serve
handler_of h (streams serve) = streaming (λ req. run_stream h (serve req))

-- `HandlerFunc`
unfoldable pub handler_func : (Payload request → Result (Payload response)) → Service
handler_func f = answers f

-- `if !s.started { s.WriteHeader(http.StatusOK) }`
started_then : Bool → ℕ → Headers → StreamProgram → StreamProgram
started_then true code headers rest = rest
started_then false code headers rest = do_write_header (u16 code) headers rest

-- An `http.Handler` behind `streamingResponseWriter`, by the calls of the `ResponseWriter` below it;
-- `headers` is `hdr`, the Boolean is `started`. `a.Handler.ServeHTTP(srw, httpReq)`, the implicit `WriteHeader`, and `w.Close()`.
unfoldable pub as_stream : HttpProgram → Headers → Bool → StreamProgram
unfolding started_then
as_stream HttpProgram.ret headers started =
    started_then started status_ok headers (do_close (ret none))
as_stream (HttpProgram.do_header edit rest) headers started = as_stream rest (edit headers) started
as_stream (HttpProgram.do_write_header code rest) headers started =
    started_then started code headers (as_stream rest headers true)
as_stream (HttpProgram.do_write [] rest) headers started =
    started_then started status_ok headers (as_stream (rest 0 none) headers true)
as_stream (HttpProgram.do_write (b ∷ p) rest) headers started =
    started_then started status_ok headers (
      do_write (b ∷ p) (λ e. elim e [
        | none ↦ as_stream (rest (length (b ∷ p)) none) headers true
        | some x ↦ as_stream (rest 0 (some x)) headers true
      ]))
as_stream (HttpProgram.do_flush rest) headers started =
    started_then started status_ok headers (as_stream rest headers true)

-- `httpHandlerConfig` and its options
pub record HttpHandlerConfig : Type 0 where
  pub streaming : Bool

unfoldable pub with_streaming : HttpHandlerConfig → HttpHandlerConfig
with_streaming c = record c { streaming = true }

module _ {C : Type 0} where
  -- `for _, opt := range opts { opt(c) }`
  unfoldable pub configured : List (C → C) → C → C
  configured [] c = c
  configured (opt ∷ opts) c = configured opts (opt c)

module _ (lib : HttpLib) where
  unfoldable pub stream_request : (lib.Request → HttpProgram) → Result lib.Request → StreamProgram
  stream_request handler (err e) = ret (some e)
  stream_request handler (ok r) = as_stream (handler r) [] false

  -- `streamingHTTPHandlerAdapter.ServeHTTPOverWSStream`, by its calls of the `ResponseWriter`
  unfoldable pub streaming_service : (lib.Request → HttpProgram) → Service
  unfolding stream_request
  streaming_service handler =
      streams (λ req. stream_request handler (build_request lib req.url req))

  -- `HTTPHandler`
  unfoldable pub http_handler :
      (lib.Request → HttpProgram) → List (HttpHandlerConfig → HttpHandlerConfig) → Service
  http_handler handler opts =
      if (configured opts (record { streaming = false })).streaming
      then streaming_service handler
      else answers (serve_buffered lib handler)

  -- `ForwardTo`; `parse` is `url.Parse` and then `String()`. A `ForwardHandler` has both methods, and
  -- `dispatchRequest` prefers the streaming one.
  unfoldable pub forward_to : (Bytes → Result Bytes) → Bytes → Result Service
  forward_to parse target = do
    u ← map_err (wrapped "parse target URL") (parse target)
    ok (streams (λ req. forward_stream lib u req))

-- `HOWHandler`
pub record HowHandler : Type 0 where
  pub handler : Service
  pub channel : Channel

-- `WithHandlerTextMode`
unfoldable pub with_handler_text_mode : HowHandler → HowHandler
with_handler_text_mode h = record h { channel = record h.channel { text_mode = true } }

-- `NewHandler`
unfoldable pub new_handler :
    MsgPack
    → Json
    → (Error → Bytes)
    → Service
    → Transport
    → List (HowHandler → HowHandler)
    → HowHandler
new_handler mp js error_text handler sender opts = configured opts (record {
  handler = handler;
  channel = record {
    mp = mp;
    js = js;
    error_text = error_text;
    sender = sender;
    text_mode = false;
  };
})
