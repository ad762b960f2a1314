-- ===== src/Examples/Echo.antt =====
-- What a caller gets from the `/echo` handler of golang/examples/embedded_handler/main.go.
use how.Base.{
  ℕ, List, Bytes, codes, ◌≡◌, refl, ap, ◌∙◌, subst, [], ◌∷◌, ◌++◌, arith, bytes_eq, append-nil,
  if◌then◌else◌,
}
use how.Outcome.{ok}
use how.Protocol.Message.{Payload, Headers, request}
use how.Protocol.Binary.{AnyId, AnyPayload}
use how.Handler.Send.{Channel, Transport, Sink}
use how.Handler.HttpWriter.{HttpProgram, ret, do_header, do_write_header, do_write, do_flush}
use how.Handler.Http.{HttpLib, BodyReads, last, more}
use how.Handler.Built.{pairs, with_headers, build_request-parts}
use how.Handler.Service.{http_handler, handler_of}
use how.Handler.Dispatch.{dispatch_request}
use how.Handler.StreamSteps.{Sane}
use how.Handler.Forwarding.{Accepts}
use how.Handler.Saying.{Reliable}
use how.Caller.Pump.{Pipe}
use how.Caller.System.{Thread, awaiting, System}
use how.Caller.Body.{Open}
use how.Caller.Delivery.{Standing}
use how.EndToEnd.Whole.{peer_mode}
use how.EndToEnd.Promised.{RecorderLaws, first_code, all_written}
use how.EndToEnd.SameResponse.{Gets, options_leave_response}
use how.Examples.{RequestView, mux, echo, copy_body, hello}

-- All bytes that a body yields, whatever error ends it.
abbrev pub bytes_of : BodyReads → Bytes
bytes_of (last p e) = p
bytes_of (more p reads) = p ++ bytes_of reads

-- What net/http promises of a server request made by `http.NewRequestWithContext`: its body reads as
-- the bytes it was made with, and adding a header leaves the body alone.
pub record ViewLaws (lib : HttpLib) (view : RequestView lib) : Type 0 where
  pub body :
      (method url content : Bytes) (r : lib.Request)
      → lib.new_request method url content ≡ ok r
      → bytes_of (view.body_of r) ≡ content
  pub headers :
      (key v : Bytes) (r : lib.Request) → view.body_of (lib.header_add key v r) ≡ view.body_of r

module _ (lib : HttpLib) (view : RequestView lib) (faithful : ViewLaws lib view) where
  body_of-with_headers :
      (kvs : List (Bytes × Bytes)) (r : lib.Request)
      → view.body_of (with_headers lib kvs r) ≡ view.body_of r
  body_of-with_headers [] r = refl
  body_of-with_headers ((key, v) ∷ kvs) r =
      body_of-with_headers kvs (lib.header_add key v r) ∙ faithful.headers key v r

  -- The request that the adapter builds has the body of the request that came.
  body_of-build_request :
      (url : Bytes) (req : Payload request) (r : lib.Request)
      → lib.new_request req.method url req.body ≡ ok r
      → bytes_of (view.body_of (with_headers lib (pairs req.headers) r)) ≡ req.body
  body_of-build_request url req r made =
      ap bytes_of (body_of-with_headers (pairs req.headers) r)
      ∙ faithful.body req.method url req.body r made

all_written-copy_body : (reads : BodyReads) → all_written (copy_body reads) ≡ bytes_of reads
unfolding copy_body
all_written-copy_body (last [] e) = refl
all_written-copy_body (last (b ∷ p) e) = append-nil (b ∷ p)
all_written-copy_body (more [] reads) = all_written-copy_body reads
all_written-copy_body (more (b ∷ p) reads) = ap (λ l. (b ∷ p) ++ l) (all_written-copy_body reads)

any-Sane : (p : HttpProgram) (headers : Headers) → Sane AnyPayload p headers
any-Sane ret headers = tt
any-Sane (do_header edit rest) headers = any-Sane rest (edit headers)
any-Sane (do_write_header code rest) headers = (tt, any-Sane rest headers)
any-Sane (do_write p rest) headers = (tt, tt, (λ n e. any-Sane (rest n e) headers))
any-Sane (do_flush rest) headers = (tt, any-Sane rest headers)

module _ (h : Channel) (rel : Reliable h AnyId AnyPayload) (accepts : Accepts h)
    (sender : Transport) (pipe : ℕ → Pipe) (s : System) (i : ℕ) (t : Thread)
    (st : Standing (peer_mode h) sender pipe s i t []) (waits : t.phase ≡ awaiting)
    (nothing : t.ops ≡ []) (reader : Open (pipe t.addr)) where
  -- The example serves a request for `/echo` to a caller whose goroutine waits under the request's id,
  -- in a mode that carries every message and over a sender that rejects nothing. Then `Request` returns
  -- status 200, and `io.ReadAll` of the body gives the bytes of the body in the request that came, and
  -- no error.
  pub echo_returns_body :
      (lib : HttpLib) (laws : RecorderLaws lib) (view : RequestView lib)
      (faithful : ViewLaws lib view) (req : Payload request) (sink : Sink) (made : lib.Request)
      → lib.new_request req.method req.url req.body ≡ ok made
      → view.pattern_of (with_headers lib (pairs req.headers) made) ≡ codes "/echo"
      → Gets h rel accepts sender pipe s i t tt st waits nothing reader sink
          (dispatch_request h (handler_of h (http_handler lib (mux lib view) [])) t.id req sink)
          200
          req.body
  unfolding mux echo bytes_eq
  echo_returns_body lib laws view faithful req sink made is_made at_echo =
      let r = with_headers lib (pairs req.headers) made in
      let built = build_request-parts lib req.url req made is_made in
      let echoes : mux lib view r ≡ echo (view.content_type_of r) (view.body_of r) =
        ap
          (λ p.
            if bytes_eq p (codes "/hello")
            then hello (view.method_of r) (view.url_of r)
            else if bytes_eq p (codes "/echo")
            then echo (view.content_type_of r) (view.body_of r)
            else view.not_found r)
          at_echo in
      let code : first_code (mux lib view r) ≡ 200 = ap first_code echoes in
      let body : all_written (mux lib view r) ≡ req.body =
        ap all_written echoes
        ∙ all_written-copy_body (view.body_of r)
        ∙ body_of-build_request lib view faithful req.url req made is_made in
      subst
        (λ c.
          Gets h rel accepts sender pipe s i t tt st waits nothing reader sink
            (dispatch_request h (handler_of h (http_handler lib (mux lib view) [])) t.id req sink) c
            req.body)
        code
        (subst
          (Gets h rel accepts sender pipe s i t tt st waits nothing reader sink
            (dispatch_request h (handler_of h (http_handler lib (mux lib view) [])) t.id req sink)
            (first_code (mux lib view r)))
          body
          (options_leave_response h rel accepts sender pipe s i t tt st waits nothing reader lib
            laws (mux lib view) req sink built (omega (arith, code)) (omega (arith, code)) []
            (any-Sane (mux lib view r) []) tt))
