-- ===== src/Examples.antt =====
-- golang/examples/embedded_handler/main.go and golang/examples/forward_proxy/main.go.
pub mod Echo
use how.Base.{Bytes, codes, List, [], ◌∷◌, ◌++◌, none, bytes_eq, if◌then◌else◌, ℕ}
use how.Base.Keyed.{insert}
use how.Outcome.{Error, Result, ok, err}
use how.Protocol.Codecs.{MsgPack, Json}
use how.Handler.HttpWriter.{HttpProgram, ret, do_header, do_write_header, do_write, status_ok}
use how.Handler.Http.{HttpLib, BodyReads, last, more}
use how.Handler.Service.{Service, http_handler, forward_to, new_handler}
use how.Server.{Server, run}
use how.Howclient.{
  Conn, Exit, invalid_target, dial_failed, read_failed, ws_sender, how_v1, read_loop,
}

-- What the handlers read of a `*http.Request`, and the pattern under which `http.ServeMux` serves it.
pub record RequestView (lib : HttpLib) : Type 0 where
  pub pattern_of : lib.Request → Bytes
  pub method_of : lib.Request → Bytes
  pub url_of : lib.Request → Bytes
  pub content_type_of : lib.Request → Bytes
  pub body_of : lib.Request → BodyReads
  -- what the mux does without a pattern
  pub not_found : lib.Request → HttpProgram

-- `fmt.Fprintf(w, "Hello from embedded handler! Method: %s, URL: %s", …)`: one `Write`
unfoldable pub hello : Bytes → Bytes → HttpProgram
hello method url =
    do_write (codes "Hello from embedded handler! Method: " ++ method ++ codes ", URL: " ++ url)
      (λ n e. ret)

-- The loop over `r.Body.Read(buf)`; what `w.Write` returns is not looked at.
unfoldable pub copy_body : BodyReads → HttpProgram
copy_body (last [] read_err) = ret
copy_body (last (b ∷ p) read_err) = do_write (b ∷ p) (λ n e. ret)
copy_body (more [] reads) = copy_body reads
copy_body (more (b ∷ p) reads) = do_write (b ∷ p) (λ n e. copy_body reads)

unfoldable pub echo : Bytes → BodyReads → HttpProgram
echo content_type body =
    do_header (insert (codes "Content-Type") (content_type ∷ []))
      (do_write_header status_ok (copy_body body))

module _ (lib : HttpLib) (view : RequestView lib) where
  unfoldable pub mux : lib.Request → HttpProgram
  mux r =
      if bytes_eq (view.pattern_of r) (codes "/hello")
      then hello (view.method_of r) (view.url_of r)
      else if bytes_eq (view.pattern_of r) (codes "/echo")
      then echo (view.content_type_of r) (view.body_of r)
      else view.not_found r

module _ (mp : MsgPack) (js : Json) (error_text : Error → Bytes) (lib : HttpLib)
    (dial : Bytes → List Bytes → Result Conn) where
  -- `h := client.NewHandler(handler, sender)` and the loop: any failing read is fatal.
  serve_until_error : Service → Result Conn → Exit × Server
  serve_until_error handler (err e) = (dial_failed e, record { sink = []; jobs = [] })
  serve_until_error handler (ok conn) =
      let h = new_handler mp js error_text handler (ws_sender conn) [] in
      (
        read_failed conn.read_error,
        run h.channel h.handler (read_loop conn.reads) (record { sink = []; jobs = [] }),
      )

  -- `main` of embedded_handler
  unfoldable pub embedded_main : RequestView lib → Exit × Server
  unfolding serve_until_error
  embedded_main view =
      serve_until_error (http_handler lib (mux lib view) [])
        (dial (codes "ws://localhost:8888/ws") how_v1)

  proxy_with : Result Service → Exit × Server
  unfolding serve_until_error
  proxy_with (err e) = (invalid_target e, record { sink = []; jobs = [] })
  proxy_with (ok handler) = serve_until_error handler (dial (codes "ws://localhost:8888/ws") how_v1)

  -- `main` of forward_proxy
  unfoldable pub proxy_main : (Bytes → Result Bytes) → Exit × Server
  unfolding proxy_with
  proxy_main parse = proxy_with (forward_to lib parse (codes "http://localhost:8080"))
