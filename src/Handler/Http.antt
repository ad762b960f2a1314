-- ===== src/Handler/Http.antt =====
-- net/http, net/http/httptest and io as golang/client/handler.go calls them. Their code is not in the
-- repository, so they are parameters; the adding of the request's headers is the program's own.
use how.Base.{ℕ, Bytes, List, [], ◌∷◌, Option}
use how.Outcome.{Error, Result, ok, ◌>>=◌, map_err, wrapped}
use how.Protocol.Message.{Headers, Payload, request}
use how.Handler.HttpWriter.{HttpProgram}

-- What the calls `resp.Body.Read(buf)` return, in turn: bytes alone, and at last bytes (or none)
-- with an error, which is `io.EOF` at a clean end. No read returns more than the buffer holds.
pub data BodyReads : Type 0 where
  last : Bytes → Error → BodyReads
  more : Bytes → BodyReads → BodyReads

-- The fields of `http.Response` that the program reads.
pub record HttpResponse : Type 0 where
  pub status_code : ℕ
  pub header : Headers
  pub body : BodyReads

pub record HttpLib : Type 1 where
  pub Request : Type 0
  -- `http.NewRequestWithContext(ctx, method, url, body)`
  pub new_request : Bytes → Bytes → Bytes → Result Request
  -- `httpReq.Header.Add(key, v)`
  pub header_add : Bytes → Bytes → Request → Request
  -- `h.Client.Do(httpReq)`
  pub do_request : Request → Result HttpResponse
  -- `io.ReadAll`, whose error is nil at a clean end
  pub read_all : BodyReads → Bytes × Option Error
  -- `recorder.Result()` after the handler ran against `httptest.NewRecorder()`
  pub record_response : HttpProgram → HttpResponse

module _ (lib : HttpLib) where
  open lib use {Request, new_request, header_add}

  unfoldable pub add_values : Bytes → List Bytes → Request → Request
  add_values key [] r = r
  add_values key (v ∷ values) r = add_values key values (header_add key v r)

  -- `for key, values := range req.Headers { for _, v := range values { … } }`
  unfoldable pub add_headers : Headers → Request → Request
  unfolding add_values
  add_headers [] r = r
  add_headers ((key, values) ∷ headers) r = add_headers headers (add_values key values r)

  -- The request that every adapter builds first.
  unfoldable pub build_request : Bytes → Payload request → Result Request
  unfolding add_headers
  build_request url req = do
    r ← map_err (wrapped "create request") (new_request req.method url req.body)
    ok (add_headers req.headers r)
