-- ===== src/Handler/Built.antt =====
-- What the request consists of that every adapter of golang/client/handler.go builds.
use how.Base.{Bytes, ◌≡◌, refl, ◌∙◌, List, [], ◌∷◌, ◌++◌, map, arith}
use how.Outcome.{ok}
use how.Protocol.Message.{Headers, Payload, request}
use how.Handler.Http.{HttpLib, add_values, add_headers, build_request}

-- Each value of a header with its key, in their order.
abbrev pub pairs : Headers → List (Bytes × Bytes)
pairs [] = []
pairs ((key, values) ∷ headers) = map (λ v. (key, v)) values ++ pairs headers

module _ (lib : HttpLib) where
  open lib use {Request, new_request, header_add}

  -- The headers are added one by one.
  abbrev pub with_headers : List (Bytes × Bytes) → Request → Request
  with_headers [] r = r
  with_headers ((key, v) ∷ kvs) r = with_headers kvs (header_add key v r)

  with_headers-values :
      (key : Bytes) (values : List Bytes) (kvs : List (Bytes × Bytes)) (r : Request)
      → with_headers (map (λ v. (key, v)) values ++ kvs) r
        ≡ with_headers kvs (add_values lib key values r)
  unfolding add_values
  with_headers-values key [] kvs r = refl
  with_headers-values key (v ∷ values) kvs r =
      with_headers-values key values kvs (header_add key v r)

  add_headers-pairs :
      (headers : Headers) (r : Request) → with_headers (pairs headers) r ≡ add_headers lib headers r
  unfolding add_headers
  add_headers-pairs [] r = refl
  add_headers-pairs ((key, values) ∷ headers) r =
      with_headers-values key values (pairs headers) r
      ∙ add_headers-pairs headers (add_values lib key values r)

  -- The request is made with the method and the body, and has all headers.
  pub build_request-parts :
      (url : Bytes) (req : Payload request) (r : Request)
      → new_request req.method url req.body ≡ ok r
      → build_request lib url req ≡ ok (with_headers (pairs req.headers) r)
  unfolding build_request
  build_request-parts url req r made =
      let added = add_headers-pairs req.headers r in ground (arith, added)
