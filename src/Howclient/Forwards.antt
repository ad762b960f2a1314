-- ===== src/Howclient/Forwards.antt =====
-- What the command of golang/cmd/howclient/main.go answers to a request.
use how.Base.{
  ℕ, Bytes, ◌≡◌, ◌≢◌, refl, sym, ap, ◌∙◌, List, [], ◌∷◌, ◌++◌, map, none, some, arith, append_assoc,
  get_elem?, All, All-append, bytes_eq_iff, if◌then◌else◌,
}
use how.Outcome.{Error, Result, ok}
use how.Protocol.Message.{Envelope, Payload, request, type_http_request}
use how.Protocol.Codecs.{MsgPack, Json, MsgPackLaws}
use how.Protocol.Wire.{unmarshal, decode_payload}
use how.Handler.Send.{Channel}
use how.Handler.HttpWriter.{u16}
use how.Handler.Http.{HttpLib, HttpResponse, BodyReads, last, more}
use how.Handler.Adapters.{forward_stream, exchange}
use how.Handler.Service.{Service, streams, new_handler, forward_to, handler_of, configured}
use how.Handler.StreamSteps.{start_of, stream_of}
use how.Handler.Forwarding.{Accepts, relayed, forward_relays}
use how.Server.{advance, arrive, Job, run}
use how.Server.Transcript.{said, said-Extends, will_say}
use how.Server.Apart.{NotFor, carrier}
use how.Server.Tracking.{nothing_yet}
use how.Server.Interleaving.{served_as_if_alone}
use how.Howclient.{given, Conn, WsMessage, ws_message, ws_sender, read_loop, main, serve, how_v1}
use how.Howclient.Said.{channel_over, said_on, said_on-written}
use how.Handler.Built.{pairs, with_headers, build_request-parts}
use how.Howclient.Exits.{Connected-serves}

read_loop-append :
    (xs ys : List (List ℕ × Bytes)) → read_loop (xs ++ ys) ≡ read_loop xs ++ read_loop ys
unfolding read_loop
read_loop-append [] ys = refl
read_loop-append ((moves, bytes) ∷ xs) ys =
    ap (λ l. map advance moves ++ arrive bytes ∷ l) (read_loop-append xs ys)
    ∙ sym (append_assoc (map advance moves) (arrive bytes ∷ read_loop xs) (read_loop ys))

moves-NotFor : (h : Channel) (k : Bytes) (moves : List ℕ) → All (NotFor h k) (map advance moves)
moves-NotFor h k [] = tt
moves-NotFor h k (i ∷ moves) = (tt, moves-NotFor h k moves)

-- The frames that were read bring nothing under the id `k`.
abbrev pub OthersRead : Channel → Bytes → List (List ℕ × Bytes) → Type 0
OthersRead h k reads = All (λ r. NotFor h k (arrive r.1)) reads

read_loop-NotFor :
    (h : Channel) (k : Bytes) (reads : List (List ℕ × Bytes))
    → OthersRead h k reads
    → All (NotFor h k) (read_loop reads)
unfolding read_loop
read_loop-NotFor h k [] others = tt
read_loop-NotFor h k ((moves, bytes) ∷ reads) others =
    All-append (NotFor h k) (map advance moves) (arrive bytes ∷ read_loop reads)
      (moves-NotFor h k moves) (others.0, read_loop-NotFor h k reads others.1)

module _ (mp : MsgPack) (js : Json) (error_text : Error → Bytes) (lib : HttpLib)
    (parse : Bytes → Result Bytes) (dial : Bytes → List Bytes → Result Conn)
    (server_url target : Bytes) where
  abbrev over : Conn → Channel
  over conn = channel_over mp js error_text conn

  abbrev forwards : Bytes → Service
  forwards u = streams (λ req. forward_stream lib u req)

  loop_state :
      (u : Bytes) (conn : Conn)
      → server_url ≢ []
      → target ≢ []
      → parse target ≡ ok u
      → dial server_url how_v1 ≡ ok conn
      → (main mp js error_text lib parse dial (given server_url target)).1
        ≡ run (over conn) (forwards u) (read_loop conn.reads) nothing_yet
  unfolding serve new_handler forward_to configured
  loop_state u conn some_server some_target parsed connected =
      ap (λ r. r.1)
        (Connected-serves mp js error_text lib parse dial server_url target (forwards u) conn
          (some_server, some_target, ground arith, connected))

  exchange_built :
      (u : Bytes) (req : Payload request) (r : lib.Request) (resp : HttpResponse)
      → lib.new_request req.method (u ++ req.url) req.body ≡ ok r
      → lib.do_request (with_headers lib (pairs req.headers) r) ≡ ok resp
      → exchange lib u req ≡ ok resp
  unfolding exchange
  exchange_built u req r resp made answered =
      let built = build_request-parts lib (u ++ req.url) req r made in ground (arith, built)

  -- The command was given its flags, a target that parses and a connection whose writes succeed. Among
  -- frames under other ids it read one request under the id `k`. `http.NewRequestWithContext` makes a
  -- request of its method, the target followed by its url, and its body; `Client.Do` of that request
  -- with every value of its headers added, in their order, gives a response. At the moment the last
  -- frame has been handled, wherever the goroutines then stand: what the connection's binary WebSocket
  -- messages say under `k`, followed by what the goroutine of `k` will still say, is the response's
  -- status (as 16 bits) and headers, each read of its body that returned bytes, in order, and the end.
  pub request_is_forwarded :
      (u : Bytes) (conn : Conn) (k : Bytes) (before after : List (List ℕ × Bytes)) (moves : List ℕ)
      (bytes : Bytes) (env : Envelope) (req : Payload request) (r : lib.Request)
      (resp : HttpResponse)
      → MsgPackLaws mp
      → server_url ≢ []
      → target ≢ []
      → parse target ≡ ok u
      → dial server_url how_v1 ≡ ok conn
      → ((sent : List WsMessage) (w : WsMessage) → conn.write sent w ≡ none)
      → conn.reads ≡ before ++ (moves, bytes) ∷ after
      → OthersRead (over conn) k before
      → OthersRead (over conn) k after
      → unmarshal mp bytes ≡ ok env
      → env.type ≡ type_http_request
      → env.request_id ≡ k
      → decode_payload mp request env ≡ ok req
      → lib.new_request req.method (u ++ req.url) req.body ≡ ok r
      → lib.do_request (with_headers lib (pairs req.headers) r) ≡ ok resp
      → let s = (main mp js error_text lib parse dial (given server_url target)).1 in
        (i : ℕ) × (j : Job) × (get_elem? s.jobs i ≡ some j)
        × (j.id ≡ k)
        × (said_on mp k (map ws_message s.sink) ++ will_say (over conn) j.work
            ≡ stream_of (start_of (u16 resp.status_code) resp.header) (relayed resp.body))
  unfolding read_loop handler_of ws_sender said
  request_is_forwarded u conn k before after moves bytes env req r resp laws some_server some_target
        parsed connected accepts reads others others' arrived is_request mine decoded made
        answered =
      let h : Channel = over conn in
      let exchanged : exchange lib u req ≡ ok resp = exchange_built u req r resp made answered in
      let quiet : Accepts h = λ sink f. accepts _ _ in
      let labels : read_loop conn.reads
          ≡ (read_loop before ++ map advance moves) ++ arrive bytes ∷ read_loop after =
        ap read_loop reads
        ∙ read_loop-append before ((moves, bytes) ∷ after)
        ∙ sym (
            append_assoc (read_loop before) (map advance moves) (arrive bytes ∷ read_loop after)) in
      let (i, j, at, own, whole, ended) =
        served_as_if_alone h laws refl quiet (forwards u) k (read_loop before ++ map advance moves)
          (read_loop after) bytes env req
          (All-append (NotFor h k) (read_loop before) (map advance moves)
            (read_loop-NotFor h k before others) (moves-NotFor h k moves))
          (read_loop-NotFor h k after others') arrived is_request mine decoded in
      let state =
        loop_state u conn some_server some_target parsed connected
        ∙ ap (λ ls. run h (forwards u) ls nothing_yet) labels in
      let alone =
        said-Extends h k k [] _ _ (
          forward_relays h (carrier h laws refl quiet (forwards u) k) k tt quiet lib u req [] resp
            exchanged tt (good resp.body))
        ∙ ap
            (λ b.
              if b
              then stream_of (start_of (u16 resp.status_code) resp.header) (relayed resp.body)
              else [])
            ((bytes_eq_iff k k).1 refl) in
      (
        i,
        j,
        ap (λ s. get_elem? s.jobs i) state ∙ at,
        own,
        ap (λ ms. ms ++ will_say h j.work) (said_on-written mp js error_text conn k _)
            ∙ ap (λ s. said h k s.sink ++ will_say h j.work) state
            ∙ whole
            ∙ alone,
      )
    where
      good : (b : BodyReads) → All (λ c. Unit {0}) (relayed b)
      good (last [] e) = tt
      good (last (c ∷ b) e) = (tt, tt)
      good (more [] b) = good b
      good (more (c ∷ x) b) = (tt, good b)
