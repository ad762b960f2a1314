-- ===== src/EndToEnd/Concurrent.antt =====
-- A `HOWHandler` that serves many requests and a `Caller` that has many (golang/client/client.go), with a
-- link between them that delivers what was sent, in order: one request among all the others.
use how.Base.{ℕ, Bytes, ◌≡◌, ◌≢◌, sym, ap, ◌∙◌, List, [], ◌∷◌, ◌++◌, some, false, get_elem?, All}
use how.Outcome.{ok}
use how.Protocol.Message.{Envelope, Payload, request, type_http_request}
use how.Protocol.Codecs.{MsgPackLaws}
use how.Protocol.Wire.{unmarshal, decode_payload}
use how.Handler.Send.{Channel, Sink, Transport}
use how.Handler.Dispatch.{dispatch_request}
use how.Handler.Forwarding.{Accepts}
use how.Handler.Service.{Service, handler_of}
use how.Server
use how.Server.{Job}
use how.Server.Apart.{NotFor}
use how.Server.Transcript.{said, said-append, will_say}
use how.Server.Tracking.{nothing_yet}
use how.Server.Interleaving.{served_as_if_alone}
use how.Caller.{Mode}
use how.Caller.Pump.{Pipe}
use how.Caller.System.{Thread, ended, System, Label, takes, run}
use how.Caller.Body.{Open}
use how.Caller.Hearing.{after_hearing}
use how.Caller.Sole.{IsSole}
use how.Caller.Reply.{Telling, Followed, request_follows_messages, Followed-hears_all}
use how.EndToEnd.Whole.{peer_mode}

module _ (h : Channel) (laws : MsgPackLaws h.mp) (is_binary : h.text_mode ≡ false)
    (accepts : Accepts h) (service : Service) (k : Bytes) where
  -- A binary-mode handler over a sender that rejects nothing has received the request once under the id
  -- `k`, among frames under other ids, and its goroutines have moved in any order. Of what it sent, in
  -- order, a first part was delivered to a caller in which `Request` waits under `k`, in a goroutine that
  -- alone has this id and its queue and that nobody stops; this caller has done anything else in between.
  -- Then the messages delivered under `k`, those on their way and those that the handler's goroutine will
  -- still send are exactly what `dispatchRequest` sends for this request alone; the caller's goroutine
  -- has heard the first of those delivered, in order, with the others in its queue; and after enough takes
  -- it is what all of them make of it.
  pub response_among_others :
      (before after : List Server.Label) (bytes : Bytes) (env : Envelope) (req : Payload request)
      (sender : Transport) (pipe : ℕ → Pipe) (i : ℕ) (t : Thread) (s : System)
      (delivered on_way : Sink) (ls : List Label)
      → All (NotFor h k) before
      → All (NotFor h k) after
      → unmarshal h.mp bytes ≡ ok env
      → env.type ≡ type_http_request
      → env.request_id ≡ k
      → decode_payload h.mp request env ≡ ok req
      → (Server.run h service (before ++ Server.arrive bytes ∷ after) nothing_yet).sink
        ≡ delivered ++ on_way
      → Open (pipe t.addr)
      → t.phase ≢ ended
      → t.id ≡ k
      → IsSole (peer_mode h) sender pipe i t [] s
      → Telling (peer_mode h) i k ls (said h k delivered)
      → let m = peer_mode h in
        let s' = run m sender pipe ls s in
        let server = Server.run h service (before ++ Server.arrive bytes ∷ after) nothing_yet in
        ((x : ℕ) × (j : Job) × (get_elem? server.jobs x ≡ some j)
          × (j.id ≡ k)
          × (said h k delivered ++ said h k on_way ++ will_say h j.work
              ≡ said h k (dispatch_request h (handler_of h service) k req [])))
        × Followed m sender pipe i k t (said h k delivered) s'
        × ((es : List Envelope) × (get_elem? (run m sender pipe (takes i es) s').threads i
              ≡ some (after_hearing t (said h k delivered))))
  response_among_others before after bytes env req sender pipe i t s delivered on_way ls foreign
        foreign' arrived is_request mine decoded link reader live same sole tells =
      let m : Mode = peer_mode h in
      let (x, j, at, own, whole, ended_) =
        served_as_if_alone h laws is_binary accepts service k before after bytes env req foreign
          foreign' arrived is_request mine decoded in
      let followed : Followed m sender pipe i k t (said h k delivered) (run m sender pipe ls s) =
        request_follows_messages m sender pipe i k t [] [] s reader live same sole tt tells in
      (
        (
          x,
          j,
          at,
          own,
          ap (λ l. l ++ will_say h j.work)
                (sym (ap (said h k) link ∙ said-append h k delivered on_way))
              ∙ whole,
        ),
        followed,
        Followed-hears_all m sender pipe i k t (said h k delivered) (run m sender pipe ls s) reader
            followed,
      )
