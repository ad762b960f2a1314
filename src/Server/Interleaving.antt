-- ===== src/Server/Interleaving.antt =====
-- Requests that a `HOWHandler` (golang/client/client.go) serves at the same time do not show in one
-- another's answers, however their goroutines are interleaved.
use how.Base.{
  ℕ, zero, suc, Bytes, ◌≡◌, refl, sym, ap, ◌∙◌, subst, List, [], ◌∷◌, ◌++◌, length, some,
  append_assoc, append-nil, get_elem?, bytes_eq_iff, All, false, if◌then◌else◌,
}
use how.Outcome.{ok}
use how.Protocol.Message.{Envelope, Payload, request}
use how.Protocol.Codecs.{MsgPackLaws}
use how.Protocol.Wire.{unmarshal}
use how.Handler.Send.{Channel, Sink}
use how.Handler.Dispatch.{handle_binary_message, dispatch_request}
use how.Handler.Forwarding.{Accepts}
use how.Handler.Service.{Service, handler_of}
use how.Server.{
  Work, finished, Job, Server, Label, arrive, spawn, advance_work, run_alone, step, run,
}
use how.Server.Alone.{job_ends_as_dispatch}
use how.Server.Transcript.{said, said-Extends, will_say, IsUnder, advance_work-Advanced}
use how.Handler.Reception.{handle_request}
use how.Protocol.Wire.{decode_payload}
use how.Protocol.Message.{type_http_request}
use how.Server.Apart.{NotFor, spawn-IsUnder, carrier}
use how.Server.Tracking.{nothing_yet, OnTrack, run-OnTrack, start-OnTrack, run-Unseen, run-append}

module _ (h : Channel) (laws : MsgPackLaws h.mp) (is_binary : h.text_mode ≡ false)
    (accepts : Accepts h) (service : Service) (k : Bytes) where
  -- A goroutine that ran alone said at the end what it would say at the start.
  alone-says :
      (n : ℕ) (w : Work) (sink : Sink)
      → IsUnder k w
      → let r = run_alone h n k w sink in
        said h k r.1 ++ will_say h r.0 ≡ said h k sink ++ will_say h w
  unfolding run_alone
  alone-says zero w sink under = refl
  alone-says (suc n) w sink under =
      let r : Work × Sink = advance_work h k w sink in
      let (under', (ms, sent, total)) =
        advance_work-Advanced h (carrier h laws is_binary accepts service k) accepts k w sink
          under in
      let now : said h k r.1 ≡ said h k sink ++ ms =
        said-Extends h k k sink r.1 ms sent
        ∙ ap (λ b. said h k sink ++ (if b then ms else [])) ((bytes_eq_iff k k).1 refl) in
      alone-says n r.0 r.1 under'
      ∙ ap (λ l. l ++ will_say h r.0) now
      ∙ append_assoc (said h k sink) ms (will_say h r.0)
      ∙ ap (λ l. said h k sink ++ l) (sym total)

  dispatch-says :
      (req : Payload request)
      → will_say h (spawn h service k req)
        ≡ said h k (dispatch_request h (handler_of h service) k req [])
  unfolding said will_say
  dispatch-says req =
      let (n, ends) = job_ends_as_dispatch h k service req [] in
      sym (alone-says n (spawn h service k req) [] (spawn-IsUnder h service k req))
      ∙ ap (λ r. said h k r.1 ++ will_say h r.0) ends
      ∙ append-nil (said h k (dispatch_request h (handler_of h service) k req []))

  -- In binary mode, over a sender that rejects nothing: a request is received once under its id, among
  -- any other frames under other ids, and the goroutines of all requests move in any order. At every
  -- moment there is a goroutine with the request's id such that what was sent under the id, followed
  -- by what that goroutine will still send, is exactly what `dispatchRequest` sends for this request
  -- alone. When it has ended, nothing is left to send.
  pub served_as_if_alone :
      (before after : List Label) (bytes : Bytes) (env : Envelope) (req : Payload request)
      → All (NotFor h k) before
      → All (NotFor h k) after
      → unmarshal h.mp bytes ≡ ok env
      → env.type ≡ type_http_request
      → env.request_id ≡ k
      → decode_payload h.mp request env ≡ ok req
      → let s = run h service (before ++ arrive bytes ∷ after) nothing_yet in
        (i : ℕ) × (j : Job) × (get_elem? s.jobs i ≡ some j)
        × (j.id ≡ k)
        × (said h k s.sink ++ will_say h j.work
            ≡ said h k (dispatch_request h (handler_of h service) k req []))
        × (j.work ≡ finished
            → said h k s.sink ≡ said h k (dispatch_request h (handler_of h service) k req []))
  unfolding run said will_say
  served_as_if_alone before after bytes env req foreign foreign' arrived is_request mine decoded =
      let s₀ : Server = run h service before nothing_yet in
      let s : Server = run h service (before ++ arrive bytes ∷ after) nothing_yet in
      let started : handle_binary_message h bytes s₀.sink ≡ (some (k, req), s₀.sink) =
        handle_request h bytes s₀.sink env req arrived is_request decoded
        ∙ ap (λ x. (some (x, req), s₀.sink)) mine in
      let on : OnTrack h laws is_binary accepts service k (length s₀.jobs)
          (will_say h (spawn h service k req)) s =
        subst
          (OnTrack h laws is_binary accepts service k (length s₀.jobs)
            (will_say h (spawn h service k req)))
          (sym (
            run-append h laws is_binary accepts service k before (arrive bytes ∷ after)
              nothing_yet))
          (run-OnTrack h laws is_binary accepts service k (length s₀.jobs) _ after
            (step h service (arrive bytes) s₀) foreign'
            (start-OnTrack h laws is_binary accepts service k s₀ bytes req started (
              run-Unseen h laws is_binary accepts service k before nothing_yet foreign
                ((λ j u at. absurd (cc)), refl)))) in
      let whole = on.total ∙ dispatch-says req in
      (
        length s₀.jobs,
        on.job,
        on.at,
        on.own,
        whole,
        (λ ended.
            sym (append-nil (said h k s.sink))
            ∙ ap (λ w. said h k s.sink ++ will_say h w) (sym ended)
            ∙ whole),
      )
