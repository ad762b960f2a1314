-- ===== src/Handler/Receiving.antt =====
-- What a frame is to `HOWHandler` (golang/client/client.go), in either mode, and what follows for a frame
-- handler from its branches.
use native.Mathlib.Decide.{ℕ_discrete}
use how.Base.{sym, subst, Bytes, ◌≡◌, ◌≢◌, refl, List, [], ◌∷◌, none, some, arith, inl, inr}
use how.Outcome.{Error, ok, err, Result-cases}
use how.Protocol.Message.{
  Envelope, Payload, request, failure, type_http_request, err_invalid_message,
}
use how.Protocol.Wire.{Wire}
use how.Protocol.Reading.{Message, http_request, error, read_message, read_envelope}
use how.Handler.Send.{Channel, Sink}
use how.Handler.Dispatch.{Spawned}
use how.Handler.Saying.{Extends, Extends-nil}

-- The payload of the refusal of a request that cannot be decoded.
abbrev pub refusal : Channel → Error → Payload failure
refusal h e = record { code = err_invalid_message; message = h.error_text e }

-- What a frame is to the handler, with the goroutine to start, the id of the reply and the reply.
pub data Reception (h : Channel) (w : Wire) (bytes : Bytes)
    : Spawned → Bytes → List Message → Type 0 where
  to_serve :
      (id : Bytes) (req : Payload request)
      → read_message w bytes ≡ some (id, http_request req)
      → Reception h w bytes (some (id, req)) id []
  to_refuse :
      (env : Envelope) (e : Error)
      → w.unmarshal bytes ≡ ok env
      → env.type ≡ type_http_request
      → w.decode request env ≡ err e
      → Reception h w bytes none env.request_id (error (refusal h e) ∷ [])
  no_frame : (e : Error) → w.unmarshal bytes ≡ err e → Reception h w bytes none [] []
  other_type :
      (env : Envelope)
      → w.unmarshal bytes ≡ ok env
      → env.type ≢ type_http_request
      → Reception h w bytes none env.request_id []

-- A frame handler that starts what a request asks for, and otherwise at most refuses.
pub record IsReceiver (w : Wire) (handle : Bytes → Sink → Spawned × Sink)
    (refuse : Bytes → Error → Sink → Sink) : Type 0 where
  pub handle_no_frame :
      (bytes : Bytes) (sink : Sink) (e : Error)
      → w.unmarshal bytes ≡ err e
      → handle bytes sink ≡ (none, sink)
  pub handle_other_type :
      (bytes : Bytes) (sink : Sink) (env : Envelope)
      → w.unmarshal bytes ≡ ok env
      → env.type ≢ type_http_request
      → handle bytes sink ≡ (none, sink)
  pub handle_request :
      (bytes : Bytes) (sink : Sink) (env : Envelope) (req : Payload request)
      → w.unmarshal bytes ≡ ok env
      → env.type ≡ type_http_request
      → w.decode request env ≡ ok req
      → handle bytes sink ≡ (some (env.request_id, req), sink)
  pub handle_refused :
      (bytes : Bytes) (sink : Sink) (env : Envelope) (e : Error)
      → w.unmarshal bytes ≡ ok env
      → env.type ≡ type_http_request
      → w.decode request env ≡ err e
      → handle bytes sink ≡ (none, refuse env.request_id e sink)

module _ (h side : Channel) (w : Wire) {handle : Bytes → Sink → Spawned × Sink}
    {refuse : Bytes → Error → Sink → Sink} (receiver : IsReceiver w handle refuse) where
  read_request :
      (bytes : Bytes) (env : Envelope) (req : Payload request)
      → w.unmarshal bytes ≡ ok env
      → env.type ≡ type_http_request
      → w.decode request env ≡ ok req
      → read_message w bytes ≡ some (env.request_id, http_request req)
  unfolding read_message read_envelope
  read_request bytes env req arrived is_request decoded = ground arith

  abbrev Received : Bytes → Sink → Spawned × Sink → Type 0
  Received bytes sink r =
      (spawned : Spawned) × (id : Bytes) × (ms : List Message) × Reception h w bytes spawned id ms
      × (r.0 ≡ spawned)
      × Extends side id sink r.1 ms

  received :
      (bytes : Bytes) (sink : Sink) (r : Spawned × Sink) (spawned : Spawned) (after : Sink)
      (id : Bytes) (ms : List Message)
      → r ≡ (spawned, after)
      → Reception h w bytes spawned id ms
      → Extends side id sink after ms
      → Received bytes sink r
  received bytes sink r spawned after id ms e how sent =
      subst (Received bytes sink) (sym e) (spawned, id, ms, how, refl, sent)

  case_request :
      (bytes : Bytes) (sink : Sink) (env : Envelope)
      → ((e : Error)
          → w.decode request env ≡ err e
          → Extends side env.request_id sink
              (refuse env.request_id e sink)
              (error (refusal h e) ∷ []))
      → w.unmarshal bytes ≡ ok env
      → env.type ≡ type_http_request
      → Received bytes sink (handle bytes sink)
  case_request bytes sink env says arrived is_request = elim (Result-cases (w.decode request env)) [
    | inl (req, decoded) ↦
        received bytes sink _ (some (env.request_id, req)) sink env.request_id []
          (receiver.handle_request bytes sink env req arrived is_request decoded)
          (to_serve env.request_id req (read_request bytes env req arrived is_request decoded))
          (Extends-nil side env.request_id sink)
    | inr (e, broken) ↦
        received bytes sink _ none _ env.request_id _
          (receiver.handle_refused bytes sink env e arrived is_request broken)
          (to_refuse env e arrived is_request broken) (says e broken)
  ]

  -- Where the refusals say what they should, every frame is received as `Reception` has it.
  pub all-Received :
      (bytes : Bytes) (sink : Sink)
      → ((env : Envelope) (e : Error)
          → w.unmarshal bytes ≡ ok env
          → w.decode request env ≡ err e
          → Extends side env.request_id sink
              (refuse env.request_id e sink)
              (error (refusal h e) ∷ []))
      → Received bytes sink (handle bytes sink)
  all-Received bytes sink says = elim (Result-cases (w.unmarshal bytes)) [
    | inr (e, broken) ↦
        received bytes sink _ none sink [] [] (receiver.handle_no_frame bytes sink e broken)
          (no_frame e broken) (Extends-nil side [] sink)
    | inl (env, arrived) ↦ elim (ℕ_discrete env.type type_http_request) [
      | yes is_request ↦
          case_request bytes sink env (λ e broken. says env e arrived broken) arrived is_request
      | no other ↦
          received bytes sink _ none sink env.request_id []
            (receiver.handle_other_type bytes sink env arrived other) (other_type env arrived other)
            (Extends-nil side env.request_id sink)
    ]
  ]
