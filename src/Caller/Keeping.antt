-- ===== src/Caller/Keeping.antt =====
-- What the operations of golang/client/client.go leave of a queue: only its own request's goroutine takes
-- from it, and only frames under its id are added.
use how.Base.{
  ℕ, Bytes, ◌≡◌, ◌≢◌, ◌⊎◌, ◌<◌, sym, ap, ◌∙◌, [], ◌∷◌, ◌++◌, Option, some, arith, inl, inr,
  get_elem?, length, get_elem?-set_ne, get_elem?-append_old, length-set, Option-cases,
}
use how.Base.Keyed.{lookup}
use how.Outcome.{Error, ok, Result-cases}
use how.Protocol.Message.{Envelope, Payload, request}
use how.Queue.{new_frame_queue, push, try_pop}
use how.Caller.Routing.{sent-register, frame_reaches_its_request}
use how.Handler.Send.{Transport}
use how.Caller.{Caller, Mode, pending_of, register, remove_pending, handle_message, poll, close}
use how.Caller.Request.{first_frame, refused, begin_request, request_sent}

module _ (m : Mode) where
  pub remove-queues : (id : Bytes) (c : Caller) → (remove_pending m id c).queues ≡ c.queues
  unfolding remove_pending
  remove-queues id c = ground arith

  register-queues :
      (id : Bytes) (c : Caller) → (register m id c).queues ≡ c.queues ++ new_frame_queue ∷ []
  unfolding register
  register-queues id c = ground arith

  pub first_frame-queues :
      (id : Bytes) (env : Envelope) (c : Caller) → (first_frame m id env c).1.queues ≡ c.queues
  unfolding first_frame
  first_frame-queues id env c = ground (arith, remove-queues id c)

  pub poll-queues :
      (a b : ℕ) (c : Caller) → b ≢ a → get_elem? (poll a c).1.queues b ≡ get_elem? c.queues b
  unfolding poll
  poll-queues a b c other = elim (Option-cases (get_elem? c.queues a)) [
    | inl nothing ↦ ground arith
    | inr (q, held) ↦
        rw (held, poll) (get_elem?-set_ne c.queues a b (try_pop q).1 (λ e. other (sym e)))
  ]

  pub poll-length : (a : ℕ) (c : Caller) → length (poll a c).1.queues ≡ length c.queues
  unfolding poll
  poll-length a c = elim (Option-cases (get_elem? c.queues a)) [
    | inl nothing ↦ ground arith
    | inr (q, held) ↦ rw (held, poll) (length-set c.queues a (try_pop q).1)
  ]

  -- Frames are added to queues, not queues.
  pub handle_message-length :
      (bytes : Bytes) (c : Caller) → length (handle_message m bytes c).queues ≡ length c.queues
  unfolding handle_message
  handle_message-length bytes c = elim (Result-cases (m.wire.unmarshal bytes)) [
    | inr (e, broken) ↦ ground arith
    | inl (env, arrived) ↦ elim (Option-cases (lookup env.request_id (pending_of m.is_text c))) [
      | inl nobody ↦ ground arith
      | inr (a, claimed) ↦ elim (Option-cases (get_elem? c.queues a)) [
        | inl lost ↦ ground arith
        | inr (q, held) ↦ ground (arith, length-set c.queues a (push env q))
      ]
    ]
  ]

  -- A frame that is not routed to this queue.
  pub handle_message-queues :
      (bytes : Bytes) (b : ℕ) (c : Caller)
      → ((env : Envelope)
          → m.wire.unmarshal bytes ≡ ok env
          → lookup env.request_id (pending_of m.is_text c) ≢ some b)
      → get_elem? (handle_message m bytes c).queues b ≡ get_elem? c.queues b
  unfolding handle_message
  handle_message-queues bytes b c elsewhere = elim (Result-cases (m.wire.unmarshal bytes)) [
    | inr (e, broken) ↦ ground arith
    | inl (env, arrived) ↦ elim (Option-cases (lookup env.request_id (pending_of m.is_text c))) [
      | inl nobody ↦ ground arith
      | inr (a, claimed) ↦
          let other : b ≢ a = λ e. elsewhere env arrived (claimed ∙ ap some (sym e)) in
          elim (Option-cases (get_elem? c.queues a)) [
            | inl lost ↦ ground arith
            | inr (q, held) ↦
                (frame_reaches_its_request m bytes c env a q arrived claimed held).1 b other
          ]
    ]
  ]

  pub close-queues : (e : Option Error) (c : Caller) → (close e c).queues ≡ c.queues
  unfolding close
  close-queues e c = ground arith

  module _ (sender : Transport) where
    abbrev attempted : Bytes → Caller → Bytes → Caller
    attempted id c bytes = record (register m id c) { sent = c.sent ++ m.frame bytes ∷ [] }

    -- A call of `Request` adds a queue, unless the caller is closed.
    pub begin-queues :
        (id : Bytes) (req : Payload request) (c : Caller)
        → let r = begin_request m sender id req c in
          ((r.1.queues ≡ c.queues) × ((e : Error) × (r.0 ≡ refused e)))
          ⊎ (r.1.queues ≡ c.queues ++ new_frame_queue ∷ [])
    unfolding begin_request request_sent
    begin-queues id req c = elim (Option-cases c.close_err) [
      | inr (e, shut) ↦ inl (ground arith, (e, ground arith))
      | inl open_ ↦ inr (elim (Result-cases (m.new_request id req)) [
        | inr (e, broken) ↦ ground (arith, remove-queues id (register m id c), register-queues id c)
        | inl (env, made) ↦ elim (Result-cases (m.wire.marshal env)) [
          | inr (e, broken) ↦
              ground (arith, remove-queues id (register m id c), register-queues id c)
          | inl (bytes, marshalled) ↦ elim (Option-cases (sender c.sent (m.frame bytes))) [
            | inr (e, rejected) ↦ ground (
              arith,
              sent-register m id c,
              remove-queues id (attempted id c bytes),
              register-queues id c,
            )
            | inl sent ↦ ground (arith, sent-register m id c, register-queues id c)
          ]
        ]
      ])
    ]

    pub begin-old :
        (id : Bytes) (req : Payload request) (c : Caller) (b : ℕ)
        → b < length c.queues
        → get_elem? (begin_request m sender id req c).1.queues b ≡ get_elem? c.queues b
    begin-old id req c b old = elim (begin-queues id req c) [
      | inl (same, refused_) ↦ ap (λ l. get_elem? l b) same
      | inr longer ↦
          ap (λ l. get_elem? l b) longer
          ∙ get_elem?-append_old c.queues (new_frame_queue ∷ []) b old
    ]
