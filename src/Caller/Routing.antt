-- ===== src/Caller/Routing.antt =====
-- How `HandleBinaryMessage` and `HandleTextMessage` (golang/client/client.go) route frames to requests,
-- and what the operations of `Caller` leave of the pending map.
use how.Base.{
  ℕ, Bytes, ◌≡◌, ◌≢◌, Option, none, some, arith, inl, inr, sym, get_elem?, length, get_elem?-set_ne,
  get_elem?-set_self,
}
use how.Base.Keyed.{lookup, insert, delete}
use how.Outcome.{Error, ok, Result-cases}
use how.Protocol.Message.{Envelope}
use how.Handler.Send.{Sink}
use how.Queue.{FrameQueue, push}
use how.Caller.{Caller, Mode, pending_of, register, remove_pending, handle_message, poll, close}

-- A frame for nobody: no envelope, or an envelope under an id that no request waits for.
abbrev Unclaimed : Mode → Bytes → Caller → Type 0
Unclaimed m bytes c =
    (env : Envelope)
    → m.wire.unmarshal bytes ≡ ok env
    → lookup env.request_id (pending_of m.is_text c) ≡ none

module _ (m : Mode) where
  -- A frame for nobody leaves the caller as it was.
  dropped_frame_changes_nothing :
      (bytes : Bytes) (c : Caller) → Unclaimed m bytes c → handle_message m bytes c ≡ c
  unfolding handle_message
  dropped_frame_changes_nothing bytes c nobody = elim (Result-cases (m.wire.unmarshal bytes)) [
    | inl (env, arrived) ↦ ground (arith, nobody env arrived)
    | inr (e, broken) ↦ ground arith
  ]

  -- A frame whose id is pending at a queue is pushed to the end of that queue. No other queue, neither
  -- pending map and nothing else of the caller changes.
  pub frame_reaches_its_request :
      (bytes : Bytes) (c : Caller) (env : Envelope) (a : ℕ) (q : FrameQueue Envelope)
      → m.wire.unmarshal bytes ≡ ok env
      → lookup env.request_id (pending_of m.is_text c) ≡ some a
      → get_elem? c.queues a ≡ some q
      → (get_elem? (handle_message m bytes c).queues a ≡ some (push env q))
        × ((b : ℕ) → b ≢ a → get_elem? (handle_message m bytes c).queues b ≡ get_elem? c.queues b)
        × (handle_message m bytes c ≡ record c { queues = (handle_message m bytes c).queues })
  unfolding handle_message
  frame_reaches_its_request bytes c env a q arrived pending held = (
    ground (arith, get_elem?-set_self c.queues a (push env q) q),
    (λ b other. ground (arith, get_elem?-set_ne c.queues a b (push env q) (λ e. other (sym e)))),
    ground arith,
  )

  -- The pending map after each operation.
  pub pending-remove :
      (id : Bytes) (c : Caller)
      → pending_of m.is_text (remove_pending m id c) ≡ delete id (pending_of m.is_text c)
  unfolding remove_pending
  pending-remove id c = ground arith

  pub pending-register :
      (id : Bytes) (c : Caller)
      → pending_of m.is_text (register m id c)
        ≡ insert id (length c.queues) (pending_of m.is_text c)
  unfolding register
  pending-register id c = ground arith

  pub pending-handle_message :
      (bytes : Bytes) (c : Caller)
      → pending_of m.is_text (handle_message m bytes c) ≡ pending_of m.is_text c
  unfolding handle_message
  pending-handle_message bytes c = ground arith

  pub pending-poll :
      (a : ℕ) (c : Caller) → pending_of m.is_text (poll a c).1 ≡ pending_of m.is_text c
  unfolding poll
  pending-poll a c = ground arith

  pub pending-close :
      (e : Option Error) (c : Caller) → pending_of m.is_text (close e c) ≡ pending_of m.is_text c
  unfolding close
  pending-close e c = ground arith

  pub sent-register : (id : Bytes) (c : Caller) → (register m id c).sent ≡ c.sent
  unfolding register
  sent-register id c = ground arith

  pub sent-remove : (id : Bytes) (c : Caller) → (remove_pending m id c).sent ≡ c.sent
  unfolding remove_pending
  sent-remove id c = ground arith

  -- A record update that leaves the pending maps alone.
  pub pending-sent :
      (c : Caller) (sink : Sink)
      → pending_of m.is_text (record c { sent = sink }) ≡ pending_of m.is_text c
  pending-sent c sink = ground arith
