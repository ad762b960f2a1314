-- ===== src/Caller/Setup.antt =====
-- What the first part of `Request` (golang/client/client.go), up to its `wait`, does to the caller.
use how.Base.{Bytes, ◌≡◌, [], ◌∷◌, ◌++◌, none, some, arith, Option-cases, inl, inr, length}
use how.Base.Keyed.{insert, delete}
use how.Outcome.{Error, ok, Result-cases, wrapped}
use how.Protocol.Message.{Envelope, Payload, request}
use how.Handler.Send.{Transport}
use how.Caller.{Caller, Mode, pending_of, register}
use how.Caller.Request.{Begun, refused, waiting, begin_request, request_sent}
use how.Caller.Routing.{pending-remove, pending-register, pending-sent, sent-register}

module _ (m : Mode) (sender : Transport) where
  -- How `begin_request` may end: turned away by a closed caller with nothing done; failed, with its
  -- registration undone; or waiting on a new queue that is registered under its id, after one send.
  pub data Setup (id : Bytes) (req : Payload request) (c : Caller) (r : Begun × Caller)
      : Type 0 where
    turned_away : (e : Error) → c.close_err ≡ some e → r ≡ (refused e, c) → Setup id req c r
    undone :
        (e : Error)
        → c.close_err ≡ none
        → r.0 ≡ refused e
        → pending_of m.is_text r.1
          ≡ delete id (insert id (length c.queues) (pending_of m.is_text c))
        → Setup id req c r
    registered :
        (env : Envelope) (bytes : Bytes)
        → c.close_err ≡ none
        → m.new_request id req ≡ ok env
        → m.wire.marshal env ≡ ok bytes
        → sender c.sent (m.frame bytes) ≡ none
        → r.0 ≡ waiting (length c.queues)
        → pending_of m.is_text r.1 ≡ insert id (length c.queues) (pending_of m.is_text c)
        → r.1.sent ≡ c.sent ++ m.frame bytes ∷ []
        → Setup id req c r

  -- The caller after the send was tried.
  abbrev attempted : Bytes → Caller → Bytes → Caller
  attempted id c bytes = record (register m id c) { sent = c.sent ++ m.frame bytes ∷ [] }

  -- A call of `Request` does one of three things. A closed caller turns it away with the error of its
  -- `Close` and nothing changes. A step that fails (create, marshal or send) returns an error and
  -- leaves no entry under the id. Otherwise the frame was handed to the sender, the id is pending at a
  -- new queue, and the call waits on it.
  pub begin_cases :
      (id : Bytes) (req : Payload request) (c : Caller)
      → Setup id req c (begin_request m sender id req c)
  unfolding begin_request request_sent
  begin_cases id req c = elim (Option-cases c.close_err) [
    | inr (e, shut) ↦ turned_away e shut (ground arith)
    | inl open_ ↦ elim (Result-cases (m.new_request id req)) [
      | inr (e, broken) ↦
          undone (wrapped "create request" e) open_ (ground arith)
            (ground (arith, pending-remove m id (register m id c), pending-register m id c))
      | inl (env, made) ↦ elim (Result-cases (m.wire.marshal env)) [
        | inr (e, broken) ↦
            undone (wrapped m.marshal_label e) open_ (ground arith)
              (ground (arith, pending-remove m id (register m id c), pending-register m id c))
        | inl (bytes, marshalled) ↦ elim (Option-cases (sender c.sent (m.frame bytes))) [
          | inr (e, rejected) ↦
              undone (wrapped m.send_label e) open_ (ground (arith, sent-register m id c)) (
                ground (
                  arith,
                  sent-register m id c,
                  pending-remove m id (attempted id c bytes),
                  pending-sent m (register m id c) (c.sent ++ m.frame bytes ∷ []),
                  pending-register m id c,
                ))
          | inl sent ↦
              registered env bytes open_ made marshalled sent (ground (arith, sent-register m id c))
                (ground (
                  arith,
                  sent-register m id c,
                  pending-sent m (register m id c) (c.sent ++ m.frame bytes ∷ []),
                  pending-register m id c,
                ))
                (ground (arith, sent-register m id c))
        ]
      ]
    ]
  ]
