-- ===== src/Caller/Pointing.antt =====
-- Which ids of the pending map of golang/client/client.go may point to a queue after each operation.
use how.Base.{ℕ, Bytes, ◌≡◌, ◌≢◌, ◌<◌, sym, ap, ◌∙◌, some, arith, length}
use how.Base.Keyed.{Keyed, lookup, insert, delete, lookup-insert, lookup-delete}
use how.Protocol.Message.{Payload, request}
use how.Handler.Send.{Transport}
use how.Caller.{Caller, Mode, pending_of}
use how.Caller.Request.{Begun, waiting}
use how.Caller.Pump.{Pipe}
use how.Caller.System.{Thread}
use how.Caller.Moves.{Moved, went_on, finished, idle}
use how.Caller.Setup.{Setup, turned_away, undone, registered}

-- What points to the queue at `b` in the one map points to it in the other.
abbrev pub Within : ℕ → Keyed ℕ → Keyed ℕ → Type 0
Within b p q = (k : Bytes) → lookup k p ≡ some b → lookup k q ≡ some b

delete-Within : (b : ℕ) (id : Bytes) (p : Keyed ℕ) → Within b (delete id p) p
delete-Within b id p k found = ground (arith, lookup-delete id k p)

insert-Within : (b : ℕ) (id : Bytes) (a : ℕ) (p : Keyed ℕ) → a ≢ b → Within b (insert id a p) p
insert-Within b id a p other k found = ground (arith, lookup-insert id k a p)

module _ (m : Mode) (sender : Transport) (pipe : ℕ → Pipe) where
  pub Moved-Within :
      (b : ℕ) (u : Thread) (c : Caller) (r : Thread × Caller)
      → Moved m sender pipe u c r
      → Within b (pending_of m.is_text r.1) (pending_of m.is_text c)
  Moved-Within b u c r (went_on same_id same_addr live same) k found =
      sym (ap (lookup k) same) ∙ found
  Moved-Within b u c r (finished same_id removed) k found =
      delete-Within b u.id (pending_of m.is_text c) k (sym (ap (lookup k) removed) ∙ found)
  Moved-Within b u c r (idle stayed same) k found = sym (ap (lookup k) same) ∙ found

  pub Setup-Within :
      (b : ℕ) (id : Bytes) (req : Payload request) (c : Caller) (r : Begun × Caller)
      → Setup m sender id req c r
      → b < length c.queues
      → Within b (pending_of m.is_text r.1) (pending_of m.is_text c)
  Setup-Within b id req c r (turned_away e closed same) old k found =
      sym (ap (λ x. lookup k (pending_of m.is_text x.1)) same) ∙ found
  Setup-Within b id req c r (undone e alive failed_ removed) old k found =
      let p : Keyed ℕ = pending_of m.is_text c in
      insert-Within b id (length c.queues) p (omega arith) k
        (delete-Within b id (insert id (length c.queues) p) k (sym (ap (lookup k) removed) ∙ found))
  Setup-Within b id req c r (registered env bytes alive made packed sent waits inserted logged) old
        k found =
      insert-Within b id (length c.queues) (pending_of m.is_text c) (omega arith) k
        (sym (ap (lookup k) inserted) ∙ found)

  -- A queue that `Request` adds is a new one.
  pub new_addr :
      (id : Bytes) (req : Payload request) (c : Caller) (a : ℕ) (c' : Caller) (b : ℕ)
      → Setup m sender id req c (waiting a, c')
      → b < length c.queues
      → a ≢ b
  new_addr id req c a c' b (turned_away e closed same) old = absurd (cc (ap (λ r. r.0) same))
  new_addr id req c a c' b (undone e alive failed_ removed) old = absurd (cc)
  new_addr id req c a c' b (registered env bytes alive made packed sent waits inserted logged) old =
      (λ same. absurd (ground arith))
