-- ===== src/Caller/Fresh.antt =====
-- A call of `Caller.Request` (golang/client/client.go) in a caller that has done anything before, and does
-- anything after.
use how.Base.{
  ℕ, Bytes, ◌≡◌, ◌≢◌, refl, sym, ap, ◌∙◌, subst, List, [], none, some, arith, inl, inr, get_elem?,
  length, get_elem?-append_cases, get_elem?-append_self, bytes_eq_iff, bytes_eq, Bool-cases,
}
use how.Base.Keyed.{Keyed, lookup, insert, lookup-insert}
use how.Protocol.Message.{Envelope, Payload, request}
use how.Protocol.Reading.{Message}
use how.Queue.{new_frame_queue}
use how.Handler.Send.{Transport}
use how.Caller.{Caller, Mode, pending_of}
use how.Caller.Request.{Begun, waiting, begin_request}
use how.Caller.Pump.{Pipe}
use how.Caller.System.{Thread, awaiting, System, Label, takes, begin, after_begin, step, run}
use how.Caller.Setup.{Setup, begin_cases}
use how.Caller.Keeping.{begin-queues}
use how.Caller.Sole.{IsSole}
use how.Caller.Beginning.{IsPlaced, Queued, waits-new, run-IsPlaced}
use how.Caller.Body.{Open}
use how.Caller.Hearing.{after_hearing}
use how.Caller.Reply.{Telling, Followed, request_follows_messages, Followed-hears_all}

-- The goroutine of a request that has just been sent.
abbrev pub begun_thread : Bytes → ℕ → Thread
begun_thread id a = record { id = id; addr = a; phase = awaiting; result = none; ops = [] }

module _ (m : Mode) (sender : Transport) (pipe : ℕ → Pipe) where
  -- A new caller has no queue and no goroutine.
  new-IsPlaced :
      (c : Caller)
      → pending_of m.is_text c ≡ []
      → IsPlaced m sender pipe (record { caller = c; threads = [] })
  unfolding lookup
  new-IsPlaced c nobody = record {
    held = λ j u found. absurd (cc);
    pointed = λ k a found. absurd (ground (arith, ap (lookup k) nobody));
  }

  -- A new goroutine whose id no other has is alone with its queue.
  began-IsSole :
      (s : System) (id : Bytes) (req : Payload request) (a : ℕ) (c : Caller)
      → IsPlaced m sender pipe s
      → ((j : ℕ) (u : Thread) → get_elem? s.threads j ≡ some u → u.id ≢ id)
      → Setup m sender id req s.caller (waiting a, c)
      → Queued m sender pipe s.caller (waiting a, c)
      → IsSole m sender pipe
          (length s.threads)
          (record { id = id; addr = a; phase = awaiting; result = none; ops = [] })
          []
          (after_begin m sender pipe id s.threads (waiting a, c))
  unfolding after_begin new_frame_queue
  began-IsSole s id req a c placed fresh setup queued =
      let new : Thread = record { id = id; addr = a; phase = awaiting; result = none; ops = [] } in
      let p : Keyed ℕ = pending_of m.is_text s.caller in
      let l : ℕ = length s.caller.queues in
      let (place, inserted, more) = waits-new m sender pipe s id req c a setup queued in
      record {
        standing = record {
          at = get_elem?-append_self s.threads new;
          queue = new_frame_queue;
          held =
              ap (get_elem? c.queues) place
              ∙ ap (λ q. get_elem? q l) more
              ∙ get_elem?-append_self s.caller.queues new_frame_queue;
          content = refl;
          pending =
              ap (lookup id) inserted
              ∙ ground (arith, lookup-insert id id l p, bytes_eq_iff id id, place);
        };
        others = λ j u ne found. elim (get_elem?-append_cases s.threads new j found) [
          | inl old ↦ (fresh j u old, (λ e. absurd (omega (arith, placed.held j u old, place, e))))
          | inr (at, its) ↦ absurd (ne at)
        ];
        owner = λ k found.
            let there : lookup k (insert id l p) ≡ some a = sym (ap (lookup k) inserted) ∙ found in
            elim (Bool-cases (bytes_eq id k)) [
              | inl mine ↦ ground (arith, bytes_eq_iff id k)
              | inr other ↦
                  let old : lookup k p ≡ some a = ground (arith, lookup-insert id k l p) in
                  absurd (omega (arith, placed.pointed k a old, place))
            ];
      }

  -- A caller with nothing pending has done anything; then `Request` is called under an id that no goroutine
  -- has, and waits; then the caller does anything that does not stop this request, and the reader of its
  -- body keeps it open. At every moment the request is what the first of the messages under its id, in
  -- order, make of it, with the others in its queue while it lives; and after enough takes it is what all
  -- of them make of it.
  pub fresh_request_follows :
      (before : List Label) (start : Caller) (id : Bytes) (req : Payload request) (a : ℕ)
      {after : List Label} {ms : List Message}
      → pending_of m.is_text start ≡ []
      → let s = run m sender pipe before (record { caller = start; threads = [] }) in
        ((j : ℕ) (u : Thread) → get_elem? s.threads j ≡ some u → u.id ≢ id)
        → (begin_request m sender id req s.caller).0 ≡ waiting a
        → Open (pipe a)
        → Telling m (length s.threads) id after ms
        → let s' = run m sender pipe after (step m sender pipe (begin id req) s) in
          Followed m sender pipe (length s.threads) id (begun_thread id a) ms s'
          × ((es : List Envelope) × (get_elem?
                  (run m sender pipe (takes (length s.threads) es) s').threads
                  (length s.threads)
                ≡ some (after_hearing (begun_thread id a) ms)))
  unfolding step
  fresh_request_follows before start id req a {after} {ms} nobody fresh waits reader tells =
      let s : System = run m sender pipe before (record { caller = start; threads = [] }) in
      let r : Begun × Caller = begin_request m sender id req s.caller in
      let t : Thread = begun_thread id a in
      let whole : r ≡ (waiting a, r.1) = ap (λ x. (x, r.1)) waits in
      let sole : IsSole m sender pipe (length s.threads) t []
          (step m sender pipe (begin id req) s) =
        subst
          (λ x.
            IsSole m sender pipe (length s.threads) t [] (after_begin m sender pipe id s.threads x))
          (sym whole)
          (began-IsSole s id req a r.1
            (run-IsPlaced m sender pipe before _ (new-IsPlaced start nobody)) fresh
            (subst (Setup m sender id req s.caller) whole (begin_cases m sender id req s.caller))
            (subst (Queued m sender pipe s.caller) whole
              (begin-queues m sender id req s.caller))) in
      let followed =
        request_follows_messages m sender pipe (length s.threads) id t [] []
          (step m sender pipe (begin id req) s) reader (λ e. cc) refl sole tt tells in
      (
        followed,
        Followed-hears_all m sender pipe (length s.threads) id t ms
            (run m sender pipe after (step m sender pipe (begin id req) s)) reader followed,
      )
