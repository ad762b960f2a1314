-- ===== src/Caller/Isolation.antt =====
-- Requests of one `Caller` (golang/client/client.go) do not disturb each other, as their ids differ.
use how.Base.{
  ℕ, Bytes, ◌≡◌, ◌≢◌, sym, ap, ◌∙◌, subst, List, [], ◌∷◌, none, some, arith, Option-cases, inl, inr,
  get_elem?, set, length, get_elem?-set_ne, get_elem?-set_self, get_elem?-append_old,
  get_elem?-append_cases, get_elem?-lt-length, bytes_eq_iff, All,
}
use native.Mathlib.Decide.{ℕ_discrete}
use how.Base.Keyed.{Keyed, lookup, insert, delete, lookup-insert, lookup-delete}
use how.Protocol.Message.{Payload, request}
use how.Handler.Send.{Transport}
use how.Caller.{Caller, Mode, pending_of}
use how.Caller.Request.{Begun, refused, waiting}
use how.Caller.Pump.{Pipe}
use how.Caller.System.{
  Thread, awaiting, System, Label, begin, arrive, shut, resume, give_up, after_begin, at_thread,
  step, run,
}
use how.Caller.Routing.{pending-handle_message, pending-close}
use how.Caller.Moves.{Moved, went_on, finished, idle, stop-Moved, resume-Moved}
use how.Caller.Setup.{Setup, turned_away, undone, registered, begin_cases}

-- A step that is not the goroutine's own, and not a call of `Request` that draws its id once more.
abbrev pub IsForeign : ℕ → Thread → Label → Type 0
IsForeign i t (begin id req) = id ≢ t.id
IsForeign i t (arrive bytes) = Unit
IsForeign i t (shut e) = Unit
IsForeign i t (resume j) = i ≢ j
IsForeign i t (give_up j stopped) = i ≢ j

module _ (m : Mode) (sender : Transport) (pipe : ℕ → Pipe) where
  -- Goroutine `i` is as `t` says, its id is pending at its queue, and no other goroutine has its id.
  pub record IsAlone (i : ℕ) (t : Thread) (s : System) : Type 0 where
    pub at : get_elem? s.threads i ≡ some t
    pub pending : lookup t.id (pending_of m.is_text s.caller) ≡ some t.addr
    pub others : (j : ℕ) (u : Thread) → i ≢ j → get_elem? s.threads j ≡ some u → u.id ≢ t.id

  lookup-delete_other : (k j : Bytes) (p : Keyed ℕ) → k ≢ j → lookup j (delete k p) ≡ lookup j p
  lookup-delete_other k j p other = ground (arith, lookup-delete k j p, bytes_eq_iff k j)

  lookup-insert_other :
      (k j : Bytes) (a : ℕ) (p : Keyed ℕ) → k ≢ j → lookup j (insert k a p) ≡ lookup j p
  lookup-insert_other k j a p other = ground (arith, lookup-insert k j a p, bytes_eq_iff k j)

  -- Whether another goroutine stays or goes, its entry is another one.
  Moved-lookup :
      (u : Thread) (c : Caller) (r : Thread × Caller) (k : Bytes)
      → Moved m sender pipe u c r
      → u.id ≢ k
      → lookup k (pending_of m.is_text r.1) ≡ lookup k (pending_of m.is_text c)
  Moved-lookup u c r k (went_on same_id same_addr live same) other = ap (lookup k) same
  Moved-lookup u c r k (finished same_id removed) other =
      ap (lookup k) removed ∙ lookup-delete_other u.id k (pending_of m.is_text c) other
  Moved-lookup u c r k (idle stayed same) other = ap (lookup k) same

  Moved-id :
      (u : Thread) (c : Caller) (r : Thread × Caller) → Moved m sender pipe u c r → r.0.id ≡ u.id
  Moved-id u c r (went_on same_id same_addr live same) = same_id
  Moved-id u c r (finished same_id removed) = same_id
  Moved-id u c r (idle stayed same) = ap (λ t. t.id) stayed

  moves-IsAlone :
      (i j : ℕ) (t u : Thread) (s : System) (r : Thread × Caller)
      → i ≢ j
      → get_elem? s.threads j ≡ some u
      → Moved m sender pipe u s.caller r
      → IsAlone i t s
      → IsAlone i t (record { caller = r.1; threads = set s.threads j r.0 })
  moves-IsAlone i j t u s r ne there moved alone = record {
    at = get_elem?-set_ne s.threads j i r.0 (λ e. ne (sym e)) ∙ alone.at;
    pending = Moved-lookup u s.caller r t.id moved (alone.others j u ne there) ∙ alone.pending;
    others = λ k v away found. elim (ℕ_discrete j k) [
      | yes same ↦
          let its : v.id ≡ u.id =
            ground
              (arith, get_elem?-set_self s.threads j r.0 u there, Moved-id u s.caller r moved) in
          (λ e. alone.others j u ne there (sym its ∙ e))
      | no apart ↦ alone.others k v away (sym (get_elem?-set_ne s.threads j k r.0 apart) ∙ found)
    ];
  }

  at_thread-IsAlone :
      (i j : ℕ) (t : Thread) (f : Thread → Caller → Thread × Caller) (s : System)
      → ((u : Thread) (c : Caller) → Moved m sender pipe u c (f u c))
      → i ≢ j
      → IsAlone i t s
      → IsAlone i t (at_thread m sender pipe j f (get_elem? s.threads j) s)
  unfolding at_thread
  at_thread-IsAlone i j t f s moves ne alone = elim (Option-cases (get_elem? s.threads j)) [
    | inl nobody ↦ rw (nobody, at_thread) alone
    | inr (u, there) ↦
        subst (λ o. IsAlone i t (at_thread m sender pipe j f o s)) (sym there)
          (moves-IsAlone i j t u s (f u s.caller) ne there (moves u s.caller) alone)
  ]

  -- A call of `Request` that waits adds a goroutine; one that failed has undone its entry.
  begin-IsAlone :
      (i : ℕ) (t : Thread) (id : Bytes) (req : Payload request) (s : System) (r : Begun × Caller)
      → id ≢ t.id
      → Setup m sender id req s.caller r
      → IsAlone i t s
      → IsAlone i t (after_begin m sender pipe id s.threads r)
  unfolding after_begin
  begin-IsAlone i t id req s (refused x, c) ne (turned_away e closed same) alone = record {
    at = alone.at;
    pending = ap (λ r. lookup t.id (pending_of m.is_text r.1)) same ∙ alone.pending;
    others = alone.others;
  }
  begin-IsAlone i t id req s (refused x, c) ne (undone e alive failed_ removed) alone =
      let p : Keyed ℕ = pending_of m.is_text s.caller in
      let a : ℕ = length s.caller.queues in
      record {
        at = alone.at;
        pending =
            ap (lookup t.id) removed
            ∙ lookup-delete_other id t.id (insert id a p) ne
            ∙ lookup-insert_other id t.id a p ne
            ∙ alone.pending;
        others = alone.others;
      }
  begin-IsAlone i t id req s (refused x, c) ne
        (registered env bytes alive made packed sent waits inserted logged) alone =
      absurd (cc)
  begin-IsAlone i t id req s (waiting a, c) ne (turned_away e closed same) alone =
      absurd (cc (ap (λ r. r.0) same))
  begin-IsAlone i t id req s (waiting a, c) ne (undone e alive failed_ removed) alone = absurd (cc)
  begin-IsAlone i t id req s (waiting a, c) ne
        (registered env bytes alive made packed sent waits inserted logged) alone =
      let new : Thread = record { id = id; addr = a; phase = awaiting; result = none; ops = [] } in
      record {
        at =
            get_elem?-append_old s.threads (new ∷ []) i (get_elem?-lt-length s.threads i alone.at)
            ∙ alone.at;
        pending =
            ap (lookup t.id) inserted
            ∙ lookup-insert_other id t.id (length s.caller.queues) (pending_of m.is_text s.caller)
                ne
            ∙ alone.pending;
        others = λ j u away found. elim (get_elem?-append_cases s.threads new j found) [
          | inl old ↦ alone.others j u away old
          | inr (place, its) ↦ (λ e. ne (sym (ap (λ v. v.id) its) ∙ e))
        ];
      }

  step-IsAlone :
      (i : ℕ) (t : Thread) (l : Label) (s : System)
      → IsForeign i t l
      → IsAlone i t s
      → IsAlone i t (step m sender pipe l s)
  unfolding step
  step-IsAlone i t (begin id req) s ne alone =
      begin-IsAlone i t id req s _ ne (begin_cases m sender id req s.caller) alone
  step-IsAlone i t (arrive bytes) s foreign alone = record {
    at = alone.at;
    pending = ap (lookup t.id) (pending-handle_message m bytes s.caller) ∙ alone.pending;
    others = alone.others;
  }
  step-IsAlone i t (shut e) s foreign alone = record {
    at = alone.at;
    pending = ap (lookup t.id) (pending-close m e s.caller) ∙ alone.pending;
    others = alone.others;
  }
  step-IsAlone i t (resume j) s ne alone =
      at_thread-IsAlone i j t _ s (resume-Moved m sender pipe) ne alone
  step-IsAlone i t (give_up j stopped) s ne alone =
      at_thread-IsAlone i j t _ s (stop-Moved m sender pipe stopped) ne alone

  -- A goroutine whose id is pending at its queue, and that no other goroutine shares: whatever else
  -- happens (other calls of `Request` under other ids, any frames, `Close`, any moves and any ends of the
  -- other goroutines), it stands where it stood and its id stays pending at its own queue. No other
  -- request can unregister it or take its place.
  pub others_leave_request-IsAlone :
      (i : ℕ) (t : Thread) (ls : List Label) (s : System)
      → All (IsForeign i t) ls
      → IsAlone i t s
      → IsAlone i t (run m sender pipe ls s)
  unfolding run
  others_leave_request-IsAlone i t [] s foreign alone = alone
  others_leave_request-IsAlone i t (l ∷ ls) s foreign alone =
      others_leave_request-IsAlone i t ls (step m sender pipe l s) foreign.1
        (step-IsAlone i t l s foreign.0 alone)
