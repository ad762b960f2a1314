-- ===== src/Caller/Sole.antt =====
-- A goroutine of golang/client/client.go that alone has its id and its queue, beside the steps of the rest
-- of the caller.
use how.Base.{
  ℕ, Bytes, ◌≡◌, ◌≢◌, ◌<◌, refl, sym, ap, ◌∙◌, subst, List, [], ◌∷◌, none, some, arith, inl, inr,
  Option-cases, get_elem?, set, length, get_elem?-set_self, get_elem?-set_ne,
  get_elem?-append_cases, get_elem?-lt-length,
}
use native.Mathlib.Decide.{ℕ_discrete}
use how.Base.Keyed.{lookup}
use how.Outcome.{ok}
use how.Protocol.Message.{Envelope, Payload, request}
use how.Handler.Send.{Transport}
use how.Caller.{Caller, Mode, pending_of}
use how.Caller.Request.{Begun, refused, waiting, begin_request}
use how.Caller.Pump.{Pipe}
use how.Caller.System.{
  Thread, awaiting, System, Label, begin, arrive, shut, resume, give_up, after_begin, at_thread,
  step, run,
}
use how.Caller.Routing.{pending-handle_message, pending-close}
use how.Caller.Moves.{Moved, stop-Moved, resume-Moved}
use how.Caller.Setup.{Setup, begin_cases}
use how.Caller.Isolation.{IsForeign, IsAlone, others_leave_request-IsAlone}
use how.Caller.Delivery.{Standing}
use how.Caller.Pointing.{Within, Moved-Within, Setup-Within, new_addr}
use how.Caller.Keeping.{handle_message-queues, close-queues, begin-old}
use how.Caller.Turns.{resume-queues, stop-queues, resume-addr, stop-addr}

-- A step of the rest: not the goroutine's own, no request that draws the id `k`, and no frame under it.
abbrev pub IsElsewhere : Mode → ℕ → Bytes → Label → Type 0
IsElsewhere m i k (begin id req) = id ≢ k
IsElsewhere m i k (arrive bytes) =
    (env : Envelope) → m.wire.unmarshal bytes ≡ ok env → env.request_id ≢ k
IsElsewhere m i k (shut e) = Unit
IsElsewhere m i k (resume j) = i ≢ j
IsElsewhere m i k (give_up j stopped) = i ≢ j

module _ (m : Mode) (sender : Transport) (pipe : ℕ → Pipe) where
  -- Goroutine `i` stands with these envelopes in its queue; no other goroutine has its id or its queue,
  -- and only its id points to that queue.
  pub record IsSole (i : ℕ) (t : Thread) (es : List Envelope) (s : System) : Type 0 where
    pub standing : Standing m sender pipe s i t es
    pub others :
        (j : ℕ) (u : Thread)
        → i ≢ j
        → get_elem? s.threads j ≡ some u
        → (u.id ≢ t.id) × (u.addr ≢ t.addr)
    pub owner : (k : Bytes) → lookup k (pending_of m.is_text s.caller) ≡ some t.addr → k ≡ t.id

  old-addr :
      (i : ℕ) (t : Thread) (es : List Envelope) (s : System)
      → IsSole i t es s
      → t.addr < length s.caller.queues
  old-addr i t es s sole = get_elem?-lt-length s.caller.queues t.addr sole.standing.held

  -- What a step of the rest leaves as it is.
  record Left (i : ℕ) (t : Thread) (s s' : System) : Type 0 where
    pub queue : get_elem? s'.caller.queues t.addr ≡ get_elem? s.caller.queues t.addr
    pub apart : (j : ℕ) (u : Thread) → i ≢ j → get_elem? s'.threads j ≡ some u → u.addr ≢ t.addr
    pub within : Within t.addr (pending_of m.is_text s'.caller) (pending_of m.is_text s.caller)

  Moved-Left :
      (i j : ℕ) (t u : Thread) (es : List Envelope) (s : System) (r : Thread × Caller)
      → i ≢ j
      → get_elem? s.threads j ≡ some u
      → Moved m sender pipe u s.caller r
      → r.0.addr ≡ u.addr
      → get_elem? r.1.queues t.addr ≡ get_elem? s.caller.queues t.addr
      → IsSole i t es s
      → Left i t s (record { caller = r.1; threads = set s.threads j r.0 })
  Moved-Left i j t u es s r ne there moved same_addr kept sole = record {
    queue = kept;
    apart = λ k v away found. elim (ℕ_discrete j k) [
      | yes same ↦
          let its : v.addr ≡ u.addr =
            ground (arith, get_elem?-set_self s.threads j r.0 u there, same_addr) in
          (λ e. (sole.others j u ne there).1 (sym its ∙ e))
      | no other ↦ (sole.others k v away (sym (get_elem?-set_ne s.threads j k r.0 other) ∙ found)).1
    ];
    within = Moved-Within m sender pipe t.addr u s.caller r moved;
  }

  at_thread-Left :
      (i j : ℕ) (t : Thread) (es : List Envelope) (f : Thread → Caller → Thread × Caller)
      (s : System)
      → ((u : Thread) (c : Caller) → Moved m sender pipe u c (f u c))
      → ((u : Thread) (c : Caller) → (f u c).0.addr ≡ u.addr)
      → ((u : Thread) (c : Caller)
          → t.addr ≢ u.addr
          → get_elem? (f u c).1.queues t.addr ≡ get_elem? c.queues t.addr)
      → i ≢ j
      → IsSole i t es s
      → Left i t s (at_thread m sender pipe j f (get_elem? s.threads j) s)
  unfolding at_thread
  at_thread-Left i j t es f s moves stays keeps ne sole =
      elim (Option-cases (get_elem? s.threads j)) [
        | inl nobody ↦
            rw (nobody, at_thread)
              (record {
                queue = refl;
                apart = λ k v away found. (sole.others k v away found).1;
                within = λ k found. found;
              })
        | inr (u, there) ↦
            subst (λ o. Left i t s (at_thread m sender pipe j f o s)) (sym there)
              (Moved-Left i j t u es s (f u s.caller) ne there (moves u s.caller) (stays u s.caller)
                (keeps u s.caller (λ e. (sole.others j u ne there).1 (sym e))) sole)
      ]

  began-Left :
      (i : ℕ) (t : Thread) (es : List Envelope) (s : System) (id : Bytes) (req : Payload request)
      (r : Begun × Caller)
      → Setup m sender id req s.caller r
      → get_elem? r.1.queues t.addr ≡ get_elem? s.caller.queues t.addr
      → IsSole i t es s
      → Left i t s (after_begin m sender pipe id s.threads r)
  unfolding after_begin
  began-Left i t es s id req (refused x, c) setup kept sole = record {
    queue = kept;
    apart = λ k v away found. (sole.others k v away found).1;
    within =
        Setup-Within m sender pipe t.addr id req s.caller (refused x, c) setup
          (old-addr i t es s sole);
  }
  began-Left i t es s id req (waiting a, c) setup kept sole =
      let new : Thread = record { id = id; addr = a; phase = awaiting; result = none; ops = [] } in
      record {
        queue = kept;
        apart = λ k v away found. elim (get_elem?-append_cases s.threads new k found) [
          | inl old ↦ (sole.others k v away old).1
          | inr (place, its) ↦ (λ e.
              new_addr m sender pipe id req s.caller a c t.addr setup (old-addr i t es s sole)
                (sym (ap (λ x. x.addr) its) ∙ e))
        ];
        within =
            Setup-Within m sender pipe t.addr id req s.caller (waiting a, c) setup
              (old-addr i t es s sole);
      }

  step-Left :
      (i : ℕ) (t : Thread) (es : List Envelope) (l : Label) (s : System)
      → IsElsewhere m i t.id l
      → IsSole i t es s
      → Left i t s (step m sender pipe l s)
  unfolding step
  step-Left i t es (begin id req) s ne sole =
      began-Left i t es s id req (begin_request m sender id req s.caller)
        (begin_cases m sender id req s.caller)
        (begin-old m sender id req s.caller t.addr (old-addr i t es s sole)) sole
  step-Left i t es (arrive bytes) s other sole = record {
    queue =
        handle_message-queues m bytes t.addr s.caller
          (λ env arrived e. other env arrived (sole.owner env.request_id e));
    apart = λ k v away found. (sole.others k v away found).1;
    within = λ k found. sym (ap (lookup k) (pending-handle_message m bytes s.caller)) ∙ found;
  }
  step-Left i t es (shut e) s other sole = record {
    queue = ap (λ l. get_elem? l t.addr) (close-queues m e s.caller);
    apart = λ k v away found. (sole.others k v away found).1;
    within = λ k found. sym (ap (lookup k) (pending-close m e s.caller)) ∙ found;
  }
  step-Left i t es (resume j) s ne sole =
      at_thread-Left i j t es _ s (resume-Moved m sender pipe) (resume-addr m sender pipe)
        (λ u c other. resume-queues m sender pipe u c t.addr other) ne sole
  step-Left i t es (give_up j w) s ne sole =
      at_thread-Left i j t es _ s (stop-Moved m sender pipe w) (stop-addr m sender pipe w)
        (λ u c other. ap (λ l. get_elem? l t.addr) (stop-queues m sender pipe w u c)) ne sole

  foreign : (i : ℕ) (t : Thread) (l : Label) → IsElsewhere m i t.id l → IsForeign i t l
  foreign i t (begin id req) h = h
  foreign i t (arrive bytes) h = tt
  foreign i t (shut e) h = h
  foreign i t (resume j) h = h
  foreign i t (give_up j w) h = h

  -- The rest of the caller leaves the goroutine and its queue alone.
  pub elsewhere-IsSole :
      (i : ℕ) (t : Thread) (es : List Envelope) (l : Label) (s : System)
      → IsElsewhere m i t.id l
      → IsSole i t es s
      → IsSole i t es (step m sender pipe l s)
  unfolding run
  elsewhere-IsSole i t es l s other sole =
      let alone : IsAlone m sender pipe i t (step m sender pipe l s) =
        others_leave_request-IsAlone m sender pipe i t (l ∷ []) s (foreign i t l other, tt)
          (record {
            at = sole.standing.at;
            pending = sole.standing.pending;
            others = λ j u ne there. (sole.others j u ne there).0;
          }) in
      let left : Left i t s (step m sender pipe l s) = step-Left i t es l s other sole in
      record {
        standing = record {
          at = alone.at;
          queue = sole.standing.queue;
          held = left.queue ∙ sole.standing.held;
          content = sole.standing.content;
          pending = alone.pending;
        };
        others = λ j u ne there. (alone.others j u ne there, left.apart j u ne there);
        owner = λ k found. sole.owner k (left.within k found);
      }
