-- ===== src/Caller/Draining.antt =====
-- Once the reader of a streaming body has gone, the request's goroutine (golang/client/client.go,
-- `pumpBinary`, `pumpText`) ends and its pending entry is removed, whatever its queue holds.
use how.Base.{
  ℕ, Bytes, ◌≡◌, ◌⊎◌, refl, sym, ap, ◌∙◌, subst, List, [], ◌∷◌, ◌++◌, none, some, arith, inl, inr,
  get_elem?, set, get_elem?-set_self, bytes_eq_iff, Bool-cases, ◌==◌,
}
use how.Base.Keyed.{lookup, lookup-delete}
use how.Outcome.{Error, Result-cases, wrapped, remote}
use how.Protocol.Message.{
  Envelope, chunk, failure, type_http_response_chunk, type_http_response_end, type_error,
}
use how.Queue.{try_pop}
use how.Handler.Send.{Transport}
use how.Caller.{Caller, Mode, pending_of, remove_pending, poll}
use how.Caller.Request.{Stopped}
use how.Caller.Pump.{PipeOp, wrote, closed, Pipe, goes_on, returned, pump_frame, pump_stopped}
use how.Caller.System.{
  Thread, pumping, ended, System, resume, give_up, takes, pumped, stop_thread, resume_thread,
  at_thread, step, run,
}
use how.Caller.Routing.{pending-remove}
use how.Caller.Delivery.{Standing, resumed, step-resume, next-taken, moved-Standing}

-- Every write fails.
abbrev pub IsBroken : Pipe → Type 0
IsBroken pipe = (ops : List PipeOp) (b : Bytes) → (e : Error) × (pipe ops b ≡ some e)

module _ (m : Mode) (sender : Transport) (pipe : ℕ → Pipe) where
  -- The goroutine has ended and its id is not pending.
  pub record IsFreed (i : ℕ) (k : Bytes) (s : System) : Type 0 where
    pub thread : Thread
    pub at : get_elem? s.threads i ≡ some thread
    pub over : thread.phase ≡ ended
    pub gone : lookup k (pending_of m.is_text s.caller) ≡ none

  removed : (k : Bytes) (c : Caller) → lookup k (pending_of m.is_text (remove_pending m k c)) ≡ none
  removed k c =
      ap (lookup k) (pending-remove m k c)
      ∙ ground (arith, lookup-delete k k (pending_of m.is_text c), bytes_eq_iff k k)

  pub ended-resume :
      (t : Thread) (c : Caller) → t.phase ≡ ended → resume_thread m sender pipe t c ≡ (t, c)
  unfolding resume_thread
  ended-resume t c over = ground arith

  pub ended-stop :
      (t : Thread) (c : Caller) (w : Stopped)
      → t.phase ≡ ended
      → stop_thread m sender pipe w t c ≡ (t, c)
  unfolding stop_thread
  ended-stop t c w over = ground arith

  still-IsFreed :
      (i : ℕ) (k : Bytes) (s : System) (f : Thread → Caller → Thread × Caller) (x : IsFreed i k s)
      → f x.thread s.caller ≡ (x.thread, s.caller)
      → IsFreed i k (at_thread m sender pipe i f (get_elem? s.threads i) s)
  unfolding at_thread
  still-IsFreed i k s f x same =
      subst (λ o. IsFreed i k (at_thread m sender pipe i f o s)) (sym x.at)
        (subst (λ r. IsFreed i k (record { caller = r.1; threads = set s.threads i r.0 }))
          (sym same)
          (record {
            thread = x.thread;
            at = get_elem?-set_self s.threads i x.thread x.thread x.at;
            over = x.over;
            gone = x.gone;
          }))

  resume-IsFreed :
      (i : ℕ) (k : Bytes) (s : System)
      → IsFreed i k s
      → IsFreed i k (step m sender pipe (resume i) s)
  unfolding step
  resume-IsFreed i k s x =
      still-IsFreed i k s (resume_thread m sender pipe) x (ended-resume x.thread s.caller x.over)

  stop-IsFreed :
      (i : ℕ) (k : Bytes) (w : Stopped) (s : System)
      → IsFreed i k s
      → IsFreed i k (step m sender pipe (give_up i w) s)
  unfolding step
  stop-IsFreed i k w s x =
      still-IsFreed i k s (stop_thread m sender pipe w) x (ended-stop x.thread s.caller w x.over)

  -- Into a broken pipe, a frame ends the pump or is ignored.
  broken_frame :
      (p : Pipe) (e : Envelope) (ops : List PipeOp)
      → IsBroken p
      → ((o : List PipeOp) × (pump_frame m p e ops ≡ returned o))
        ⊎ (pump_frame m p e ops ≡ goes_on ops)
  unfolding pump_frame
  broken_frame p e ops broken = elim (Bool-cases (e.type == type_http_response_chunk)) [
    | inl is_chunk ↦ elim (Result-cases (m.wire.decode chunk e)) [
      | inl (c, decoded) ↦
          let (x, fails) = broken ops c.chunk_data in
          inl (ops ++ wrote c.chunk_data ∷ [], ground (arith, fails))
      | inr (x, undecoded) ↦
          inl (ops ++ closed (some (wrapped "decode chunk" x)) ∷ [], ground arith)
    ]
    | inr other ↦ elim (Bool-cases (e.type == type_http_response_end)) [
      | inl is_end ↦ inl (ops ++ closed none ∷ [], ground arith)
      | inr other' ↦ elim (Bool-cases (e.type == type_error)) [
        | inl is_error ↦ elim (Result-cases (m.wire.decode failure e)) [
          | inl (c, decoded) ↦
              inl (ops ++ closed (some (remote c.code c.message)) ∷ [], ground arith)
          | inr (x, undecoded) ↦
              inl (ops ++ closed (some (wrapped "malformed error envelope" x)) ∷ [], ground arith)
        ]
        | inr other'' ↦ inr (ground arith)
      ]
    ]
  ]

  -- A move in which the pump returns.
  freed :
      (i : ℕ) (s : System) (t : Thread) (c : Caller) (o : List PipeOp)
      → get_elem? s.threads i ≡ some t
      → let r = pumped m t c (returned o) in
        IsFreed i t.id (record { caller = r.1; threads = set s.threads i r.0 })
  unfolding pumped
  freed i s t c o at = record {
    thread = record t { ops = o; phase = ended };
    at = get_elem?-set_self s.threads i (record t { ops = o; phase = ended }) t at;
    over = refl;
    gone = removed t.id c;
  }

  stop_empty :
      (s : System) (i : ℕ) (t : Thread) (w : Stopped)
      → t.phase ≡ pumping
      → Standing m sender pipe s i t []
      → stop_thread m sender pipe w t s.caller
        ≡ pumped m t s.caller (returned (pump_stopped w s.caller t.ops))
  unfolding stop_thread poll try_pop
  stop_empty s i t w pumps st = ground (arith, st.held, st.content)

  stop-frees :
      (s : System) (i : ℕ) (t : Thread) (w : Stopped)
      → t.phase ≡ pumping
      → Standing m sender pipe s i t []
      → IsFreed i t.id (step m sender pipe (give_up i w) s)
  unfolding step at_thread
  stop-frees s i t w pumps st =
      subst (λ o. IsFreed i t.id (at_thread m sender pipe i (stop_thread m sender pipe w) o s))
        (sym st.at)
        (subst (λ r. IsFreed i t.id (record { caller = r.1; threads = set s.threads i r.0 }))
          (sym (stop_empty s i t w pumps st))
          (freed i s t s.caller (pump_stopped w s.caller t.ops) st.at))

  run-IsFreed :
      (i : ℕ) (k : Bytes) (w : Stopped) (es : List Envelope) (s : System)
      → IsFreed i k s
      → IsFreed i k (run m sender pipe (takes i es ++ give_up i w ∷ []) s)
  unfolding run
  run-IsFreed i k w [] s x = stop-IsFreed i k w s x
  run-IsFreed i k w (e ∷ es) s x =
      run-IsFreed i k w es (step m sender pipe (resume i) s) (resume-IsFreed i k s x)

  -- The goroutine takes what its queue holds, and then its stop.
  pub drained :
      (es : List Envelope) (s : System) (i : ℕ) (t : Thread) (w : Stopped)
      → IsBroken (pipe t.addr)
      → t.phase ≡ pumping
      → Standing m sender pipe s i t es
      → IsFreed i t.id (run m sender pipe (takes i es ++ give_up i w ∷ []) s)
  unfolding run pumped
  drained [] s i t w broken pumps st = stop-frees s i t w pumps st
  drained (e ∷ es) s i t w broken pumps st =
      let (c, taken, found, kept) = resumed m sender pipe s i t e es st in
      let move : resume_thread m sender pipe t s.caller
          ≡ pumped m t c (pump_frame m (pipe t.addr) e t.ops) =
        next-taken m sender pipe t s.caller c e pumps taken in
      elim (broken_frame (pipe t.addr) e t.ops broken) [
        | inl (o, ends) ↦ run-IsFreed i t.id w es (step m sender pipe (resume i) s) (
            subst (IsFreed i t.id)
              (sym (
                step-resume m sender pipe s i t st.at
                ∙ ap (λ r. record { caller = r.1; threads = set s.threads i r.0 })
                    (move ∙ ap (pumped m t c) ends)))
              (freed i s t c o st.at))
        | inr ignored ↦ drained es (step m sender pipe (resume i) s) i t w broken pumps (
            moved-Standing m sender pipe s i t t e es st (move ∙ ap (pumped m t c) ignored) refl
              refl)
      ]
