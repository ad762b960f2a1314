-- ===== src/Caller/Reply.antt =====
-- A request of golang/client/client.go from its `wait` on, beside everything else that the caller does: its
-- goroutine follows the messages under its id.
use how.Base.{
  ℕ, Bytes, ◌≡◌, ◌≢◌, refl, sym, ap, ◌∙◌, subst, List, [], ◌∷◌, ◌++◌, some, inl, inr, get_elem?,
  ◌⊎◌, append_assoc, append-nil,
}
use how.Protocol.Message.{Envelope}
use how.Protocol.Wire.{Wire}
use how.Protocol.Reading.{Message, read_envelope, read_message, envelope_of}
use how.Handler.Send.{Transport}
use how.Caller.{Mode}
use how.Caller.Pump.{Pipe}
use how.Caller.System.{
  Thread, Phase, awaiting, pumping, ended, System, Label, arrive, resume, takes, step, run,
}
use how.Caller.Body.{Reads, Open}
use how.Caller.Hearing.{heard, heard_in, after_hearing, heard-same}
use how.Caller.Sole.{IsElsewhere, IsSole, elsewhere-IsSole}
use how.Caller.Following.{frame-IsSole, blocked-IsSole, heard-IsSole, heard-at, ended-run}

-- Labels in which goroutine `i` is not stopped, and what the frames under the id `k` among them say.
pub data Telling (m : Mode) (i : ℕ) (k : Bytes) : List Label → List Message → Type 0 where
  silent : Telling m i k [] []
  frame :
      {ls : List Label} {ms : List Message} (d : Bytes) (msg : Message)
      → read_message m.wire d ≡ some (k, msg)
      → Telling m i k ls ms
      → Telling m i k (arrive d ∷ ls) (msg ∷ ms)
  take :
      {ls : List Label} {ms : List Message} → Telling m i k ls ms → Telling m i k (resume i ∷ ls) ms
  elsewhere :
      {ls : List Label} {ms : List Message} (l : Label)
      → IsElsewhere m i k l
      → Telling m i k ls ms
      → Telling m i k (l ∷ ls) ms

Phase-cases : (p : Phase) → (p ≡ ended) ⊎ (p ≢ ended)
Phase-cases awaiting = inr (λ e. cc)
Phase-cases pumping = inr (λ e. cc)
Phase-cases ended = inl refl

Reads-append :
    (w : Wire) (k : Bytes) (es : List Envelope) (ms : List Message) (e : Envelope) (msg : Message)
    → Reads w k es ms
    → read_envelope w e ≡ some (k, msg)
    → Reads w k (es ++ e ∷ []) (ms ++ msg ∷ [])
Reads-append w k [] [] e msg reads read = (read, tt)
Reads-append w k [] (x ∷ ms) e msg reads read = absurd reads
Reads-append w k (f ∷ es) [] e msg reads read = absurd reads
Reads-append w k (f ∷ es) (x ∷ ms) e msg reads read =
    (reads.0, Reads-append w k es ms e msg reads.1 read)

ended-hearing : (t : Thread) (ms : List Message) → t.phase ≡ ended → after_hearing t ms ≡ t
unfolding after_hearing heard
ended-hearing t [] over = refl
ended-hearing t (x ∷ ms) over =
    let same : heard t x ≡ t = ap (λ p. heard_in p t x) over in
    ap (λ u. after_hearing u ms) same ∙ ended-hearing t ms over

hearing-append :
    (t : Thread) (ms ns : List Message)
    → after_hearing t (ms ++ ns) ≡ after_hearing (after_hearing t ms) ns
unfolding after_hearing
hearing-append t [] ns = refl
hearing-append t (x ∷ ms) ns = hearing-append (heard t x) ms ns

module _ (m : Mode) (sender : Transport) (pipe : ℕ → Pipe) (i : ℕ) (k : Bytes) where
  -- Goroutine `i` has heard the first of these messages, in order, and the others wait in its queue
  -- (unless it has ended).
  pub record Followed (t : Thread) (ms : List Message) (s : System) : Type 0 where
    pub taken : List Message
    pub rest : List Message
    pub all : taken ++ rest ≡ ms
    pub at : get_elem? s.threads i ≡ some (after_hearing t taken)
    pub waits :
        (after_hearing t taken).phase ≢ ended
        → (es : List Envelope) × Reads m.wire k es rest
          × IsSole m sender pipe i (after_hearing t taken) es s

  -- `Request` waits under the id `k` in goroutine `i`, which alone has this id and its queue, and the
  -- reader of a body keeps it open. Whatever else the caller does in between (requests under other ids,
  -- their frames, their ends, `Close`), as long as this goroutine is not stopped: it is what the first of
  -- the messages under its id, in order, make of it, and while it lives the others wait in its queue.
  pub request_follows_messages :
      (t : Thread) (es : List Envelope) (held : List Message) (s : System) {ls : List Label}
      {ms : List Message}
      → Open (pipe t.addr)
      → t.phase ≢ ended
      → t.id ≡ k
      → IsSole m sender pipe i t es s
      → Reads m.wire k es held
      → Telling m i k ls ms
      → Followed t (held ++ ms) (run m sender pipe ls s)
  unfolding run after_hearing
  request_follows_messages t es held s reader live same sole reads silent = record {
    taken = [];
    rest = held;
    all = sym (append-nil held);
    at = sole.standing.at;
    waits = λ l. (es, reads, sole);
  }
  request_follows_messages t es held s reader live same sole reads
        (frame {ls} {ms} d msg read telling) =
      let (env, arrived, its, mine) = envelope_of m.wire d k msg read in
      subst (λ l. Followed t l (run m sender pipe (arrive d ∷ ls) s))
        (append_assoc held (msg ∷ []) ms)
        (request_follows_messages t (es ++ env ∷ []) (held ++ msg ∷ [])
          (step m sender pipe (arrive d) s) reader live same
          (frame-IsSole m sender pipe i t es s d env arrived (mine ∙ sym same) sole)
          (Reads-append m.wire k es held env msg reads its) telling)
  request_follows_messages t es held s reader live same sole reads (elsewhere l other telling) =
      request_follows_messages t es held (step m sender pipe l s) reader live same
        (elsewhere-IsSole m sender pipe i t es l s
          (subst (λ n. IsElsewhere m i n l) (sym same) other) sole)
        reads telling
  request_follows_messages t [] [] s reader live same sole reads (take telling) =
      request_follows_messages t [] [] (step m sender pipe (resume i) s) reader live same
        (blocked-IsSole m sender pipe i t s live sole) reads telling
  request_follows_messages t [] (x ∷ held) s reader live same sole reads (take telling) =
      absurd reads
  request_follows_messages t (e ∷ es) [] s reader live same sole reads (take telling) = absurd reads
  request_follows_messages t (e ∷ es) (x ∷ held) s reader live same sole reads
        (take {ls} {ms} telling) =
      let s' : System = step m sender pipe (resume i) s in
      let (same_id, same_addr) = heard-same t x in
      elim (Phase-cases (heard t x).phase) [
        | inl over ↦ record {
          taken = x ∷ [];
          rest = held ++ ms;
          all = refl;
          at =
              ended-run m sender pipe i (heard t x) ls s' over
                (heard-at m sender pipe i t e es s k x reader reads.0 live sole.standing);
          waits = λ l. absurd (l over);
        }
        | inr goes ↦
            let f : Followed (heard t x) (held ++ ms) (run m sender pipe ls s') =
              request_follows_messages (heard t x) es held s'
                (subst (λ a. Open (pipe a)) (sym same_addr) reader) goes (same_id ∙ same)
                (heard-IsSole m sender pipe i t e es s k x reader reads.0 live goes sole) reads.1
                telling in
            record {
              taken = x ∷ f.taken;
              rest = f.rest;
              all = ap (λ l. x ∷ l) f.all;
              at = f.at;
              waits = f.waits;
            }
      ]

  -- The goroutine takes all that its queue holds.
  queue_taken :
      (t : Thread) (es : List Envelope) (ms : List Message) (s : System)
      → Open (pipe t.addr)
      → t.phase ≢ ended
      → IsSole m sender pipe i t es s
      → Reads m.wire k es ms
      → get_elem? (run m sender pipe (takes i es) s).threads i ≡ some (after_hearing t ms)
  unfolding run after_hearing
  queue_taken t [] [] s reader live sole reads = sole.standing.at
  queue_taken t [] (x ∷ ms) s reader live sole reads = absurd reads
  queue_taken t (e ∷ es) [] s reader live sole reads = absurd reads
  queue_taken t (e ∷ es) (x ∷ ms) s reader live sole reads =
      let s' : System = step m sender pipe (resume i) s in
      elim (Phase-cases (heard t x).phase) [
        | inl over ↦
            ended-run m sender pipe i (heard t x) (takes i es) s' over
              (heard-at m sender pipe i t e es s k x reader reads.0 live sole.standing)
            ∙ ap some (sym (ended-hearing (heard t x) ms over))
        | inr goes ↦
            queue_taken (heard t x) es ms s'
              (subst (λ a. Open (pipe a)) (sym (heard-same t x).1) reader) goes
              (heard-IsSole m sender pipe i t e es s k x reader reads.0 live goes sole) reads.1
      ]

  after_hearing-addr : (t : Thread) (ms : List Message) → (after_hearing t ms).addr ≡ t.addr
  unfolding after_hearing
  after_hearing-addr t [] = refl
  after_hearing-addr t (x ∷ ms) = after_hearing-addr (heard t x) ms ∙ (heard-same t x).1

  -- From there, after enough takes the goroutine is what all the messages make of it.
  pub Followed-hears_all :
      (t : Thread) (ms : List Message) (s : System)
      → Open (pipe t.addr)
      → Followed t ms s
      → (es : List Envelope) × (get_elem? (run m sender pipe (takes i es) s).threads i
          ≡ some (after_hearing t ms))
  unfolding run
  Followed-hears_all t ms s reader f =
      let u : Thread = after_hearing t f.taken in
      let whole : after_hearing t ms ≡ after_hearing u f.rest =
        ap (after_hearing t) (sym f.all) ∙ hearing-append t f.taken f.rest in
      elim (Phase-cases u.phase) [
        | inl over ↦ ([], f.at ∙ ap some (sym (ended-hearing u f.rest over) ∙ sym whole))
        | inr live ↦
            let (es, reads, sole) = f.waits live in
            (
              es,
              queue_taken u es f.rest s
                    (subst (λ a. Open (pipe a)) (sym (after_hearing-addr t f.taken)) reader) live
                    sole reads
                  ∙ ap some (sym whole),
            )
      ]
