-- ===== src/Server/Apart.antt =====
-- A step of a `HOWHandler` (golang/client/client.go) that does not concern a request id says nothing
-- under that id.
use how.Base.{
  ℕ, Bytes, ◌≡◌, ◌≢◌, refl, sym, ap, ◌∙◌, subst, List, [], none, some, arith, append-nil, inl, inr,
  Option-cases, get_elem?, set, get_elem?-set_ne, get_elem?-set_self, get_elem?-append_cases,
  bytes_eq_iff, false,
}
use native.Mathlib.Decide.{ℕ_discrete}
use how.Outcome.{ok}
use how.Protocol.Message.{Envelope, Payload, request}
use how.Protocol.Codecs.{MsgPackLaws}
use how.Protocol.Wire.{binary_wire, unmarshal}
use how.Protocol.Reading.{Message, http_request, envelope_of}
use how.Protocol.Binary.{binary-Lossless, AnyId, AnyPayload}
use how.Handler.Send.{Channel, Sink}
use how.Handler.Writer.{new_response_writer}
use how.Handler.Dispatch.{Spawned, handle_binary_message}
use how.Handler.Saying.{Reliable, Extends}
use how.Handler.Forwarding.{Accepts}
use how.Handler.Receiving.{Reception, to_serve, to_refuse, no_frame, other_type}
use how.Handler.Reception.{every_frame_received, binary_side}
use how.Handler.Service.{Service, answers, streams}
use how.Server.{
  Work, Job, Server, Label, arrive, advance, spawn, advance_work, step, with_spawned, advance_job,
}
use how.Server.Transcript.{said, said-Extends, IsUnder, advance_work-Advanced}

-- The frame brings nothing under the id `k`.
abbrev pub NotFor : Channel → Bytes → Label → Type 0
NotFor h k (arrive bytes) = (env : Envelope) → unmarshal h.mp bytes ≡ ok env → env.request_id ≢ k
NotFor h k (advance i) = Unit

pub spawn-IsUnder :
    (h : Channel) (service : Service) (id : Bytes) (req : Payload request)
    → IsUnder id (spawn h service id req)
unfolding spawn new_response_writer
spawn-IsUnder h (answers serve) id req = tt
spawn-IsUnder h (streams serve) id req = refl

module _ (h : Channel) (laws : MsgPackLaws h.mp) (is_binary : h.text_mode ≡ false)
    (accepts : Accepts h) (service : Service) (k : Bytes) where
  pub carrier : Reliable h AnyId AnyPayload
  carrier = record {
    binary_ok = λ e. binary-Lossless h.mp laws;
    text_ok = λ e. absurd (cc (is_binary, e));
  }

  own_side :
      (id : Bytes) (a b : Sink) (ms : List Message)
      → Extends (binary_side h) id a b ms
      → Extends h id a b ms
  own_side id a b ms =
      subst
        (λ t. Extends (binary_side h) id a b ms → Extends (record h { text_mode = t }) id a b ms)
        (sym is_binary) (λ x. x)

  unsaid :
      (id : Bytes) (a b : Sink) (ms : List Message)
      → id ≢ k
      → Extends h id a b ms
      → said h k b ≡ said h k a
  unsaid id a b ms other sent =
      said-Extends h k id a b ms sent ∙ ground (arith, bytes_eq_iff id k, append-nil (said h k a))

  -- A frame that is not for `k` starts no goroutine under `k` and says nothing under `k`.
  arrival :
      (bytes : Bytes) (sink : Sink)
      → NotFor h k (arrive bytes)
      → let r = handle_binary_message h bytes sink in
        (said h k r.1 ≡ said h k sink)
        × ((id : Bytes) (req : Payload request) → r.0 ≡ some (id, req) → id ≢ k)
  arrival bytes sink foreign =
      let r : Spawned × Sink = handle_binary_message h bytes sink in
      let (spawned, id, ms, how_, same, sent) = every_frame_received h laws bytes sink in
      go spawned id ms r how_ same (own_side id sink r.1 ms sent)
    where
      go :
          (spawned : Spawned) (id : Bytes) (ms : List Message) (r : Spawned × Sink)
          → Reception h (binary_wire h.mp) bytes spawned id ms
          → r.0 ≡ spawned
          → Extends h id sink r.1 ms
          → (said h k r.1 ≡ said h k sink)
            × ((id : Bytes) (req : Payload request) → r.0 ≡ some (id, req) → id ≢ k)
      go _ _ _ r (to_serve id req reads) same sent =
          let (env, arrived, read, mine) =
            envelope_of (binary_wire h.mp) bytes id (http_request req) reads in
          let other : id ≢ k = λ e. foreign env arrived (mine ∙ e) in
          (unsaid id sink r.1 [] other sent, (λ j q started. λ e. other (cc)))
      go _ _ _ r (to_refuse env e arrived is_request broken) same sent = (
        unsaid env.request_id sink r.1 _ (foreign env arrived) sent,
        (λ j q started. absurd (cc)),
      )
      go _ _ _ r (no_frame e broken) same sent = (
        said-Extends h k [] sink r.1 [] sent ∙ ground (arith, append-nil (said h k sink)),
        (λ j q started. absurd (cc)),
      )
      go _ _ _ r (other_type env arrived other) same sent = (
        unsaid env.request_id sink r.1 [] (foreign env arrived) sent,
        (λ j q started. absurd (cc)),
      )

  -- Every goroutine writes under its own id, and those that `skip` does not name have another id than `k`.
  abbrev pub Apart : (ℕ → Type 0) → List Job → Type 0
  Apart skip jobs =
      (j : ℕ) (u : Job)
      → get_elem? jobs j ≡ some u
      → ((skip j → ⊥) → u.id ≢ k) × IsUnder u.id u.work

  pub spawned-Apart :
      (skip : ℕ → Type 0) (jobs : List Job) (r : Spawned × Sink)
      → ((id : Bytes) (req : Payload request) → r.0 ≡ some (id, req) → id ≢ k)
      → Apart skip jobs
      → Apart skip (with_spawned h service jobs r).jobs
  unfolding with_spawned
  spawned-Apart skip jobs (none, sink) other apart j u at = apart j u at
  spawned-Apart skip jobs (some (id, req), sink) other apart j u at =
      elim (get_elem?-append_cases jobs (record { id = id; work = spawn h service id req }) j at) [
        | inl old ↦ apart j u old
        | inr (place, new) ↦ (
          (λ free e. other id req refl (sym (ap (λ x. x.id) new) ∙ e)),
          subst (λ x. IsUnder x.id x.work) (sym new) (spawn-IsUnder h service id req),
        )
      ]

  pub advanced-Apart :
      (skip : ℕ → Type 0) (jobs : List Job) (i : ℕ) (t : Job) (w : Work)
      → get_elem? jobs i ≡ some t
      → IsUnder t.id w
      → Apart skip jobs
      → Apart skip (set jobs i (record t { work = w }))
  advanced-Apart skip jobs i t w at under apart j u found = elim (ℕ_discrete i j) [
    | yes same ↦
        let its : record t { work = w } ≡ u =
          ground (arith, get_elem?-set_self jobs i (record t { work = w }) t at) in
        let (other, mine) = apart i t at in
        (
          (λ free e. other (λ s. free (subst skip same s)) (ap (λ x. x.id) its ∙ e)),
          subst (λ x. IsUnder x.id x.work) its under,
        )
    | no apart_ ↦ apart j u (sym (get_elem?-set_ne jobs i j (record t { work = w }) apart_) ∙ found)
  ]

  pub step-advance :
      (i : ℕ) (s : Server) {t : Job}
      → get_elem? s.jobs i ≡ some t
      → let r = advance_work h t.id t.work s.sink in
        step h service (advance i) s
        ≡ record { sink = r.1; jobs = set s.jobs i (record t { work = r.0 }) }
  unfolding step advance_job
  step-advance i s at = rw (at, advance_job)

  step-nobody : (i : ℕ) (s : Server) → get_elem? s.jobs i ≡ none → step h service (advance i) s ≡ s
  unfolding step advance_job
  step-nobody i s nobody = rw (nobody, advance_job)

  pub step-Apart :
      (skip : ℕ → Type 0) (l : Label) (s : Server)
      → NotFor h k l
      → Apart skip s.jobs
      → Apart skip (step h service l s).jobs
  unfolding step
  step-Apart skip (arrive bytes) s foreign apart =
      spawned-Apart skip s.jobs (handle_binary_message h bytes s.sink)
        (arrival bytes s.sink foreign).1 apart
  step-Apart skip (advance i) s foreign apart = elim (Option-cases (get_elem? s.jobs i)) [
    | inl nobody ↦ subst (λ x. Apart skip x.jobs) (sym (step-nobody i s nobody)) apart
    | inr (t, at) ↦
        subst (λ x. Apart skip x.jobs) (sym (step-advance i s at))
          (advanced-Apart skip s.jobs i t _ at
            (advance_work-Advanced h carrier accepts t.id t.work s.sink (apart i t at).1).0 apart)
  ]

  spawned-sink : (jobs : List Job) (r : Spawned × Sink) → (with_spawned h service jobs r).sink ≡ r.1
  unfolding with_spawned
  spawned-sink jobs (none, sink) = refl
  spawned-sink jobs (some (id, req), sink) = refl

  -- A move of a goroutine with another id says nothing under `k`.
  pub step-unsaid :
      (skip : ℕ → Type 0) (l : Label) (s : Server)
      → NotFor h k l
      → ((i : ℕ) → l ≡ advance i → skip i → ⊥)
      → Apart skip s.jobs
      → said h k (step h service l s).sink ≡ said h k s.sink
  unfolding step
  step-unsaid skip (arrive bytes) s foreign free apart =
      ap (said h k) (spawned-sink s.jobs (handle_binary_message h bytes s.sink))
      ∙ (arrival bytes s.sink foreign).0
  step-unsaid skip (advance i) s foreign free apart = elim (Option-cases (get_elem? s.jobs i)) [
    | inl nobody ↦ ap (λ x. said h k x.sink) (step-nobody i s nobody)
    | inr (t, at) ↦
        let r : Work × Sink = advance_work h t.id t.work s.sink in
        let (under, (ms, sent, total)) =
          advance_work-Advanced h carrier accepts t.id t.work s.sink (apart i t at).1 in
        ap (λ x. said h k x.sink) (step-advance i s at)
        ∙ unsaid t.id s.sink r.1 ms ((apart i t at).0 (free i refl)) sent
  ]
