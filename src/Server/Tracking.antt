-- ===== src/Server/Tracking.antt =====
-- One request's goroutine of a `HOWHandler` (golang/client/client.go) among the others: what was said
-- under its id and what it will still say.
use how.Base.{
  ℕ, Bytes, ◌≡◌, ◌≢◌, refl, sym, ap, ◌∙◌, subst, List, [], ◌∷◌, ◌++◌, length, none, some,
  append_assoc, inl, inr, Option-cases, get_elem?, get_elem?-set_ne, get_elem?-set_self,
  get_elem?-append_self, get_elem?-append_old, get_elem?-append_cases, get_elem?-lt-length,
  bytes_eq_iff, All, false, if◌then◌else◌,
}
use native.Mathlib.Decide.{ℕ_discrete}
use how.Protocol.Message.{Payload, request}
use how.Protocol.Codecs.{MsgPackLaws}
use how.Protocol.Reading.{Message}
use how.Handler.Send.{Channel, Sink}
use how.Handler.Dispatch.{Spawned, handle_binary_message}
use how.Handler.Forwarding.{Accepts}
use how.Handler.Service.{Service}
use how.Server.{
  Work, Job, Server, Label, arrive, advance, spawn, advance_work, step, run, with_spawned,
  advance_job,
}
use how.Server.Transcript.{said, said-Extends, will_say, IsUnder, advance_work-Advanced}
use how.Server.Apart.{NotFor, spawn-IsUnder, carrier, Apart, step-Apart, step-unsaid, step-advance}

abbrev pub nothing_yet : Server
nothing_yet = record { sink = []; jobs = [] }

spawned-at :
    (h : Channel) (service : Service) (jobs : List Job) (r : Spawned × Sink) (i : ℕ) {t : Job}
    → get_elem? jobs i ≡ some t
    → get_elem? (with_spawned h service jobs r).jobs i ≡ some t
unfolding with_spawned
spawned-at h service jobs (none, sink) i at = at
spawned-at h service jobs (some (id, req), sink) i at =
    get_elem?-append_old jobs _ i (get_elem?-lt-length jobs i at) ∙ at

module _ (h : Channel) (laws : MsgPackLaws h.mp) (is_binary : h.text_mode ≡ false)
    (accepts : Accepts h) (service : Service) (k : Bytes) where
  -- Goroutine `i` has the id `k`, alone; what was said under `k` and what it will say make `whole`.
  pub record OnTrack (i : ℕ) (whole : List Message) (s : Server) : Type 0 where
    pub job : Job
    pub at : get_elem? s.jobs i ≡ some job
    pub own : job.id ≡ k
    pub total : said h k s.sink ++ will_say h job.work ≡ whole
    pub apart : Apart h laws is_binary accepts service k (λ j. i ≡ j) s.jobs

  own-advance :
      (i : ℕ) (whole : List Message) (s : Server)
      → OnTrack i whole s
      → OnTrack i whole (step h service (advance i) s)
  own-advance i whole s on =
      let t : Job = on.job in
      let r : Work × Sink = advance_work h t.id t.work s.sink in
      let (under, (ms, sent, total)) =
        advance_work-Advanced h (carrier h laws is_binary accepts service k) accepts t.id t.work
          s.sink (on.apart i t on.at).1 in
      let next = step-advance h laws is_binary accepts service k i s on.at in
      let now : said h k r.1 ≡ said h k s.sink ++ ms =
        said-Extends h k t.id s.sink r.1 ms sent
        ∙ ap (λ b. said h k s.sink ++ (if b then ms else [])) ((bytes_eq_iff t.id k).1 on.own) in
      record {
        job = record t { work = r.0 };
        at =
            ap (λ x. get_elem? x.jobs i) next
            ∙ get_elem?-set_self s.jobs i (record t { work = r.0 }) t on.at;
        own = on.own;
        total =
            ap (λ x. said h k x.sink ++ will_say h r.0) next
            ∙ ap (λ l. l ++ will_say h r.0) now
            ∙ append_assoc (said h k s.sink) ms (will_say h r.0)
            ∙ ap (λ l. said h k s.sink ++ l) (sym total)
            ∙ on.total;
        apart =
            step-Apart h laws is_binary accepts service k (λ j. i ≡ j) (advance i) s tt on.apart;
      }

  other-step :
      (i : ℕ) (whole : List Message) (l : Label) (s : Server)
      → NotFor h k l
      → ((j : ℕ) → l ≡ advance j → i ≢ j)
      → ((t : Job) → get_elem? s.jobs i ≡ some t → get_elem? (step h service l s).jobs i ≡ some t)
      → OnTrack i whole s
      → OnTrack i whole (step h service l s)
  other-step i whole l s foreign free stays on = record {
    job = on.job;
    at = stays on.job on.at;
    own = on.own;
    total =
        ap (λ x. x ++ will_say h on.job.work)
          (step-unsaid h laws is_binary accepts service k (λ j. i ≡ j) l s foreign free on.apart)
        ∙ on.total;
    apart = step-Apart h laws is_binary accepts service k (λ j. i ≡ j) l s foreign on.apart;
  }

  stays-advance :
      (i j : ℕ) (s : Server) (t : Job)
      → i ≢ j
      → get_elem? s.jobs i ≡ some t
      → get_elem? (step h service (advance j) s).jobs i ≡ some t
  unfolding step advance_job
  stays-advance i j s t ne at = elim (Option-cases (get_elem? s.jobs j)) [
    | inl nobody ↦ rw (nobody, advance_job) at
    | inr (u, there) ↦
        ap (λ x. get_elem? x.jobs i) (step-advance h laws is_binary accepts service k j s there)
        ∙ get_elem?-set_ne s.jobs j i _ (λ e. ne (sym e))
        ∙ at
  ]

  step-OnTrack :
      (i : ℕ) (whole : List Message) (l : Label) (s : Server)
      → NotFor h k l
      → OnTrack i whole s
      → OnTrack i whole (step h service l s)
  unfolding step
  step-OnTrack i whole (arrive bytes) s foreign on =
      other-step i whole (arrive bytes) s foreign (λ j e. absurd (cc))
        (λ t at. spawned-at h service s.jobs (handle_binary_message h bytes s.sink) i at) on
  step-OnTrack i whole (advance j) s foreign on = elim (ℕ_discrete i j) [
    | yes own ↦
        subst (λ n. OnTrack i whole (step h service (advance n) s)) own (own-advance i whole s on)
    | no other ↦
        other-step i whole (advance j) s foreign (λ n e. λ same. other (cc (same, e)))
          (λ t at. stays-advance i j s t other at) on
  ]

  pub run-OnTrack :
      (i : ℕ) (whole : List Message) (ls : List Label) (s : Server)
      → All (NotFor h k) ls
      → OnTrack i whole s
      → OnTrack i whole (run h service ls s)
  unfolding run
  run-OnTrack i whole [] s foreign on = on
  run-OnTrack i whole (l ∷ ls) s foreign on =
      run-OnTrack i whole ls (step h service l s) foreign.1 (step-OnTrack i whole l s foreign.0 on)

  -- Before the request: no goroutine has its id, and nothing was said under it.
  abbrev pub Unseen : Server → Type 0
  Unseen s = Apart h laws is_binary accepts service k (λ j. ⊥) s.jobs × (said h k s.sink ≡ [])

  pub run-Unseen :
      (ls : List Label) (s : Server) → All (NotFor h k) ls → Unseen s → Unseen (run h service ls s)
  unfolding run
  run-Unseen [] s foreign unseen = unseen
  run-Unseen (l ∷ ls) s foreign (apart, silent) = run-Unseen ls (step h service l s) foreign.1 (
    step-Apart h laws is_binary accepts service k (λ j. ⊥) l s foreign.0 apart,
    step-unsaid h laws is_binary accepts service k (λ j. ⊥) l s foreign.0 (λ j e x. x) apart
        ∙ silent,
  )

  pub run-append :
      (ls ks : List Label) (s : Server)
      → run h service (ls ++ ks) s ≡ run h service ks (run h service ls s)
  unfolding run
  run-append [] ks s = refl
  run-append (l ∷ ls) ks s = run-append ls ks (step h service l s)

  -- The goroutine of a request, as it starts.
  pub start-OnTrack :
      (s : Server) (bytes : Bytes) (req : Payload request)
      → handle_binary_message h bytes s.sink ≡ (some (k, req), s.sink)
      → Unseen s
      → OnTrack
          (length s.jobs)
          (will_say h (spawn h service k req))
          (step h service (arrive bytes) s)
  unfolding step with_spawned
  start-OnTrack s bytes req started (apart, silent) =
      let t : Job = record { id = k; work = spawn h service k req } in
      let whole : List Message = will_say h (spawn h service k req) in
      subst (λ r. OnTrack (length s.jobs) whole (with_spawned h service s.jobs r)) (sym started)
        (record {
          job = t;
          at = get_elem?-append_self s.jobs t;
          own = refl;
          total = ap (λ l. l ++ whole) silent;
          apart = λ j u at. elim (get_elem?-append_cases s.jobs t j at) [
            | inl old ↦ ((λ free. (apart j u old).0 (λ x. x)), (apart j u old).1)
            | inr (place, new) ↦ (
              (λ free. absurd (free place)),
              subst (λ x. IsUnder x.id x.work) (sym new) (spawn-IsUnder h service k req),
            )
          ];
        })
