-- ===== src/Caller/Silence.antt =====
-- When the read timer of golang/client/client.go ends a wait.
use how.Base.{
  ℕ, ◌+◌, ◌≤◌, ◌<◌, ◌≡◌, ◌↔◌, ◌⊎◌, refl, List, [], ◌∷◌, true, false, Option, none, some, arith, ltb,
  leb, inl, inr, Bool-cases,
}
use how.Caller.{Caller, effective_timeout}
use how.Caller.ReadTimer.{
  Timer, Clocked, Label, elapse, frame, arm, rearm_if, fire_if, is_due, start_at, step, run,
}

-- The time since the last frame, or since the start.
abbrev pub silence : ℕ → List Label → ℕ
silence n [] = n
silence n (elapse d ∷ ls) = silence (n + d) ls
silence n (frame ∷ ls) = silence 0 ls

module _ (timeout : ℕ) where
  abbrev IsTimed : ℕ → ℕ → Option Timer → Type 0
  IsTimed now n none = timeout ≡ 0
  IsTimed now n (some t) =
      (0 < timeout)
      × (((t.deadline ≡ none) × (t.tick ≡ true) × (timeout ≤ n))
          ⊎ ((d : ℕ) × (t.deadline ≡ some d)
              × (t.tick ≡ false)
              × (d + n ≡ now + timeout)
              × (n < timeout)))

  fire-IsTimed :
      (now n d : ℕ) (t : Option Timer)
      → IsTimed now n t
      → IsTimed (now + d) (n + d) (fire_if (now + d) t)
  unfolding fire_if
  fire-IsTimed now n d none h = h
  fire-IsTimed now n d (some t) (pos_, inl (stopped, ticked, late)) =
      (pos_, inl (ground arith, ground arith, omega arith))
  fire-IsTimed now n d (some t) (pos_, inr (due, running, quiet, at, early)) =
      elim (Bool-cases (leb due (now + d))) [
        | inl come ↦ (pos_, inl (ground arith, ground arith, ground arith))
        | inr later ↦ (pos_, inr (due, ground arith, ground arith, omega arith, ground arith))
      ]

  rearm-IsTimed :
      (now n : ℕ) (t : Option Timer) → IsTimed now n t → IsTimed now 0 (rearm_if now timeout t)
  unfolding rearm_if
  rearm-IsTimed now n none h = h
  rearm-IsTimed now n (some t) (pos_, inl (stopped, ticked, late)) =
      (pos_, inr (now + timeout, ground arith, ground arith, omega arith, pos_))
  rearm-IsTimed now n (some t) (pos_, inr (due, running, quiet, at, early)) =
      (pos_, inr (now + timeout, ground arith, ground arith, omega arith, pos_))

  arm-IsTimed : (now : ℕ) → IsTimed now 0 (arm now timeout)
  unfolding arm
  arm-IsTimed now = elim (Bool-cases (ltb 0 timeout)) [
    | inl on ↦ rw on (ground arith, inr (now + timeout, refl, refl, omega arith, ground arith))
    | inr off ↦ rw off (ground arith)
  ]

  due_iff :
      (now n : ℕ) (t : Option Timer)
      → IsTimed now n t
      → (is_due t ≡ true) ↔ ((0 < timeout) × (timeout ≤ n))
  unfolding is_due
  due_iff now n none h = ((λ e. cc), (λ (some_, late). absurd (omega arith)))
  due_iff now n (some t) (pos_, inl (stopped, ticked, late)) = ((λ e. (pos_, late)), (λ e. ticked))
  due_iff now n (some t) (pos_, inr (due, running, quiet, at, early)) =
      ((λ e. cc), (λ e. absurd (omega arith)))

module _ (c : Caller) where
  run-IsTimed :
      (ls : List Label) (n : ℕ) (s : Clocked)
      → IsTimed (effective_timeout c) s.now n s.timer
      → let s' = run c ls s in IsTimed (effective_timeout c) s'.now (silence n ls) s'.timer
  unfolding run step
  run-IsTimed [] n s h = h
  run-IsTimed (elapse d ∷ ls) n s h =
      run-IsTimed ls (n + d) (step c (elapse d) s)
        (fire-IsTimed (effective_timeout c) s.now n d s.timer h)
  run-IsTimed (frame ∷ ls) n s h =
      run-IsTimed ls 0 (step c frame s) (rearm-IsTimed (effective_timeout c) s.now n s.timer h)

  -- However frames and the passing of time follow one another after the timer was armed: it is due
  -- exactly where the caller has a timeout and at least that time has passed since the last frame (since
  -- the start, where none came).
  pub timeout_iff_silence :
      (start : ℕ) (ls : List Label)
      → (is_due (run c ls (start_at c start)).timer ≡ true)
        ↔ ((0 < effective_timeout c) × (effective_timeout c ≤ silence 0 ls))
  unfolding start_at
  timeout_iff_silence start ls =
      let s : Clocked = run c ls (start_at c start) in
      due_iff (effective_timeout c) s.now (silence 0 ls) s.timer
        (run-IsTimed ls 0 (start_at c start) (arm-IsTimed (effective_timeout c) start))
