-- ===== src/Queue/Fifo.antt =====
-- `frameQueue` delivers every frame once, in the order of the pushes (client.go, `push`, `tryPop`,
-- `wait`).
use how.Base.{◌≡◌, refl, List, [], ◌∷◌, ◌++◌, append_assoc, some, arith, List-cases, inl, inr}
use how.Queue.Machine.{Machine, Label, initial, step, run, run-keeps, enqueue, poll}

module _ {T : Type 0} where
  -- The frames pushed are those taken, then those still queued.
  abbrev pub IsFifo : Machine T → Type 0
  IsFifo m = m.pushed ≡ m.taken ++ m.q.queue

  -- What a `tryPop` takes goes from the head of the queue to the end of the history.
  poll-IsFifo : (m : Machine T) {m' : Machine T} → IsFifo m → step m poll ≡ some m' → IsFifo m'
  unfolding step
  poll-IsFifo m h e = elim (List-cases m.q.queue) [
    | inl empty ↦ ground arith
    | inr (x, rest, split) ↦ ground (arith, append_assoc m.taken (x ∷ []) rest)
  ]

  pub step-IsFifo :
      (m : Machine T) (l : Label T) {m' : Machine T} → IsFifo m → step m l ≡ some m' → IsFifo m'
  unfolding step
  step-IsFifo m (enqueue env) h e = ground (arith, append_assoc m.taken m.q.queue (env ∷ []))
  step-IsFifo m poll h e = poll-IsFifo m h e
  step-IsFifo m _ h e = ground arith

  -- Whatever the schedule of pushes, signals, stops and calls of `wait`, the frames that the consumer
  -- has taken followed by those still in the queue are exactly the frames pushed, in their order.
  pub delivery_in_order :
      (ls : List (Label T)) {m : Machine T}
      → run initial ls ≡ some m
      → m.pushed ≡ m.taken ++ m.q.queue
  unfolding initial
  delivery_in_order ls {m} e =
      run-keeps IsFifo (λ m l m' h s. step-IsFifo m l h s) initial ls m refl e
