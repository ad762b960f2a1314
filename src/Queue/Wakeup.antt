-- ===== src/Queue/Wakeup.antt =====
-- `wait` of client.go never sleeps beside a frame and never gives up beside one.
use how.Base.{◌<◌, ◌≡◌, refl, ◌⊎◌, true, false, ◌≢◌, ◌∷◌, ◌++◌, append-nil, List, [], some, arith}
use how.Queue.Machine.{
  Machine, Label, initial, step, run, run-keeps, selecting, gave_up, outside, take_sig, poll,
}
use how.Queue.Fifo.{step-IsFifo, delivery_in_order}

module _ {T : Type 0} where
  -- A consumer that is blocked beside a frame has a token to take, or one is about to be offered.
  record IsAwake (m : Machine T) : Type 0 where
    awake : m.waiter ≡ selecting → (m.q.queue ≡ []) ⊎ (m.q.sig ≡ true) ⊎ (0 < m.signalling)

  step-IsAwake :
      (m : Machine T) (l : Label T) {m' : Machine T} → IsAwake m → step m l ≡ some m' → IsAwake m'
  unfolding step
  step-IsAwake m l h e = ground arith

  initial-IsAwake : IsAwake initial
  unfolding initial
  initial-IsAwake = ground arith

  reached-IsAwake : (ls : List (Label T)) {m : Machine T} → run initial ls ≡ some m → IsAwake m
  reached-IsAwake ls {m} e =
      run-keeps IsAwake (λ m l m' h s. step-IsAwake m l h s) initial ls m initial-IsAwake e

  -- In every state that a schedule reaches where the consumer is blocked in the select, no push is
  -- half done and no token lies in `sig`, the queue is empty: no wakeup is lost.
  pub no_lost_wakeup :
      (ls : List (Label T)) {m : Machine T}
      → run initial ls ≡ some m
      → m.waiter ≡ selecting
      → m.signalling ≡ 0
      → m.q.sig ≡ false
      → m.q.queue ≡ []
  no_lost_wakeup ls {m} e blocked quiet no_token =
      ground (arith, (reached-IsAwake ls e).awake blocked)

  -- Where the consumer is blocked in a reached state, no push is half done and the queue begins with
  -- `env`, taking the token and polling is enabled and hands `env` out.
  pub wakeup_delivers :
      (ls : List (Label T)) {m : Machine T} (env : T) (rest : List T)
      → run initial ls ≡ some m
      → m.waiter ≡ selecting
      → m.signalling ≡ 0
      → m.q.queue ≡ env ∷ rest
      → (m' : Machine T) × (run m (take_sig ∷ poll ∷ []) ≡ some m')
        × (m'.waiter ≡ outside)
        × (m'.taken ≡ m.taken ++ env ∷ [])
        × (m'.q.queue ≡ rest)
  unfolding run step
  wakeup_delivers ls {m} env rest e blocked quiet held =
      let awake = (reached-IsAwake ls e).awake blocked in
      (
        record m {
          q = record { queue = rest; sig = false };
          waiter = outside;
          taken = m.taken ++ env ∷ [];
        },
        ground arith,
        refl,
        refl,
        refl,
      )

  gives_up-empty :
      (m : Machine T) (l : Label T) {m' : Machine T}
      → m.waiter ≢ gave_up
      → step m l ≡ some m'
      → m'.waiter ≡ gave_up
      → m'.q.queue ≡ []
  unfolding step
  gives_up-empty m l live e g = ground arith

  -- `wait` returns `false` only at a moment at which every frame pushed so far has been delivered.
  pub gives_up_drained :
      (ls : List (Label T)) (l : Label T) {m m' : Machine T}
      → run initial ls ≡ some m
      → m.waiter ≢ gave_up
      → step m l ≡ some m'
      → m'.waiter ≡ gave_up
      → m'.taken ≡ m'.pushed
  gives_up_drained ls l {m} {m'} e live stepped g = ground (
    arith,
    step-IsFifo m l (delivery_in_order ls e) stepped,
    gives_up-empty m l live stepped g,
    append-nil m'.taken,
  )
