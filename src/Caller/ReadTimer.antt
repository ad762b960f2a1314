-- ===== src/Caller/ReadTimer.antt =====
-- golang/client/client.go: the read timer of `requestBinary`, `pumpBinary` and their text twins, with the
-- clock that drives it.
use how.Base.{ℕ, ◌+◌, List, [], ◌∷◌, Bool, true, false, Option, none, some, ltb, leb, if◌then◌else◌}
use how.Caller.{Caller, effective_timeout}

-- `time.Timer`: when it will fire, if it is running, and whether a tick lies in its channel `C`. A tick
-- survives `Stop` and `Reset`, as it did before Go 1.23; a runtime that withdraws it does no harm.
pub record Timer : Type 0 where
  pub deadline : Option ℕ
  pub tick : Bool

pub record Clocked : Type 0 where
  pub now : ℕ
  pub timer : Option Timer

pub data Label : Type 0 where
  -- time passes
  elapse : ℕ → Label
  -- `wait` returned a frame, and the loop goes on
  frame : Label

-- `if timeout > 0 { timer = time.NewTimer(timeout); timerC = timer.C }`
unfoldable pub arm : ℕ → ℕ → Option Timer
arm now timeout =
    if ltb 0 timeout then some (record { deadline = some (now + timeout); tick = false }) else none

-- `timer.Stop()`: whether the timer was running
unfoldable pub stop : Timer → Bool × Timer
stop t = elim t.deadline [ none ↦ (false, t) | some d ↦ (true, record t { deadline = none }) ]

drain : Bool × Timer → Timer
drain (true, t) = t
drain (false, t) = record t { tick = false }

-- `if !timer.Stop() { select { case <-timer.C: default: } }; timer.Reset(timeout)`
unfoldable pub rearm : ℕ → ℕ → Timer → Timer
unfolding stop drain
rearm now timeout t = record (drain (stop t)) { deadline = some (now + timeout) }

unfoldable pub rearm_if : ℕ → ℕ → Option Timer → Option Timer
unfolding rearm
rearm_if now timeout none = none
rearm_if now timeout (some t) = some (rearm now timeout t)

-- The runtime sends the tick when the deadline has come.
fire : ℕ → Option ℕ → Timer → Timer
fire now none t = t
fire now (some d) t = if leb d now then record { deadline = none; tick = true } else t

unfoldable pub fire_if : ℕ → Option Timer → Option Timer
unfolding fire
fire_if now none = none
fire_if now (some t) = some (fire now t.deadline t)

-- The channel `timerC` is ready; a nil channel never is.
unfoldable pub is_due : Option Timer → Bool
is_due none = false
is_due (some t) = t.tick

module _ (c : Caller) where
  unfoldable pub start_at : ℕ → Clocked
  unfolding arm
  start_at now = record { now = now; timer = arm now (effective_timeout c) }

  unfoldable pub step : Label → Clocked → Clocked
  unfolding fire_if rearm_if
  step (elapse d) s = record { now = s.now + d; timer = fire_if (s.now + d) s.timer }
  step frame s = record s { timer = rearm_if s.now (effective_timeout c) s.timer }

  unfoldable pub run : List Label → Clocked → Clocked
  run [] s = s
  run (l ∷ ls) s = run ls (step l s)
