-- ===== src/Caller/Cancelling.antt =====
-- golang/client/client.go: `cancellingBody`, the body of a streaming response, beside the goroutine that
-- pumps into it.
use how.Base.{
  ℕ, codes, Bool, true, false, not, ◌&&◌, ◌||◌, List, [], ◌∷◌, some, none, Option, get_elem?,
  if◌then◌else◌, ◌==◌,
}
use how.Outcome.{Error, Result, ok, err, foreign}
use how.Protocol.Message.{Envelope, chunk, type_http_response_chunk}
use how.Queue.{FrameQueue}
use how.Handler.Send.{Transport}
use how.Caller.{Caller, Mode}
use how.Caller.Pump.{Pipe}
use how.Caller.Request.{Stopped}
use how.Caller.System
use how.Caller.System.{System, Thread, Phase, awaiting, pumping, ended}

-- `armed`: the finalizer is set. `cancelled`: `cancel` was called, so the pump's context is done.
-- `reader_closed`: `pr.Close()` was called.
pub record CancellingBody : Type 0 where
  pub armed : Bool
  pub cancelled : Bool
  pub reader_closed : Bool

unfoldable pub new_cancelling_body : CancellingBody
new_cancelling_body = record { armed = true; cancelled = false; reader_closed = false }

-- `Close`
unfoldable pub close_body : CancellingBody → CancellingBody
close_body b = record { armed = false; cancelled = true; reader_closed = true }

-- The body has become unreachable: its finalizer runs, if it is set, and is then no longer set.
unfoldable pub collect_body : CancellingBody → CancellingBody
collect_body b =
    if b.armed then record { armed = false; cancelled = true; reader_closed = true } else b

-- `io.ErrClosedPipe`
abbrev pub closed_pipe : Error
closed_pipe = foreign (codes "io: read/write on closed pipe")

-- `context.Canceled`
abbrev pub canceled : Error
canceled = foreign (codes "context canceled")

-- A `Write` to the `io.Pipe` fails once the reader is closed; until then it returns when the reader has
-- taken the bytes.
unfoldable pub body_pipe : CancellingBody → Pipe
body_pipe b ops bytes = if b.reader_closed then some closed_pipe else none

-- A caller with the bodies of its streaming responses, by the address of the request's queue. `parent_done`:
-- the context that was given to `Request` is done. `due`: a tick lies in the channel of the pump's timer.
pub record Streams : Type 0 where
  pub system : System
  pub bodies : ℕ → CancellingBody
  pub parent_done : ℕ → Bool
  pub due : ℕ → Bool

pub data Label : Type 0 where
  -- a step of the caller in which nobody reads a body
  caller : System.Label → Label
  -- goroutine `i` takes a frame, and the reader of its body takes what it writes
  read : ℕ → Label
  -- the user closes the body; the garbage collector finds it unreachable
  close collect : ℕ → Label
  -- the user's context ends; the read timer fires
  end_parent expire : ℕ → Label

unfoldable pub update {ℓ} : {A : Type ℓ} → ℕ → (A → A) → (ℕ → A) → ℕ → A
update a f g b = if a == b then f (g b) else g b

is_some {ℓ} : {A : Type ℓ} → Option A → Bool
is_some none = false
is_some (some x) = true

is_ok {ℓ} : {A : Type ℓ} → Result A → Bool
is_ok (err e) = false
is_ok (ok x) = true

front_of : ℕ → List Envelope → Option (ℕ × Envelope)
front_of a [] = none
front_of a (e ∷ es) = some (a, e)

front_at : ℕ → Option (FrameQueue Envelope) → Option (ℕ × Envelope)
unfolding front_of
front_at a none = none
front_at a (some q) = front_of a q.queue

front_in : Phase → ℕ → Caller → Option (ℕ × Envelope)
unfolding front_at
front_in awaiting a c = none
front_in pumping a c = front_at a (get_elem? c.queues a)
front_in ended a c = none

front_for : Option Thread → Caller → Option (ℕ × Envelope)
unfolding front_in
front_for none c = none
front_for (some t) c = front_in t.phase t.addr c

-- The frame that goroutine `i` takes next, if it is a pump, with the address of its queue.
unfoldable pub front : ℕ → System → Option (ℕ × Envelope)
unfolding front_for
front i s = front_for (get_elem? s.threads i) s.caller

-- `pumpCtx.Done()` is closed: by `cancel`, or by the user's context.
unfoldable pub context_done : ℕ → Streams → Bool
context_done a s = (s.bodies a).cancelled || s.parent_done a

-- The stop says of the context what is so, and one of the three channels of `wait` is ready.
stops_pump : ℕ → Stopped → Streams → Bool
unfolding context_done is_some
stops_pump a w s =
    if context_done a s
    then is_some w.ctx_err
    else (if is_some w.ctx_err then false else (is_some s.system.caller.close_err || s.due a))

stops_in : Phase → ℕ → Stopped → Streams → Bool
unfolding stops_pump
stops_in awaiting a w s = true
stops_in pumping a w s = stops_pump a w s
stops_in ended a w s = true

stops_at : Option Thread → Stopped → Streams → Bool
unfolding stops_in
stops_at none w s = true
stops_at (some t) w s = stops_in t.phase t.addr w s

-- A pump stops only when a channel of its `wait` is ready.
unfoldable pub may_stop : ℕ → Stopped → Streams → Bool
unfolding stops_at
may_stop i w s = stops_at (get_elem? s.system.threads i) w s

module _ (m : Mode) (sender : Transport) where
  -- A chunk that decodes is written to the pipe.
  unfoldable pub is_written : Envelope → Bool
  unfolding is_ok
  is_written e = (e.type == type_http_response_chunk) && is_ok (m.wire.decode chunk e)

  move : System.Label → Streams → Streams
  move l s = record s { system = System.step m sender (λ a. body_pipe (s.bodies a)) l s.system }

  -- Taking a frame resets the timer.
  rearmed : Option (ℕ × Envelope) → ℕ → Streams → Streams
  unfolding move update
  rearmed none i s = move (System.resume i) s
  rearmed (some (a, e)) i s = record (move (System.resume i) s) {
    due = update a (λ b. false) s.due;
  }

  -- Without a reader, a `Write` to a pipe that is not closed does not return: the step does not happen.
  alone : Option (ℕ × Envelope) → ℕ → Streams → Streams
  unfolding rearmed
  alone none i s = rearmed none i s
  alone (some (a, e)) i s =
      if is_written e && not (s.bodies a).reader_closed then s else rearmed (some (a, e)) i s

  step_caller : System.Label → Streams → Streams
  unfolding move alone
  step_caller (System.begin id req) s = move (System.begin id req) s
  step_caller (System.arrive bytes) s = move (System.arrive bytes) s
  step_caller (System.shut e) s = move (System.shut e) s
  step_caller (System.resume i) s = alone (front i s.system) i s
  step_caller (System.give_up i w) s = if may_stop i w s then move (System.give_up i w) s else s

  unfoldable pub step : Label → Streams → Streams
  unfolding step_caller rearmed update
  step (caller l) s = step_caller l s
  step (read i) s = rearmed (front i s.system) i s
  step (close a) s = record s { bodies = update a close_body s.bodies }
  step (collect a) s = record s { bodies = update a collect_body s.bodies }
  step (end_parent a) s = record s { parent_done = update a (λ b. true) s.parent_done }
  step (expire a) s = record s { due = update a (λ b. true) s.due }

  unfoldable pub run : List Label → Streams → Streams
  run [] s = s
  run (l ∷ ls) s = run ls (step l s)
