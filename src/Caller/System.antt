-- ===== src/Caller/System.antt =====
-- golang/client/client.go: a `Caller` with the goroutines of its requests, as the environment interleaves
-- them: a goroutine moves from one `wait` to the next.
use how.Base.{ℕ, Bytes, List, [], ◌∷◌, ◌++◌, Option, none, some, get_elem?, set}
use how.Outcome.{Error}
use how.Protocol.Message.{Envelope, Payload, request}
use how.Handler.Send.{Transport}
use how.Caller.{Caller, Mode, remove_pending, handle_message, poll, close}
use how.Caller.Request.{
  Begun, refused, waiting, Returned, failed, buffered, streaming, Stopped, begin_request,
  first_frame, first_stopped,
}
use how.Caller.Pump.{PipeOp, Pipe, Pumped, goes_on, returned, pump_frame, pump_stopped}

-- In `requestBinary`/`requestText` at `wait`, in the pump at `wait`, or gone.
pub data Phase : Type 0 where
  awaiting pumping ended : Phase

-- One call of `Request` that got as far as `wait`: its id, the address of its queue, what `Request`
-- returned, and what the pump did to the pipe.
pub record Thread : Type 0 where
  pub id : Bytes
  pub addr : ℕ
  pub phase : Phase
  pub result : Option Returned
  pub ops : List PipeOp

pub record System : Type 0 where
  pub caller : Caller
  pub threads : List Thread

pub data Label : Type 0 where
  -- `Request` is called and runs up to its `wait`; the UUID is the first argument. Its check of `done`,
  -- its registration and its send are one step, so no `Close` comes between them.
  begin : Bytes → Payload request → Label
  -- the transport hands over a frame
  arrive : Bytes → Label
  -- `Close(err)`
  shut : Option Error → Label
  -- the goroutine takes a frame from its queue, if there is one
  resume : ℕ → Label
  -- the `wait` of the goroutine ends by a stop channel; it does so with an empty queue only
  give_up : ℕ → Stopped → Label

-- Goroutine `i` takes one frame for each in the list.
abbrev pub takes {ℓ} : {A : Type ℓ} → ℕ → List A → List Label
takes i [] = []
takes i (x ∷ xs) = resume i ∷ takes i xs

-- The phase after `Request` returned: the pump runs only for a streaming response.
abbrev pub phase_after : Returned → Phase
phase_after (failed e) = ended
phase_after (buffered code headers body) = ended
phase_after (streaming code headers) = pumping

-- `Request` returned.
unfoldable pub settle : Thread → Returned × Caller → Thread × Caller
settle t (r, c) = (record t { phase = phase_after r; result = some r }, c)

-- The pump handled a frame; when it returns, its deferred `removePending` runs.
unfoldable pub pumped : Mode → Thread → Caller → Pumped → Thread × Caller
pumped m t c (goes_on ops) = (record t { ops = ops }, c)
pumped m t c (returned ops) = (record t { ops = ops; phase = ended }, remove_pending m t.id c)

module _ (m : Mode) (sender : Transport) (pipe : ℕ → Pipe) where
  unfoldable pub after_begin : Bytes → List Thread → Begun × Caller → System
  after_begin id ts (refused e, c) = record { caller = c; threads = ts }
  after_begin id ts (waiting a, c) = record {
    caller = c;
    threads = ts ++ record { id = id; addr = a; phase = awaiting; result = none; ops = [] } ∷ [];
  }

  unfoldable pub first_taken : Thread → Option Envelope × Caller → Thread × Caller
  unfolding settle
  first_taken t (none, c) = (t, c)
  first_taken t (some env, c) = settle t (first_frame m t.id env c)

  unfoldable pub next_taken : Thread → Option Envelope × Caller → Thread × Caller
  unfolding pumped
  next_taken t (none, c) = (t, c)
  next_taken t (some env, c) = pumped m t c (pump_frame m (pipe t.addr) env t.ops)

  unfoldable pub resume_in : Phase → Thread → Caller → Thread × Caller
  unfolding first_taken next_taken
  resume_in awaiting t c = first_taken t (poll t.addr c)
  resume_in pumping t c = next_taken t (poll t.addr c)
  resume_in ended t c = (t, c)

  unfoldable pub resume_thread : Thread → Caller → Thread × Caller
  unfolding resume_in
  resume_thread t c = resume_in t.phase t c

  -- The stop branches run a last `tryPop`: with a frame in the queue `wait` does not return `false`.
  unfoldable pub if_empty :
      Option Envelope × Caller → Thread × Caller → Thread × Caller → Thread × Caller
  if_empty (none, c) stopped waiting_on = stopped
  if_empty (some env, c) stopped waiting_on = waiting_on

  unfoldable pub stop_in : Phase → Stopped → Thread → Caller → Thread × Caller
  unfolding settle pumped if_empty
  stop_in awaiting s t c = if_empty (poll t.addr c) (settle t (first_stopped m t.id s c)) (t, c)
  stop_in pumping s t c =
      if_empty (poll t.addr c) (pumped m t c (returned (pump_stopped s c t.ops))) (t, c)
  stop_in ended s t c = (t, c)

  unfoldable pub stop_thread : Stopped → Thread → Caller → Thread × Caller
  unfolding stop_in
  stop_thread s t c = stop_in t.phase s t c

  unfoldable pub at_thread :
      ℕ → (Thread → Caller → Thread × Caller) → Option Thread → System → System
  at_thread i f none s = s
  at_thread i f (some t) s =
      let (t', c) = f t s.caller in record { caller = c; threads = set s.threads i t' }

  unfoldable pub step : Label → System → System
  unfolding after_begin resume_thread stop_thread at_thread
  step (begin id req) s = after_begin id s.threads (begin_request m sender id req s.caller)
  step (arrive bytes) s = record s { caller = handle_message m bytes s.caller }
  step (shut e) s = record s { caller = close e s.caller }
  step (resume i) s = at_thread i resume_thread (get_elem? s.threads i) s
  step (give_up i stopped) s = at_thread i (stop_thread stopped) (get_elem? s.threads i) s

  unfoldable pub run : List Label → System → System
  run [] s = s
  run (l ∷ ls) s = run ls (step l s)
