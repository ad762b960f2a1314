-- ===== src/Queue.antt =====
-- golang/client/client.go: `frameQueue`, the unbounded queue between the transport's read loop and
-- the goroutine of one request.
pub mod Machine
pub mod Fifo
pub mod Wakeup
use how.Base.{List, [], ◌∷◌, ◌++◌, Bool, true, false, Option, none, some}

-- `sig` is a channel with room for one token: whether it holds one.
pub record FrameQueue (T : Type 0) : Type 0 where
  pub queue : List T
  pub sig : Bool

module _ {T : Type 0} where
  unfoldable pub new_frame_queue : FrameQueue T
  new_frame_queue = record { queue = []; sig = false }

  -- `push`: the append under the lock, then the send that gives up where the channel is full.
  unfoldable pub append : T → FrameQueue T → FrameQueue T
  append env q = record q { queue = q.queue ++ env ∷ [] }

  unfoldable pub notify : FrameQueue T → FrameQueue T
  notify q = record q { sig = true }

  unfoldable pub push : T → FrameQueue T → FrameQueue T
  unfolding append notify
  push env q = notify (append env q)

  pop_front : List T → FrameQueue T → Option T × FrameQueue T
  pop_front [] q = (none, q)
  pop_front (env ∷ rest) q = (some env, record q { queue = rest })

  unfoldable pub try_pop : FrameQueue T → Option T × FrameQueue T
  unfolding pop_front
  try_pop q = pop_front q.queue q
