-- ===== src/Caller.antt =====
-- golang/client/client.go, `Caller`: the side that sends requests and reads responses. The text-mode
-- methods differ from the binary ones in the codec, the pending map, the method of the sender and two
-- labels of the errors.
pub mod Request
pub mod Modes
pub mod Moves
pub mod Pump
pub mod Routing
pub mod System
pub mod OneMode
pub mod Ownership
pub mod Setup
pub mod Isolation
pub mod Leaks
pub mod Body
pub mod Delivery
pub mod Answered
pub mod Cancelling
pub mod Draining
pub mod Dropping
pub mod ReadTimer
pub mod Silence
pub mod Keeping
pub mod Turns
pub mod Hearing
pub mod Pointing
pub mod Beginning
pub mod Sole
pub mod Following
pub mod Reply
pub mod Fresh
use Prim.Native.Nat.{Ordering, compare}
use how.Base.{
  ℕ, zero, suc, ◌*◌, ◌^◌, Bytes, length, get_elem?, set, List, [], ◌∷◌, ◌++◌, Bool, true, false,
  Option, none, some, if◌then◌else◌, ◌==◌, String,
}
use how.Base.Keyed.{Keyed, lookup, insert, delete}
use how.Outcome.{Error, Result, ok, err, transport_closed}
use how.Protocol.Message.{Envelope, Payload, request}
use how.Protocol.Codecs.{MsgPack, Json}
use how.Protocol.Wire.{Wire, binary_wire, text_wire}
use how.Protocol.Make.{new_http_request, new_text_http_request}
use how.Queue.{FrameQueue, new_frame_queue, push, try_pop}
use how.Handler.Send.{OutFrame, binary, text, Sink}

-- A `time.Duration` in nanoseconds; `negsuc n` is -(n + 1).
pub data ℤ : Type 0 where
  pos : ℕ → ℤ
  negsuc : ℕ → ℤ

abbrev pub default_read_timeout : ℕ
default_read_timeout = 30 * 1000000000

-- The queues are shared between the pending maps and the goroutines: they stand in a store, and a
-- pointer to one is its position. `done` is closed exactly when `close_err` is set. `sent` is what the
-- sender was handed.
pub record Caller : Type 0 where
  pub text_mode : Bool
  pub read_timeout : ℤ
  pub pending : Keyed ℕ
  pub text_pending : Keyed ℕ
  pub queues : List (FrameQueue Envelope)
  pub close_err : Option Error
  pub sent : Sink

unfoldable pub with_text_mode : Caller → Caller
with_text_mode c = record c { text_mode = true }

apply_options : List (Caller → Caller) → Caller → Caller
apply_options [] c = c
apply_options (opt ∷ opts) c = apply_options opts (opt c)

unfoldable pub new_caller : List (Caller → Caller) → Caller
unfolding apply_options
new_caller opts = apply_options opts (record {
  text_mode = false;
  read_timeout = pos 0;
  pending = [];
  text_pending = [];
  queues = [];
  close_err = none;
  sent = [];
})

close_reason : Option Error → Error
close_reason none = transport_closed
close_reason (some e) = e

close_once : Option Error → Option Error → Caller → Caller
unfolding close_reason
close_once (some closed) e c = c
close_once none e c = record c { close_err = some (close_reason e) }

-- `Close(err)`, inside its `sync.Once`
unfoldable pub close : Option Error → Caller → Caller
unfolding close_once
close e c = close_once c.close_err e c

-- `readTimeout()`, where 0 arms no timer
timeout_of : ℤ → ℕ
timeout_of (negsuc n) = 0
timeout_of (pos zero) = default_read_timeout
timeout_of (pos (suc n)) = suc n

unfoldable pub effective_timeout : Caller → ℕ
unfolding timeout_of
effective_timeout c = timeout_of c.read_timeout

-- What distinguishes the two modes.
pub record Mode : Type 0 where
  pub wire : Wire
  pub frame : Bytes → OutFrame
  pub new_request : Bytes → Payload request → Result Envelope
  pub is_text : Bool
  -- what the errors of `Request` say of a failed marshal and a failed send
  pub marshal_label : String
  pub send_label : String

abbrev pub binary_mode : MsgPack → Mode
binary_mode mp = record {
  wire = binary_wire mp;
  frame = binary;
  new_request = new_http_request mp;
  is_text = false;
  marshal_label = "marshal request";
  send_label = "send request";
}

abbrev pub text_mode : Json → Mode
text_mode js = record {
  wire = text_wire js;
  frame = text;
  new_request = new_text_http_request js;
  is_text = true;
  marshal_label = "marshal text request";
  send_label = "send text request";
}

-- The map of pending requests that a mode uses.
abbrev pub pending_of : Bool → Caller → Keyed ℕ
pending_of false c = c.pending
pending_of true c = c.text_pending

abbrev pub with_pending : Bool → Keyed ℕ → Caller → Caller
with_pending false m c = record c { pending = m }
with_pending true m c = record c { text_pending = m }

module _ (m : Mode) where
  -- `q := newFrameQueue(); c.pending[requestID] = q`
  unfoldable pub register : Bytes → Caller → Caller
  register id c =
      with_pending m.is_text (insert id (length c.queues) (pending_of m.is_text c))
        (record c { queues = c.queues ++ new_frame_queue ∷ [] })

  unfoldable pub remove_pending : Bytes → Caller → Caller
  remove_pending id c = with_pending m.is_text (delete id (pending_of m.is_text c)) c

  push_at : Envelope → ℕ → Option (FrameQueue Envelope) → Caller → Caller
  push_at env a none c = c
  push_at env a (some q) c = record c { queues = set c.queues a (push env q) }

  route : Envelope → Option ℕ → Caller → Caller
  unfolding push_at
  route env none c = c
  route env (some a) c = push_at env a (get_elem? c.queues a) c

  -- `HandleBinaryMessage`, `HandleTextMessage`
  unfoldable pub handle_message : Bytes → Caller → Caller
  unfolding route
  handle_message bytes c = elim (m.wire.unmarshal bytes) [
    | err e ↦ c
    | ok env ↦ route env (lookup env.request_id (pending_of m.is_text c)) c
  ]

took : ℕ → Option Envelope × FrameQueue Envelope → Caller → Option Envelope × Caller
took a (env, q) c = (env, record c { queues = set c.queues a q })

poll_queue : ℕ → Option (FrameQueue Envelope) → Caller → Option Envelope × Caller
unfolding took
poll_queue a none c = (none, c)
poll_queue a (some q) c = took a (try_pop q) c

-- A `tryPop` of the queue at an address; `wait` returns what it finds, or blocks.
unfoldable pub poll : ℕ → Caller → Option Envelope × Caller
unfolding poll_queue
poll a c = poll_queue a (get_elem? c.queues a) c
