-- ===== src/EndToEnd/Whole.antt =====
-- A response from the `http.Handler` or the upstream of golang/client/handler.go to the body that `Caller.Request` of
-- golang/client/client.go returned.
use how.Base.{
  ℕ, Bytes, ◌≡◌, List, [], ◌∷◌, ◌++◌, none, some, arith, Bool-cases, inl, inr, get_elem?,
  if◌then◌else◌, All,
}
use how.Outcome.{ok}
use how.Protocol.Message.{PayloadType, Payload, start, chunk, request}
use how.Protocol.Reading.{Message, read_message}
use how.Handler.Send.{Channel, OutFrame, Transport, Sink}
use how.Handler.HttpWriter.{HttpProgram, u16}
use how.Handler.Writer.{run_stream}
use how.Handler.Http.{HttpLib, HttpResponse, build_request}
use how.Handler.Adapters.{serve_streaming, forward_stream, exchange}
use how.Handler.Dispatch.{dispatch_request, streaming as streaming_handler}
use how.Handler.StreamSteps.{start_of, chunk_of, stream_of, Sane}
use how.Handler.Exact.{head_of, body_of, streaming_adapter_exact}
use how.Handler.Forwarding.{Accepts, relayed, forward_relays}
use how.Handler.Saying.{Says, Extends, read_frame, Reliable}
use how.Caller.{Mode, binary_mode, text_mode}
use how.Caller.Request.{streaming}
use how.Caller.Pump.{closed, Pipe}
use how.Caller.System.{takes}
use how.Caller.System.{Thread, awaiting, ended, System, run}
use how.Caller.Body.{Open}
use how.Caller.Delivery.{Standing}
use how.EndToEnd.{Hears, arrivals, writes, stream_is_received}

-- The caller's mode is the handler's.
abbrev pub peer_mode : Channel → Mode
peer_mode h = if h.text_mode then text_mode h.js else binary_mode h.mp

abbrev pub frame_bytes : List OutFrame → List Bytes
frame_bytes [] = []
frame_bytes (OutFrame.binary d ∷ fs) = d ∷ frame_bytes fs
frame_bytes (OutFrame.text d ∷ fs) = d ∷ frame_bytes fs

binary_heard :
    (h : Channel) (d : Bytes) (x : Bytes × Message)
    → read_frame h (OutFrame.binary d) ≡ some x
    → read_message (peer_mode h).wire d ≡ some x
unfolding read_frame
binary_heard h d x reads = elim (Bool-cases h.text_mode) [
  | inl is_text ↦ absurd (ground arith)
  | inr is_binary ↦ rw is_binary (rw is_binary at reads)
]

text_heard :
    (h : Channel) (d : Bytes) (x : Bytes × Message)
    → read_frame h (OutFrame.text d) ≡ some x
    → read_message (peer_mode h).wire d ≡ some x
unfolding read_frame
text_heard h d x reads = elim (Bool-cases h.text_mode) [
  | inl is_text ↦ rw is_text (rw is_text at reads)
  | inr is_binary ↦ absurd (ground arith)
]

pub Says-Hears :
    (h : Channel) (id : Bytes) (fs : List OutFrame) (ms : List Message)
    → Says h id fs ms
    → Hears (peer_mode h).wire id (frame_bytes fs) ms
Says-Hears h id [] [] says = tt
Says-Hears h id [] (m ∷ ms) says = absurd says
Says-Hears h id (OutFrame.binary d ∷ fs) [] says = absurd says
Says-Hears h id (OutFrame.text d ∷ fs) [] says = absurd says
Says-Hears h id (OutFrame.binary d ∷ fs) (m ∷ ms) says =
    (binary_heard h d (id, m) says.0, Says-Hears h id fs ms says.1)
Says-Hears h id (OutFrame.text d ∷ fs) (m ∷ ms) says =
    (text_heard h d (id, m) says.0, Says-Hears h id fs ms says.1)

-- What a goroutine waiting for a response has become when a stream with this head and body reached it,
-- frame by frame, and was taken: `Request` has returned the head as a streaming response; the body's
-- pipe got the pieces in order and was closed cleanly; the goroutine has ended.
abbrev pub Answered :
    Channel
    → Transport
    → (ℕ → Pipe)
    → System
    → ℕ
    → Thread
    → List OutFrame
    → Payload start
    → List Bytes
    → Type 0
Answered h sender pipe s i t fs p bs =
    get_elem?
      (run (peer_mode h) sender pipe (arrivals (frame_bytes fs) ++ takes i (frame_bytes fs))
        s).threads
      i
    ≡ some (record t {
      phase = ended;
      result = some (streaming p.status_code p.headers);
      ops = writes bs ++ closed none ∷ [];
    })

module _ (h : Channel) {GoodId : Bytes → Type 0} {Good : (t : PayloadType) → Payload t → Type 0}
    (rel : Reliable h GoodId Good) (accepts : Accepts h) (sender : Transport) (pipe : ℕ → Pipe)
    (s : System) (i : ℕ) (t : Thread) (good_id : GoodId t.id)
    (st : Standing (peer_mode h) sender pipe s i t []) (waits : t.phase ≡ awaiting)
    (nothing : t.ops ≡ []) (reader : Open (pipe t.addr)) where
  sent_is_received :
      (sink sink' : Sink) (p : Payload start) (bs : List Bytes)
      → Extends h t.id sink sink' (stream_of p bs)
      → (fs : List OutFrame) × (sink' ≡ sink ++ fs) × Answered h sender pipe s i t fs p bs
  sent_is_received sink sink' p bs (fs, sent, says) = (
    fs,
    sent,
    stream_is_received (peer_mode h) sender pipe s i t (frame_bytes fs) p bs st waits nothing reader
        (Says-Hears h t.id fs (stream_of p bs) says),
  )

  -- Both sides in one mode, over a channel that carries what the handler writes and a sender that rejects
  -- nothing. The streaming adapter answers a request that `http.NewRequestWithContext` accepts by frames
  -- `fs`. If these reach, in order, a caller whose goroutine waits under the request's id with an empty
  -- queue, the goroutine takes them, and the reader keeps the body's pipe open, then `Request` has returned
  -- the code of the handler's first `WriteHeader` (as 16 bits, a 1xx too; 200 where it writes, flushes or
  -- returns first) and the header map as the handler had it then, with no sniffed `Content-Type`, and the
  -- pipe got the handler's non-empty writes, in order and whatever the status, and was closed cleanly.
  pub handler_output_is_body :
      (lib : HttpLib) (handler : lib.Request → HttpProgram) (req : Payload request) (sink : Sink)
      {r : lib.Request}
      → build_request lib req.url req ≡ ok r
      → Sane Good (handler r) []
      → (fs : List OutFrame) × (dispatch_request h
            (streaming_handler (serve_streaming lib h handler))
            t.id
            req
            sink
          ≡ sink ++ fs)
        × Answered h sender pipe s i t fs (head_of (handler r) []) (body_of (handler r))
  handler_output_is_body lib handler req sink {r} built sane =
      sent_is_received sink
        (dispatch_request h (streaming_handler (serve_streaming lib h handler)) t.id req sink)
        (head_of (handler r) []) (body_of (handler r))
        (streaming_adapter_exact h rel t.id good_id accepts lib handler req sink built sane)

  -- The forward handler in the same place, where the upstream answers and the mode carries its response:
  -- `Request` has returned the upstream's status (as 16 bits) and headers, and the body's pipe, kept open
  -- by its reader, got every read of the upstream body that returned bytes, in order, and
  -- was closed cleanly. It was closed cleanly also where the upstream body ended with an error.
  pub upstream_body_is_body :
      (lib : HttpLib) (target : Bytes) (req : Payload request) (sink : Sink) (resp : HttpResponse)
      → exchange lib target req ≡ ok resp
      → Good start (start_of (u16 resp.status_code) resp.header)
      → All (λ b. Good chunk (chunk_of b)) (relayed resp.body)
      → (fs : List OutFrame) × (dispatch_request h
            (streaming_handler (λ q. run_stream h (forward_stream lib target q)))
            t.id
            req
            sink
          ≡ sink ++ fs)
        × Answered h sender pipe s i t fs
            (start_of (u16 resp.status_code) resp.header)
            (relayed resp.body)
  upstream_body_is_body lib target req sink resp answered good_start good_chunks =
      sent_is_received sink
        (dispatch_request h (streaming_handler (λ q. run_stream h (forward_stream lib target q)))
          t.id req sink)
        (start_of (u16 resp.status_code) resp.header) (relayed resp.body)
        (forward_relays h rel t.id good_id accepts lib target req sink resp answered good_start
          good_chunks)
