-- ===== src/Lib.antt =====
-- HOW carries HTTP requests and responses over a message channel (a WebSocket): the side behind the
-- connection serves, the other side calls. This library models the Go implementation under golang/:
-- the messages and their two encodings (golang/protocol/message.go), the side that serves requests
-- (golang/client/client.go, `HOWHandler`, and golang/client/handler.go), the side that calls them
-- (golang/client/client.go, `Caller` and `frameQueue`), and the programs built on these
-- (golang/cmd/howclient, golang/examples).
--
-- A call of `Caller.Request` registers a queue under a new id, hands an `HTTPRequest` frame to its
-- `Sendable`, and waits on the queue. The other side's `HOWHandler` receives the frame, starts a goroutine
-- that runs `dispatchRequest`, and that one sends either one `HTTPResponse`, or an `HTTPResponseStart`,
-- chunks and an `HTTPResponseEnd` (an `Error` after a failure). The caller's frame handlers push each
-- frame to the queue of its id; the request's goroutine takes them, and for a streamed response goes on
-- as a pump that copies the chunks into the pipe of the body.
--
-- Files and code:
--   Base, Base/*: names of the libraries, Boolean tests, byte strings, lemmas on lists over the native
--     numbers, and Base/Keyed, the association lists that stand for Go's maps.
--   Outcome: Go's pairs `(T, error)` as a result type; the errors that the three files make.
--   Protocol/Message: the constants and structs of message.go. `Envelope` stands also for `TextEnvelope`,
--     whose payload is raw JSON instead of raw MessagePack. Protocol/RawBody: `RawBody` with its JSON
--     methods. Protocol/Wire: `Marshal`, `Unmarshal`, `encodePayload`, `DecodePayload` and their text
--     twins. Protocol/Make: the constructors `NewHTTPRequest` … `NewTextError`.
--   Protocol/Codecs: encoding/json and msgpack/v5, which are not in the repository, as records of
--     functions, with the laws relied on in Protocol/Codecs, RawBody/Delivery and Protocol/Text.
--   Protocol/Reading: the abstract view: a message per section 6 of spec.md, and what it means that a
--     mode carries messages losslessly. Protocol/Frames, Binary, Text, RawBody/Delivery: theorems.
--     Protocol/Delivered: the constructors of both modes, through to the message that is read.
--   Queue: `frameQueue` with `push` and `tryPop`. The channel `sig` of capacity 1 is a Boolean.
--     Queue/Machine: `wait` and the pushes, cut at each lock and channel operation, driven by a
--     schedule. Queue/Fifo, Queue/Wakeup: theorems.
--   Handler/Send: `HOWHandler`, and its senders from `sendResponse` to `sendText`. What was sent is a list
--     of frames; the `Sendable` is a function from what was sent and the frame to an error, if any.
--   Handler/Writer: `ResponseWriter`, and a `StreamingHandler` as the program of its calls of it.
--     Handler/HttpWriter: `streamingResponseWriter`, and an `http.Handler` as the program of its calls.
--     Handler/Http: net/http, httptest and io as parameters; Handler/Built: the request that they make. Handler/Adapters: `ForwardHandler`,
--     `HTTPHandlerAdapter`, `streamingHTTPHandlerAdapter`. Handler/Dispatch: `HandleBinaryMessage`,
--     `HandleTextMessage`, `dispatchRequest`. Handler/Saying: when frames say given messages.
--     Handler/Service: `NewHandler`, `HTTPHandler`, `ForwardTo`, `HandlerFunc` and the options, with a
--     streaming handler as the list of its calls; Handler/SameStream relates that to Handler/Adapters.
--     Handler/StreamSteps, Streams, Exact, Answers, Forwarding, Receiving, Reception: theorems.
--   Server: the goroutines that `HandleBinaryMessage` starts, on one sender. Server/Transcript: what was
--     sent under an id, and what a goroutine will still send. Server/Alone, Apart, Tracking, Interleaving:
--     theorems.
--   Caller: the struct `Caller` with `NewCaller`, `WithTextMode`, `Close`, `readTimeout`, and the frame
--     handlers. The queues live in a store, the pending maps hold addresses, so that a goroutine keeps
--     its queue when its entry is removed. Caller/Request: `Request` before and after its `wait`.
--     Caller/Pump: the pumps. Caller/Cancelling: `cancellingBody`, its finalizer and its pipe.
--     Caller/ReadTimer: the timer of a pump, with the clock. Caller/Answered: what a user reads of a
--     response. Caller/Modes: the methods of the two modes by name. Caller/System: a caller
--     with the goroutines of its requests. Caller/Routing, Setup, Moves, Ownership, Leaks, Isolation,
--     OneMode, Body, Delivery, Draining, Dropping, Silence: theorems. Caller/Hearing: a request
--     as a machine on the messages of spec.md. Caller/Keeping, Turns, Pointing, Sole, Following, Reply,
--     Beginning, Fresh: a request beside everything else that its caller does.
--   EndToEnd, EndToEnd/Requests, Whole, Promised, SameResponse: one request through both sides.
--     EndToEnd/Concurrent: one request among many on both sides.
--   Howclient: `main` of golang/cmd/howclient/main.go with `wsSender`; Howclient/Said: what
--     its connection was told under an id. Howclient/Exits, Forwards: theorems. What `flag.Parse` makes of
--     the command line is a parameter of `main`.
--   Examples: both programs under golang/examples; Examples/Echo: a theorem on the echo handler.
--   Tests, Tests/*: a small MessagePack and JSON that meet the laws, and the theorems at concrete inputs.
--
-- The code has the methods of `Caller` twice, for the two modes; they differ in codec, pending map,
-- method of the sender and two labels of their errors, so the model has them once, over a `Mode` that
-- holds these.
--
-- Bounds: the only definition on fuel is `run_alone` of Server, which counts the moves of one goroutine;
-- Server/Alone says which number is enough. The loops of the code are recursion on what feeds them: the
-- reads of an upstream body, the frames of a stream, the labels of a schedule. A user's handler is a finite
-- program, so the model is of handlers that return. Numbers of the wire types are natural numbers; the one
-- conversion that can lose bits, `uint16(statusCode)`, is written as `% 2 ^ 16`.
--
-- Goroutines: in Caller/System one step runs a goroutine from one `wait` to the next, and a `wait` is one
-- `tryPop`. Queue/Machine has the finer steps of `wait` itself. A call of `Request` up to its `wait` is one
-- step too: its check of `done`, its registration and its send come at one moment, so the runs in which a
-- `Close` comes between them are not among those of the model. A stop of a `wait` (the caller's `done`, a
-- context, the timer) is a label that may come at any time; which stop it was is a part of the label.
-- Caller/Cancelling restricts this for the pumps: there a pump stops only when its context is done, the
-- caller is closed or a tick of its timer lies ready, and a pump that writes a chunk waits for its reader
-- until the pipe is closed. The first `wait` of `Request` may stop at any time there too. In
-- Server one step runs a goroutine from one call of the sender to the next.
--
-- The standard library: an `io.Pipe` is the list of what was done to its write end, and a function that
-- tells a write that the reader has gone. A `time.Timer` keeps its tick through `Stop` and `Reset`, as
-- before Go 1.23; the later one withdraws it. `httptest.ResponseRecorder` is a parameter with the law that
-- it records a status of three digits and the bytes written. A connection gives the frames that it reads,
-- then the error of the read that fails, and answers each write.
--
-- Not modelled: outside Caller/Cancelling, that a write to a pipe blocks, and what makes a stop ready;
-- logging; goroutines of the text mode of `HOWHandler` beside each other; the WebSocket library and
-- net/http, which are parameters; the TypeScript implementation under typescript/.
pub mod Base
pub mod Outcome
pub mod Protocol
pub mod Queue
pub mod Handler
pub mod Server
pub mod Howclient
pub mod Caller
pub mod EndToEnd
pub mod Examples
pub mod Tests
