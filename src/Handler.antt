-- ===== src/Handler.antt =====
-- golang/client/client.go (`HOWHandler`) and golang/client/handler.go: the side that answers requests.
pub mod Send
pub mod Saying
pub mod Writer
pub mod HttpWriter
pub mod Built
pub mod Http
pub mod Adapters
pub mod Dispatch
pub mod Service
pub mod SameStream
pub mod Answers
pub mod Exact
pub mod Forwarding
pub mod Receiving
pub mod Reception
pub mod StreamSteps
pub mod Streams
