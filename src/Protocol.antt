-- ===== src/Protocol.antt =====
-- golang/protocol/message.go: the wire format.
pub mod Message
pub mod Codecs
pub mod RawBody
pub mod Wire
pub mod Make
pub mod Frames
pub mod Reading
pub mod Binary
pub mod Text
pub mod Delivered
