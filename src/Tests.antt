-- ===== src/Tests.antt =====
-- Concrete codecs that meet the laws of the serialization libraries, and the theorems at concrete inputs.
pub mod Codec
pub mod Wires
pub mod Queues
pub mod Requests
pub mod Servers
pub mod Protocols
pub mod Handlers
pub mod Callers
pub mod Bodies
pub mod Together
