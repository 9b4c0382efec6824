-- ===== src/Protocol.antt =====
-- src/protocol: the SOME/IP header and message.
pub mod Error
pub mod MessageId
pub mod MessageType
pub mod ReturnCode
pub mod Header
pub mod Message
