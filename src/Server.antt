-- ===== src/Server.antt =====
-- src/server, with sockets as parameters.
pub mod Error
pub mod Config
pub mod Runtime
pub mod Receive
pub mod Publish
pub mod SdState
pub mod Subscriptions
