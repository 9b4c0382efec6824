-- ===== src/Client.antt =====
-- src/client: the parts that keep state without I/O.
pub mod Session
pub mod ServiceRegistry
pub mod SocketManager
pub mod Reboot
