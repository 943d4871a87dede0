-- ===== src/Tunnel.antt =====
-- tunnel/: port allocation and the tunnel manager.
pub mod PortAllocator
pub mod Error
pub mod Manager
pub mod Listener
