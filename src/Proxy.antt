-- ===== src/Proxy.antt =====
-- proxy/: the listener, and what it knows of the protocols.
pub mod Protocol
pub mod Detect
pub mod Target
pub mod Auth
pub mod Client
pub mod Relay
pub mod Listener
