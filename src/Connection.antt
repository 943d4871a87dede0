-- ===== src/Connection.antt =====
-- connection.rs: connection requests, their approval, and the connections in use.
pub mod Types
pub mod Manager
