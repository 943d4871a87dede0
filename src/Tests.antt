-- ===== src/Tests.antt =====
-- The theorems at concrete inputs.
mod Handshakes
mod Listeners
mod Starts
mod Ports
mod Tunnels
mod Connections
mod Streams
mod Targets
mod Clients
mod Logins
mod Browsers
mod Served
mod Polls
