-- ===== src/Lib.antt =====
-- A model of crabby_proxy, a proxy for HTTP, TLS, SOCKS4 and SOCKS5 clients with reverse tunnels,
-- and theorems about it. The program accepts a connection, detects the client's protocol from
-- its first four bytes, demands credentials if it is told to, reads the target from the
-- client's request, connects to it and relays bytes both ways. Beside this it has the parts for
-- reverse tunnels: a manager of tunnels, an allocator of their ports, and a manager of the
-- requests that wait for a decision.
--
-- The parts, with their files:
--   Tunnel/PortAllocator.antt: src/tunnel/port_allocator.rs, `PortAllocator`.
--   Tunnel/Manager.antt: src/tunnel/manager.rs, `TunnelManager`, which calls the allocator.
--   Tunnel/Listener.antt: src/tunnel/manager.rs, `tunnel_listener_task`, which a new tunnel spawns,
--     and `handle_tunnel_connection`.
--   Tunnel/Error.antt: src/tunnel/error.rs, with the conversion of the allocator's errors.
--   Connection/Types.antt and Connection/Manager.antt: src/connection.rs.
--   Stream.antt: src/stream.rs, `TunnelStream` and `create_bidirectional_tunnel`.
--   Stream/Async.antt: src/stream.rs, `TunnelStream` as a stream of its own. Stream/Poll.antt and the
--     files below it: the polls of `ClientStream` and `TunnelStream`, over any readers and writers.
--   App.antt: src/app_state.rs. Error.antt: src/error.rs.
--   Utils.antt: the replies of src/utils.rs and its calls of one stream. Utils/Tls.antt: its loading
--     of certificates and keys.
--   Main.antt: src/main.rs, the arguments and the start.
--   Proxy/Protocol.antt: src/proxy/protocol.rs. Proxy/Relay.antt: src/proxy/relay.rs.
--   Proxy/Listener.antt: src/proxy/listener.rs, `run_proxy_server` and `relay_with_tunnel_stream`.
--   Proxy/Detect.antt, Proxy/Auth.antt, Proxy/Target.antt, Proxy/Client.antt and the files below
--     them: src/proxy/listener.rs, from `detect_protocol` to `handle_client`.
--   Net.antt and the files below it: the streams of tokio. Text.antt and the files below it: the
--     texts of Rust's standard library (UTF-8, decimals, splitting, addresses).
--   Prelude.antt: what all share. Tests.antt: the theorems at concrete inputs.
--
-- State and operations. A method on `&mut self` is a function from the state to the result and
-- the new state; `HashMap` is an association list, `HashSet` a list, `VecDeque` a list with its
-- front first. A text is the list of its code points, a byte a number below 256, a `u16` a
-- number below 65536; the count of a relay wraps at 2 ^ 64. A random identity, a clock value
-- or a task handle is an argument of the call that needs it; a panic is `none`. `async` code over a
-- stream is a function from the stream to an outcome (a value, an error, or the end of the time
-- limit around it) and the stream. A stream holds the bytes that have arrived, the finite history
-- of what is to come (bytes, pauses in milliseconds, a failure) and what was written; the fates of
-- writes to come are part of it. A `tokio::time::timeout` is a deadline that pauses use up.
--
-- Parameters, since their code is not in the repository: the decoder of Base64, the TLS
-- handshake, files, PEM parsers and the TLS configuration, what a listener accepts after `bind`,
-- `TcpStream::connect`, the bytes that a pooled block holds, how many bytes one `write` takes, and the
-- order in which the two relays of a tunnel run, a list of turns.
--
-- Fuel. A loop that takes a byte in each round runs on `fuel_of`, one more than all bytes that the
-- stream holds or is still to get, which no such loop can use up; this goes for the relay, for the
-- user name of SOCKS4 and for the request line. The scan for a server name runs on the length of
-- the data. The wait of `handShake` for a reply need not end, so its fuel is an argument.
--
-- Not modelled: src/config.rs (comments), the set-up of logging and the splitting of the command line in
-- src/main.rs, and log output.
pub mod Prelude
pub mod Text
pub mod Net
pub mod Error
pub mod Utils
pub mod App
pub mod Stream
pub mod Proxy
pub mod Connection
pub mod Tunnel
pub mod Main
pub mod Tests
