-- ===== src/Tunnel/Listener.antt =====
-- tunnel/manager.rs, the task of a tunnel: it accepts connections on the tunnel's port and copies
-- their bytes from and to the tunnel's target.
pub mod Copies
use crabby_proxy.Prelude.{ℕ, Bool, List, [], ◌∷◌, ◌++◌, Result, ok, err}
use crabby_proxy.Text.{codes}
use crabby_proxy.Text.Decimal.{u16_to_string}
use crabby_proxy.Net.{IoError, SocketAddr, Stream, Accepts}
use crabby_proxy.Stream.{Tunnel, bidirectional, join_rounds}

-- A spawned `handle_tunnel_connection`, with its arguments.
pub record ConnectionTask : Type 0 where
  pub inbound : Stream
  pub target_addr : SocketAddr

-- The loop, which goes on after an error.
unfoldable pub accept_connections : SocketAddr → Accepts → List ConnectionTask
accept_connections target_addr [] = []
accept_connections target_addr (ok (inbound, addr) ∷ accepts) =
    record { inbound = inbound; target_addr = target_addr } ∷ accept_connections target_addr accepts
accept_connections target_addr (err e ∷ accepts) = accept_connections target_addr accepts

-- The tasks that `tunnel_listener_task` spawns.
unfoldable pub tunnel_listener_task :
    (List ℕ → Result Accepts IoError) → ℕ → SocketAddr → List ConnectionTask
unfolding accept_connections
tunnel_listener_task bind port target_addr = elim (bind (codes "0.0.0.0:" ++ u16_to_string port)) [
  | ok accepts ↦ accept_connections target_addr accepts
  | err e ↦ []
]

-- `handle_tunnel_connection`, with the order of its two directions; the error is that of `connect`.
-- `io::copy` is a loop of `read` and `write_all` with a buffer of 8192 bytes, and the shutdown behind
-- it is the relay's.
unfoldable pub handle_tunnel_connection :
    (SocketAddr → Result Stream IoError) → List Bool → Stream → SocketAddr → Result Tunnel IoError
handle_tunnel_connection connect schedule inbound target_addr = elim (connect target_addr) [
  | ok outbound ↦ ok (join_rounds 8192 schedule (bidirectional inbound outbound))
  | err e ↦ err e
]
