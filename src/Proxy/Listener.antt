-- ===== src/Proxy/Listener.antt =====
-- proxy/listener.rs: the accept loop, and the listener's own relay over a `TunnelStream`.
pub mod Relay
pub mod Accepting
use crabby_proxy.Prelude.{
  ℕ, zero, suc, ◌+◌, ◌%◌, ◌^◌, Option, none, some, List, [], ◌∷◌, length, Result, ok, err,
}
use crabby_proxy.Net.{IoError, SocketAddr, Stream, Accepts}
use crabby_proxy.Net.Io.{Outcome, done, failed, elapsed}
use crabby_proxy.Net.Common.{fuel_of}
use crabby_proxy.Stream.{TunnelStream}
use crabby_proxy.Stream.Async.{tunnel_read, tunnel_write_all, tunnel_shutdown}
use crabby_proxy.App.{AppState}

-- What the loop of `relay_with_tunnel_stream` does next: read again, shut down, or stop.
pub data Turn : Type 0 where
  again : ℕ → Turn
  shut : ℕ → Turn
  stop : Outcome IoError ℕ → Turn

-- `total += n as u64`, behind `tunnel.write_all`.
after_write : ℕ → ℕ → Outcome IoError (Unit {0}) × TunnelStream → Turn × TunnelStream
after_write total n (done u, t) = (again ((total + n) % 2 ^ 64), t)
after_write total n (failed e, t) = (stop (failed e), t)
after_write total n (elapsed, t) = (stop elapsed, t)

after_read : ℕ → Outcome IoError (List ℕ) × TunnelStream → Turn × TunnelStream
unfolding after_write
after_read total (done [], t) = (shut total, t)
after_read total (done (b ∷ bs), t) =
    after_write total (length (b ∷ bs)) (tunnel_write_all (b ∷ bs) t)
after_read total (failed e, t) = (stop (failed e), t)
after_read total (elapsed, t) = (stop elapsed, t)

-- `tunnel.shutdown().await?; Ok(total)`.
after_shutdown : ℕ → Outcome IoError (Unit {0}) × TunnelStream → Outcome IoError ℕ × TunnelStream
after_shutdown total (done u, t) = (done total, t)
after_shutdown total (failed e, t) = (failed e, t)
after_shutdown total (elapsed, t) = (elapsed, t)

abbrev Relaying : Type 0
Relaying = TunnelStream → Outcome IoError ℕ × TunnelStream

turn : (ℕ → Relaying) → Turn × TunnelStream → Outcome IoError ℕ × TunnelStream
unfolding after_shutdown
turn rest (again total, t) = rest total t
turn rest (shut total, t) = after_shutdown total (tunnel_shutdown t)
turn rest (stop r, t) = (r, t)

-- The loop, with its count. Running out of fuel is `elapsed`.
relay_loop : ℕ → ℕ → Relaying
unfolding turn after_read
relay_loop zero total t = (elapsed, t)
relay_loop (suc fuel) total t =
    turn (λ total'. relay_loop fuel total') (after_read total (tunnel_read 1024 t))

-- The listener's `relay_with_tunnel_stream`.
unfoldable pub relay_with_tunnel_stream : TunnelStream → Outcome IoError ℕ × TunnelStream
unfolding relay_loop
relay_with_tunnel_stream t = relay_loop (fuel_of t.source) 0 t

-- A spawned `handle_client`, with its arguments.
pub record ClientTask : Type 0 where
  pub client_stream : Stream
  pub client_addr : SocketAddr
  pub state : AppState

-- `while let Ok(...) = listener.accept().await`.
accept_clients : AppState → Accepts → List ClientTask
accept_clients state [] = []
accept_clients state (ok (stream, addr) ∷ accepts) =
    record { client_stream = stream; client_addr = addr; state = state }
    ∷ accept_clients state accepts
accept_clients state (err e ∷ accepts) = []

-- The tasks that `run_proxy_server` spawns; `none` is the panic of `unwrap`.
unfoldable pub run_proxy_server :
    (SocketAddr → Result Accepts IoError) → AppState → SocketAddr → Option (List ClientTask)
unfolding accept_clients
run_proxy_server bind state addr = elim (bind addr) [
  | ok accepts ↦ some (accept_clients state accepts)
  | err e ↦ none
]
