-- ===== src/Tunnel/Listener/Copies.antt =====
-- tunnel/manager.rs, `handle_tunnel_connection`: the bytes of both sides reach the other.
use crabby_proxy.Prelude.{◌%◌, ◌^◌, ◌<◌, ◌≡◌, ap, Bool, true, false, List, length, Result, ok, err}
use crabby_proxy.Net.{IoError, SocketAddr, Stream}
use crabby_proxy.Net.Read.Delivery.{delivered}
use crabby_proxy.Stream.{Tunnel, bidirectional, join_rounds}
use crabby_proxy.Stream.Join.{IsCalm, turns, Exchanged, join_rounds-Exchanged}
use crabby_proxy.Tunnel.Listener.{handle_tunnel_connection}

-- `handle_tunnel_connection` whose target accepts, between two streams whose peers close without a failure,
-- with writes that succeed and no `timeout` around it, hands the bytes of each to the other, all of them and
-- in their order, and shuts both, in whatever order its two directions run, if each has more turns than its
-- source has bytes.
pub handle_tunnel_connection-Exchanged :
    (connect : SocketAddr → Result Stream IoError) (schedule : List Bool)
    (inbound outbound : Stream) (target_addr : SocketAddr)
    → connect target_addr ≡ ok outbound
    → IsCalm inbound
    → IsCalm outbound
    → length (delivered inbound) < turns true schedule
    → length (delivered outbound) < turns false schedule
    → (t : Tunnel) × (handle_tunnel_connection connect schedule inbound target_addr ≡ ok t)
      × Exchanged t outbound.sent
          (delivered inbound)
          (length (delivered inbound) % 2 ^ 64)
          inbound.sent
          (delivered outbound)
          (length (delivered outbound) % 2 ^ 64)
unfolding handle_tunnel_connection
handle_tunnel_connection-Exchanged connect schedule inbound outbound target_addr e c1 c2 h1 h2 = (
  join_rounds 8192 schedule (bidirectional inbound outbound),
  ap
      (λ r. elim r as (λ _. Result Tunnel IoError) [
        | ok s ↦ ok (join_rounds 8192 schedule (bidirectional inbound s))
        | err x ↦ err x
      ])
      e,
  join_rounds-Exchanged 8191 schedule inbound outbound c1 c2 h1 h2,
)
