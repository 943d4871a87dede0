-- ===== src/Tests/Listeners.antt =====
-- The listeners of proxy/listener.rs and tunnel/manager.rs, with one connection before a failed `accept`
-- and one behind it.
use crabby_proxy.Prelude.{
  ◌≡◌, refl, true, false, Bool, some, List, [], ◌∷◌, ◌++◌, map, ok, err, arith,
}
use crabby_proxy.Text.{codes}
use crabby_proxy.Net.{IoError, other, SocketAddr, v4, Stream, Accepts, arrive, pause, fail}
use crabby_proxy.Net.Read.Delivery.{delivered, delivered_from}
use crabby_proxy.Stream.{Tunnel, new, relay_with_logging}
use crabby_proxy.Stream.Join.{Exchanged}
use crabby_proxy.Proxy.Listener.{run_proxy_server, relay_with_tunnel_stream}
use crabby_proxy.Proxy.Listener.Relay.{Agree, relay_with_tunnel_stream-Agree}
use crabby_proxy.Proxy.Listener.Accepting.{
  accepted, client_task, connection_task, accept_error-run_proxy_server,
}
use crabby_proxy.Tunnel.Listener.{tunnel_listener_task, handle_tunnel_connection}
use crabby_proxy.Tunnel.Listener.Copies.{handle_tunnel_connection-Exchanged}
use crabby_proxy.Tests.Streams.{stream_of}
use crabby_proxy.Tests.Clients.{guarded}

abbrev peer : SocketAddr
peer = v4 (10 ∷ 0 ∷ 0 ∷ 7 ∷ []) 5000

abbrev here : SocketAddr
here = v4 (0 ∷ 0 ∷ 0 ∷ 0 ∷ []) 8080

abbrev visitor : Stream
visitor = stream_of (1 ∷ 2 ∷ []) (pause 4 ∷ arrive (3 ∷ []) ∷ [])

abbrev service : Stream
service = stream_of [] (arrive (7 ∷ 8 ∷ []) ∷ [])

abbrev too_many_files : IoError
too_many_files = record { kind = other; message = codes "Too many open files" }

abbrev before : List (Stream × SocketAddr)
before = (visitor, peer) ∷ []

abbrev after : List (Stream × SocketAddr)
after = (service, peer) ∷ []

abbrev accepts : Accepts
accepts = accepted before ++ err too_many_files ∷ accepted after

accept_error-run_proxy_server_example :
    (run_proxy_server (λ addr. ok accepts) guarded here ≡ some (map (client_task guarded) before))
    × (tunnel_listener_task (λ text. ok accepts) 9000 peer
        ≡ map (connection_task peer) (before ++ after))
accept_error-run_proxy_server_example =
    accept_error-run_proxy_server (λ addr. ok accepts) (λ text. ok accepts) guarded here peer 9000
      before after too_many_files refl refl

abbrev broken_off : Stream
broken_off = stream_of (1 ∷ []) (arrive (2 ∷ []) ∷ pause 3 ∷ fail too_many_files ∷ [])

relay_with_tunnel_stream-Agree_example :
    Agree
      (relay_with_tunnel_stream (new broken_off service))
      (relay_with_logging (new broken_off service))
relay_with_tunnel_stream-Agree_example = relay_with_tunnel_stream-Agree broken_off service refl

abbrev schedule : List Bool
schedule = true ∷ false ∷ true ∷ false ∷ true ∷ true ∷ false ∷ []

handle_tunnel_connection-Exchanged_example :
    (t : Tunnel) × (handle_tunnel_connection (λ addr. ok service) schedule visitor peer ≡ ok t)
    × Exchanged t [] (1 ∷ 2 ∷ 3 ∷ []) 3 [] (7 ∷ 8 ∷ []) 2
unfolding delivered delivered_from
handle_tunnel_connection-Exchanged_example =
    handle_tunnel_connection-Exchanged (λ addr. ok service) schedule visitor service peer refl
      (record { idle = refl; calm = tt; writable = refl })
      (record { idle = refl; calm = tt; writable = refl }) (ground arith) (ground arith)
