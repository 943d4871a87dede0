-- ===== src/Tests/Targets.antt =====
-- The targets of proxy/listener.rs, and the detection of the protocol.
use crabby_proxy.Prelude.{◌≡◌, refl, [], ◌∷◌, arith}
use crabby_proxy.Text.Address.{ipv4_to_string}
use crabby_proxy.Net.{Stream, arrive, pause}
use crabby_proxy.Net.Io.{done}
use crabby_proxy.Net.Read.Delivery.{delivered, delivered_from}
use crabby_proxy.Net.Read.Steps.{Moves}
use crabby_proxy.Proxy.Target.Binary.{parse_socks4_target}
use crabby_proxy.Proxy.Target.Binary.RoundTrip.{parse_socks4_target-request}
use crabby_proxy.Proxy.Target.Sni.Scanned.{Scanned, parse_https_target_from_stream-Scanned}
use crabby_proxy.Tests.Streams.{stream_of}

-- Port 443 of 10.0.0.7, the user "u", and two bytes more.
abbrev socks4_client : Stream
socks4_client =
    stream_of (4 ∷ 1 ∷ 1 ∷ [])
      (pause 5 ∷ arrive (187 ∷ 10 ∷ 0 ∷ 0 ∷ 7 ∷ b'u' ∷ []) ∷ arrive (0 ∷ 8 ∷ 9 ∷ []) ∷ [])

parse_socks4_target-request_example :
    (t : Stream) × (parse_socks4_target socks4_client
      ≡ (done (record { host = ipv4_to_string (10 ∷ 0 ∷ 0 ∷ 7 ∷ []); port = 443 }), t))
    × Moves socks4_client t (8 ∷ 9 ∷ []) []
unfolding delivered delivered_from
parse_socks4_target-request_example =
    parse_socks4_target-request socks4_client 443 10 0 0 7 (b'u' ∷ []) (8 ∷ 9 ∷ [])
      (record { idle = refl; writable = refl; all = refl }) (λ e. omega (arith, e), tt)

-- The beginning of a handshake that has no name in it.
abbrev hello : Stream
hello = stream_of (22 ∷ 3 ∷ 1 ∷ []) (pause 5 ∷ arrive (0 ∷ []) ∷ [])

parse_https_target_from_stream-Scanned_example :
    Scanned hello (22 ∷ 3 ∷ 1 ∷ 0 ∷ []) (22 ∷ 3 ∷ 1 ∷ [])
unfolding delivered delivered_from
parse_https_target_from_stream-Scanned_example =
    parse_https_target_from_stream-Scanned hello 22 (3 ∷ 1 ∷ []) (22 ∷ 3 ∷ 1 ∷ 0 ∷ []) refl refl
      (record { idle = refl; writable = refl; all = refl })
