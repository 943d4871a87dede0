-- ===== src/Tests/Served.antt =====
-- Clients of `handle_client` in proxy/listener.rs, from their first byte to their end.
use crabby_proxy.Prelude.{
  ℕ, ◌≡◌, refl, inl, true, false, some, List, Bool, [], ◌∷◌, ◌++◌, ok, arith, contains,
}
use crabby_proxy.Text.{codes, starts_with}
use crabby_proxy.Text.Utf8.{from_utf8-ascii, from_utf8_lossy}
use crabby_proxy.Text.Decimal.{u16_to_string}
use crabby_proxy.App.{AppState}
use crabby_proxy.Net.{Stream, arrive, pause, tls, v4}
use crabby_proxy.Net.Read.Delivery.{delivered, delivered_from, pauses}
use crabby_proxy.Utils.{socks5_response, crlf}
use crabby_proxy.Proxy.Auth.Credentials.{validate_credentials}
use crabby_proxy.Proxy.Target.Binary.RoundTrip.{domain}
use crabby_proxy.Proxy.Target.Text.Connect.{connect_line}
use crabby_proxy.Proxy.Client.{handle_client}
use crabby_proxy.Proxy.Client.Admitted.{ServedTunnel}
use crabby_proxy.Proxy.Client.Password.{Unserved, handle_client-Unserved}
use crabby_proxy.Proxy.Client.Whole.{ServedBehind, handle_client-socks5, handle_client-connect}
use crabby_proxy.Proxy.Client.Header.{Gated, handle_client-Gated}
use crabby_proxy.Proxy.Client.Tls.{handle_client-tls}
use crabby_proxy.Proxy.Client.Faults.{RefusedWith}
use crabby_proxy.Proxy.Auth.Http.{is_authorized}
use crabby_proxy.Proxy.Detect.{detect_protocol, is_http_method, zero_filled}
use crabby_proxy.Net.Common.{invalid}
use crabby_proxy.Tests.Streams.{stream_of}
use crabby_proxy.Tests.Clients.{guarded, decode, connect_host, host}

abbrev free : AppState
free = record guarded { require_creds = false }

abbrev schedule : List Bool
schedule = true ∷ true ∷ true ∷ false ∷ false ∷ false ∷ []

-- The method 0, then port 80 of "a", then a byte for the host.
abbrev visitor : Stream
visitor =
    stream_of (5 ∷ 1 ∷ 0 ∷ []) (pause 2 ∷ arrive (5 ∷ 1 ∷ 0 ∷ 3 ∷ 1 ∷ b'a' ∷ 0 ∷ 80 ∷ 9 ∷ []) ∷ [])

handle_client-socks5_example :
    ServedTunnel
      (handle_client decode connect_host schedule free visitor)
      (9 ∷ [])
      ((5 ∷ 0 ∷ socks5_response true) ++ 7 ∷ 8 ∷ [])
      1
      2
unfolding delivered delivered_from
handle_client-socks5_example =
    handle_client-socks5 decode connect_host schedule free visitor host (1 ∷ 0 ∷ []) (0 ∷ [])
      (b'a' ∷ []) (9 ∷ []) (domain (b'a' ∷ [])) 80 30 refl refl refl tt tt
      (from_utf8-ascii (b'a' ∷ []) (omega arith, tt))
      (record { idle = refl; writable = refl; all = refl }) refl (omega arith)
      (record { idle = refl; calm = tt; writable = refl }) (ground arith) (ground arith)

-- The end of a request line for port 1 of "a", and the empty line behind it.
abbrev line_end : List ℕ
line_end = codes "ECT a:1 HTTP/1.1" ++ 13 ∷ 10 ∷ 13 ∷ 10 ∷ []

abbrev browser : Stream
browser = stream_of (codes "CONN") (pause 3 ∷ arrive line_end ∷ [])

browser_request : delivered browser ≡ connect_line (b'a' ∷ []) 1 ++ 10 ∷ 13 ∷ 10 ∷ []
unfolding delivered delivered_from u16_to_string
browser_request = refl

handle_client-connect_example :
    ServedBehind
      (handle_client decode connect_host schedule free browser)
      browser
      host
      (13 ∷ 10 ∷ [])
unfolding delivered delivered_from
handle_client-connect_example =
    handle_client-connect decode connect_host schedule free browser host [] [] (13 ∷ 10 ∷ []) b'a' 1
      30 (inl refl) refl refl tt tt (omega arith, omega arith, tt) (λ e. omega (arith, e), tt)
      (omega arith) (record { idle = refl; writable = refl; all = browser_request }) refl
      (omega arith) (record { idle = refl; calm = tt; writable = refl }) (ground arith)
      (ground arith)

-- Port 80 of "a", with the right name and password.
abbrev member_request : List ℕ
member_request = 5 ∷ 1 ∷ 0 ∷ 3 ∷ 1 ∷ b'a' ∷ 0 ∷ 80 ∷ []

abbrev member : Stream
member =
    stream_of (5 ∷ 1 ∷ 2 ∷ [])
      (pause 9 ∷ arrive (1 ∷ 1 ∷ b'u' ∷ 1 ∷ b'p' ∷ []) ∷ pause 9 ∷ arrive member_request ∷ [])

handle_client-Unserved_example :
    Unserved
      (validate_credentials (b'u' ∷ []) (b'p' ∷ []) guarded)
      member
      (handle_client decode connect_host schedule guarded member)
unfolding delivered delivered_from contains pauses
handle_client-Unserved_example =
    handle_client-Unserved decode connect_host schedule guarded member (2 ∷ []) (b'u' ∷ [])
      (b'p' ∷ []) (b'u' ∷ []) (b'p' ∷ []) (80 ∷ []) 3 1 b'a' 0 refl refl tt (omega arith) refl
      (from_utf8-ascii (b'u' ∷ []) (omega arith, tt))
      (from_utf8-ascii (b'p' ∷ []) (omega arith, tt)) (λ e. omega (arith, e))
      (record { idle = refl; writable = refl; all = refl })

-- A request without a header.
abbrev intruder : Stream
intruder = stream_of (codes "CONNECT a:1 HTTP/1.1") (pause 8 ∷ arrive (13 ∷ 10 ∷ []) ∷ [])

handle_client-Gated_example :
    Gated decode connect_host schedule guarded intruder
      (is_authorized decode guarded (from_utf8_lossy (codes "CONNECT a:1 HTTP/1.1")))
unfolding delivered delivered_from detect_protocol is_http_method starts_with zero_filled
handle_client-Gated_example =
    handle_client-Gated decode connect_host schedule guarded intruder b'C'
      (codes "ONNECT a:1 HTTP/1.1") (codes "CONNECT a:1 HTTP/1.1" ++ 13 ∷ 10 ∷ []) refl refl tt refl
      refl (record { idle = refl; writable = refl; all = refl })

-- A TLS session in which the client sends the request for port 1 of "a".
abbrev session : Stream
session = record browser { kind = tls }

abbrev with_tls : AppState
with_tls = record free { tls_acceptor = some (λ stream. ok session) }

-- A handshake, of which one byte will do here.
abbrev secured : Stream
secured = stream_of (22 ∷ []) []

handle_client-tls_example :
    RefusedWith
      (invalid (codes "Invalid HTTP URL"))
      (handle_client decode connect_host schedule with_tls secured)
      (codes "HTTP/1.1 400 Bad Request" ++ crlf ++ crlf)
unfolding delivered delivered_from
handle_client-tls_example =
    handle_client-tls decode connect_host schedule with_tls secured session (λ stream. ok session)
      (v4 (127 ∷ 0 ∷ 0 ∷ 1 ∷ []) 4000) [] [] [] (13 ∷ 10 ∷ []) b'a' 1 refl refl refl tt refl refl
      refl refl tt (omega arith, omega arith, tt) (λ e. omega (arith, e), tt)
      (record { idle = refl; writable = refl; all = browser_request })
