-- ===== src/Tests/Clients.antt =====
-- Clients of `handle_client` in proxy/listener.rs.
use crabby_proxy.Prelude.{
  ℕ, ◌≡◌, refl, true, Option, none, some, List, [], ◌∷◌, ◌++◌, ok, arith, contains,
}
use crabby_proxy.Text.{starts_with, text_eq, codes}
use crabby_proxy.Text.Utf8.{from_utf8_lossy, from_utf8, from_utf8-ascii}
use crabby_proxy.App.{AppState}
use crabby_proxy.Connection.Manager
use crabby_proxy.Net.{Stream, arrive, pause}
use crabby_proxy.Net.Read.Delivery.{delivered, delivered_from}
use crabby_proxy.Net.Read.Steps.{Moves}
use crabby_proxy.Net.Common.{peek_or_read, fuel_of, bytes_from}
use crabby_proxy.Utils.{http_connect_response, send_http_connect_response, crlf}
use crabby_proxy.Proxy.Detect.{detect_protocol, is_http_method, zero_filled, detect_client_protocol}
use crabby_proxy.Proxy.Auth.Credentials.{validate_auth_header, validate_credentials}
use crabby_proxy.Proxy.Auth.Socks.{authenticate_socks5}
use crabby_proxy.Proxy.Auth.Socks.Outcomes.{verdict, status_byte, authenticate_socks5-request}
use crabby_proxy.Proxy.Client.{
  admit, establish, redetect, Connector, async_handle_client, handle_client, run_tunnel, serve,
}
use crabby_proxy.Proxy.Client.Gate.{Authenticated, target_needs_auth}
use crabby_proxy.Net.Read.{peek, write_all, read}
use crabby_proxy.Proxy.Auth.{authenticate_by_protocol}
use crabby_proxy.Proxy.Auth.Http.{
  authenticate_http_or_https, is_authorized, extract_proxy_auth_header,
}
use crabby_proxy.Text.Split.{
  lines, to_lowercase, trim, trim_start_matches, split_once, is_whitespace, split, split_whitespace,
  trim_end, trim_start,
}
use crabby_proxy.Proxy.Client.Replies.{send_success_response}
use crabby_proxy.Proxy.Target.Text.{
  parse_connect_target, parse_http_target_from_stream, parse_request_line, read_line,
}
use crabby_proxy.Proxy.Target.{parse_target_by_protocol}
use crabby_proxy.Stream.{bidirectional, new, try_join, join_rounds}
use crabby_proxy.Text.Decimal.{parse_u16, u16_to_string}
use crabby_proxy.Tests.Streams.{stream_of}

abbrev pub guarded : AppState
guarded = record {
  connections = Manager.new;
  notify_tx = 0;
  require_creds = true;
  username = some (b'u' ∷ []);
  password = some (b'p' ∷ []);
  tls_acceptor = none;
}

abbrev pub server : Stream
server = stream_of [] []

-- Every host answers after 30 milliseconds.
abbrev pub connect : Connector
connect address = (30, ok server)

-- A host that sends two bytes and closes, reached after 30 milliseconds.
abbrev pub host : Stream
host = stream_of [] (pause 9 ∷ arrive (7 ∷ 8 ∷ []) ∷ [])

abbrev pub connect_host : Connector
connect_host address = (30, ok host)

-- The method 2, then the user "u" and the password "x".
abbrev guesser : Stream
guesser = stream_of (5 ∷ 1 ∷ 2 ∷ []) (arrive (1 ∷ 1 ∷ b'u' ∷ 1 ∷ b'x' ∷ []) ∷ [])

authenticate_socks5-request_example :
    (t : Stream) × (authenticate_socks5 guarded guesser
      ≡ (verdict (validate_credentials (b'u' ∷ []) (b'x' ∷ []) guarded), t))
    × Moves guesser t []
        (5 ∷ 2 ∷ 1 ∷ status_byte (validate_credentials (b'u' ∷ []) (b'x' ∷ []) guarded) ∷ [])
unfolding delivered delivered_from contains
authenticate_socks5-request_example =
    authenticate_socks5-request guarded guesser (2 ∷ []) (b'u' ∷ []) (b'x' ∷ []) (b'u' ∷ [])
      (b'x' ∷ []) [] refl refl (record { idle = refl; writable = refl; all = refl })
      (from_utf8-ascii (b'u' ∷ []) (omega arith, tt))
      (from_utf8-ascii (b'x' ∷ []) (omega arith, tt))

-- A decoder that knows one text.
abbrev pub decode : List ℕ → Option (List ℕ)
decode text = some (b'u' ∷ b':' ∷ b'p' ∷ [])

abbrev pub request : List ℕ
request =
    codes "CONNECT a:1 HTTP/1.1" ++ crlf ++ codes "Proxy-Authorization: Basic dTpw" ++ crlf ++ crlf

abbrev pub browser : Stream
browser = stream_of request []

pub browser_target : (handle_client decode connect [] guarded browser).target ≡ some server
unfolding handle_client detect_client_protocol peek starts_with admit authenticate_by_protocol
    authenticate_http_or_https peek_or_read is_authorized extract_proxy_auth_header lines
    from_utf8_lossy to_lowercase validate_auth_header trim trim_start_matches from_utf8 split_once
    validate_credentials async_handle_client establish redetect run_tunnel serve detect_protocol
    is_http_method zero_filled send_success_response parse_connect_target
    parse_http_target_from_stream parse_request_line read_line parse_target_by_protocol
    bidirectional new try_join join_rounds parse_u16 u16_to_string is_whitespace split
    split_whitespace trim_end trim_start text_eq http_connect_response send_http_connect_response
    fuel_of bytes_from write_all read
browser_target = refl

target_needs_auth_example : Authenticated decode guarded (detect_client_protocol browser)
target_needs_auth_example =
    target_needs_auth decode connect [] guarded browser server refl browser_target
