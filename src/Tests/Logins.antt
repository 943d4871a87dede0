-- ===== src/Tests/Logins.antt =====
-- Logins over HTTP and SOCKS4, and the name in a TLS handshake.
use crabby_proxy.Prelude.{false, none, ℕ, ◌≡◌, refl, some, List, [], ◌∷◌, ◌++◌, arith}
use crabby_proxy.Text.{codes, text_eq, starts_with}
use crabby_proxy.Text.Utf8.{from_utf8, from_utf8-ascii}
use crabby_proxy.Net.{Stream, arrive, pause}
use crabby_proxy.Net.Read.Delivery.{delivered, delivered_from}
use crabby_proxy.Proxy.Auth.Http.{header_in, extract_proxy_auth_header, is_authorized}
use crabby_proxy.Proxy.Auth.Http.Header.{extract_proxy_auth_header-capital, is_authorized-small}
use crabby_proxy.Text.Split.{lines, split, trim, to_lowercase}
use crabby_proxy.Utils.{crlf}
use crabby_proxy.Proxy.Auth.Socks.UserId.{UserIdChecked, authenticate_socks4-request}
use crabby_proxy.Proxy.Target.Sni.{extract_sni_from_tls, sni_at}
use crabby_proxy.Proxy.Target.Sni.First.{FirstName, extract_sni_from_tls-FirstName}
use crabby_proxy.Tests.Streams.{stream_of}
use crabby_proxy.Tests.Clients.{guarded, decode, request}

-- The user "x", port 443 of 10.0.0.7.
abbrev stranger : Stream
stranger =
    stream_of (4 ∷ 1 ∷ 1 ∷ [])
      (pause 5 ∷ arrive (187 ∷ 10 ∷ 0 ∷ 0 ∷ 7 ∷ b'x' ∷ []) ∷ arrive (0 ∷ []) ∷ [])

authenticate_socks4-request_example : UserIdChecked guarded stranger (b'x' ∷ []) []
unfolding delivered delivered_from
authenticate_socks4-request_example =
    authenticate_socks4-request guarded stranger 1 1 187 10 0 0 7 (b'x' ∷ []) (b'x' ∷ []) [] refl
      (record { idle = refl; writable = refl; all = refl }) (λ e. omega (arith, e), tt)
      (from_utf8-ascii (b'x' ∷ []) (omega arith, tt))

-- Thirty bytes, four zeros, the length 2 and the name "hi".
abbrev hello : List ℕ
hello =
    22 ∷ codes "abcdefghijklmnopqrstuvwxyzabc"
    ++ 0 ∷ 0 ∷ 0 ∷ 0 ∷ 1 ∷ 1 ∷ 1 ∷ 1 ∷ 1 ∷ 2 ∷ codes "hi and more"

hello_name : extract_sni_from_tls hello ≡ some (codes "hi")
unfolding extract_sni_from_tls sni_at text_eq from_utf8
hello_name = refl

extract_sni_from_tls-FirstName_example : FirstName hello (codes "hi")
extract_sni_from_tls-FirstName_example =
    extract_sni_from_tls-FirstName hello (codes "hi") hello_name

-- The lines of the request above, and of one with the name in small letters.
lines-request :
    lines request
    ≡ codes "CONNECT a:1 HTTP/1.1" ∷ (codes "Proxy-Authorization:" ++ codes " Basic dTpw") ∷ [] ∷ []
unfolding lines split
lines-request = refl

no_header : header_in (codes "CONNECT a:1 HTTP/1.1" ∷ []) ≡ none
unfolding header_in starts_with to_lowercase
no_header = refl

extract_proxy_auth_header-capital_example :
    extract_proxy_auth_header request ≡ some (trim (codes " Basic dTpw"))
unfolding starts_with
extract_proxy_auth_header-capital_example =
    extract_proxy_auth_header-capital request (codes " Basic dTpw")
      (codes "CONNECT a:1 HTTP/1.1" ∷ []) ([] ∷ []) lines-request no_header refl

abbrev small_request : List ℕ
small_request =
    codes "CONNECT a:1 HTTP/1.1" ++ crlf ++ codes "proxy-authorization: Basic dTpw" ++ crlf ++ crlf

lines-small_request :
    lines small_request
    ≡ codes "CONNECT a:1 HTTP/1.1" ∷ (codes "proxy-authorization:" ++ codes " Basic dTpw") ∷ [] ∷ []
unfolding lines split
lines-small_request = refl

is_authorized-small_example : is_authorized decode guarded small_request ≡ false
is_authorized-small_example =
    is_authorized-small decode guarded small_request (codes " Basic dTpw")
      (codes "CONNECT a:1 HTTP/1.1" ∷ []) ([] ∷ []) lines-small_request no_header
