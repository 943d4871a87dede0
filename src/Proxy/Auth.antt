-- ===== src/Proxy/Auth.antt =====
-- proxy/listener.rs: who may use the proxy. `base64` is not part of the program: its decoder is
-- the parameter `decode`, from the characters to bytes, or `none` where they are no Base64.
pub mod Credentials
pub mod Http
pub mod Socks
use crabby_proxy.Prelude.{ℕ, Bool, false, List, Option}
use crabby_proxy.App.{AppState}
use crabby_proxy.Net.Io.{Io, pure}
use crabby_proxy.Proxy.Protocol.{ProxyProtocol, tcp, http, https, socks4, socks5}
use Credentials.{AuthError}
use Http.{authenticate_http_or_https}
use Socks.{authenticate_socks4, authenticate_socks5}

-- A protocol that cannot authenticate is turned away.
unfoldable pub authenticate_by_protocol :
    (List ℕ → Option (List ℕ)) → ProxyProtocol → AppState → Io AuthError Bool
authenticate_by_protocol decode http state = authenticate_http_or_https decode state
authenticate_by_protocol decode https state = authenticate_http_or_https decode state
authenticate_by_protocol decode socks5 state = authenticate_socks5 state
authenticate_by_protocol decode socks4 state = authenticate_socks4 state
authenticate_by_protocol decode tcp state = pure false
