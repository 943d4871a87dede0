-- ===== src/Proxy/Protocol.antt =====
-- proxy/protocol.rs.
use crabby_proxy.Prelude.{ℕ, Bool, true, false, List, Result, ok, err}
use crabby_proxy.Text.{codes}
use crabby_proxy.Net.{IoError, Accepts}

pub data ProxyProtocol : Type 0 where
  tcp http https socks4 socks5 : ProxyProtocol

-- The derived `PartialEq`.
abbrev pub protocol_eq : ProxyProtocol → ProxyProtocol → Bool
protocol_eq tcp tcp = true
protocol_eq http http = true
protocol_eq https https = true
protocol_eq socks4 socks4 = true
protocol_eq socks5 socks5 = true
protocol_eq _ _ = false

-- `Display`.
unfoldable pub protocol_to_string : ProxyProtocol → List ℕ
protocol_to_string tcp = codes "TCP"
protocol_to_string http = codes "HTTP"
protocol_to_string https = codes "HTTPS"
protocol_to_string socks4 = codes "SOCKS4"
protocol_to_string socks5 = codes "SOCKS5"

pub record ProxyTarget : Type 0 where
  pub host : List ℕ
  pub port : ℕ

pub record MultiProtocolProxy : Type 0 where
  pub listener : Accepts

-- `MultiProtocolProxy::new`, over the `bind` of a listener.
unfoldable pub new : (List ℕ → Result Accepts IoError) → List ℕ → Result MultiProtocolProxy IoError
new bind bind_addr = elim (bind bind_addr) [
  | ok listener ↦ ok (record { listener = listener })
  | err e ↦ err e
]
