-- ===== src/Proxy/Target/Binary.antt =====
-- proxy/listener.rs, `parse_socks4_target` and `parse_socks5_target`.
pub mod RoundTrip
use crabby_proxy.Prelude.{ℕ, suc, not, ◌||◌, List, [], ◌∷◌, ◌==◌, if◌then◌else◌, take, drop, ok_or}
use crabby_proxy.Text.{codes}
use crabby_proxy.Text.Utf8.{from_utf8}
use crabby_proxy.Text.Address.{ipv4_to_string, ipv6_to_string}
use crabby_proxy.Net.{IoError}
use crabby_proxy.Net.Io.{Io, pure, raise, lift, ◌>>=◌, ◌>>◌}
use crabby_proxy.Net.Read.{read_exact, write_all}
use crabby_proxy.Net.Common.{byte_at, invalid, u16_from_be_bytes, read_user_id}
use crabby_proxy.Proxy.Protocol.{ProxyTarget}

abbrev pub port_at : ℕ → List ℕ → ℕ
port_at i buf = u16_from_be_bytes (byte_at i buf) (byte_at (suc i) buf)

unfoldable pub parse_socks4_target : Io IoError ProxyTarget
parse_socks4_target = do
  buf ← read_exact 8
  if not (byte_at 0 buf == 0x04)
      then raise (invalid (codes "Invalid SOCKS4 version"))
      else if not (byte_at 1 buf == 0x01)
      then raise (invalid (codes "Only CONNECT supported"))
      else do
        read_user_id
        pure (record { host = ipv4_to_string (drop 4 buf); port = port_at 2 buf })

read_ipv4 : Io IoError ProxyTarget
read_ipv4 = do
  addr_buf ← read_exact 6
  pure (record { host = ipv4_to_string (take 4 addr_buf); port = port_at 4 addr_buf })

read_domain : Io IoError ProxyTarget
read_domain = do
  len_buf ← read_exact 1
  domain_buf ← read_exact (byte_at 0 len_buf)
  domain ← lift (ok_or (from_utf8 domain_buf) (invalid (codes "Invalid domain")))
  port_buf ← read_exact 2
  pure (record { host = domain; port = port_at 0 port_buf })

read_ipv6 : Io IoError ProxyTarget
read_ipv6 = do
  addr_buf ← read_exact 18
  pure (record { host = ipv6_to_string (take 16 addr_buf); port = port_at 16 addr_buf })

-- The `match addr_type`.
pub read_address : ℕ → Io IoError ProxyTarget
unfolding read_ipv4 read_domain read_ipv6
read_address addr_type =
    if addr_type == 0x01
    then read_ipv4
    else if addr_type == 0x03
    then read_domain
    else if addr_type == 0x04
    then read_ipv6
    else raise (invalid (codes "Unsupported address type"))

unfoldable pub parse_socks5_target : Io IoError ProxyTarget
unfolding read_address
parse_socks5_target = do
  buf ← read_exact 2
  if not (byte_at 0 buf == 0x05) then raise (invalid (codes "Invalid SOCKS5 version")) else do
    methods ← read_exact (byte_at 1 buf)
    write_all (0x05 ∷ 0x00 ∷ [])
    req_buf ← read_exact 4
    if not (byte_at 0 req_buf == 0x05) || not (byte_at 1 req_buf == 0x01)
        then raise (invalid (codes "Invalid SOCKS5 request"))
        else read_address (byte_at 3 req_buf)
