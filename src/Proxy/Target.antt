-- ===== src/Proxy/Target.antt =====
-- proxy/listener.rs: where a client wants to go, by its protocol.
pub mod Text
pub mod Sni
pub mod Binary
use crabby_proxy.Net.{IoError}
use crabby_proxy.Net.Io.{Io}
use crabby_proxy.Proxy.Protocol.{ProxyProtocol, ProxyTarget, tcp, http, https, socks4, socks5}
use Text.{parse_http_target_from_stream, parse_target}
use Sni.{parse_https_target_from_stream}
use Binary.{parse_socks4_target, parse_socks5_target}

unfoldable pub parse_target_by_protocol : ProxyProtocol → Io IoError ProxyTarget
parse_target_by_protocol http = parse_http_target_from_stream
parse_target_by_protocol https = parse_https_target_from_stream
parse_target_by_protocol socks4 = parse_socks4_target
parse_target_by_protocol socks5 = parse_socks5_target
parse_target_by_protocol tcp = parse_target
