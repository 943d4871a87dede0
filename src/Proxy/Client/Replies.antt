-- ===== src/Proxy/Client/Replies.antt =====
-- proxy/listener.rs, `send_error_response`, and the success replies of `async_handle_client`.
use crabby_proxy.Prelude.{true, false, ◌++◌}
use crabby_proxy.Text.{codes}
use crabby_proxy.Net.{IoError}
use crabby_proxy.Net.Io.{Io, pure}
use crabby_proxy.Net.Read.{write_all}
use crabby_proxy.Utils.{
  crlf, send_http_connect_response, send_socks4_response, send_socks5_response,
}
use crabby_proxy.Proxy.Protocol.{ProxyProtocol, http, socks4, socks5}

pub data ErrorType : Type 0 where
  handshake connection response timeout tunnel : ErrorType

unfoldable pub send_error_response : ProxyProtocol → ErrorType → Io IoError (Unit {0})
send_error_response http handshake = write_all (codes "HTTP/1.1 400 Bad Request" ++ crlf ++ crlf)
send_error_response http connection = write_all (codes "HTTP/1.1 502 Bad Gateway" ++ crlf ++ crlf)
send_error_response http timeout = write_all (codes "HTTP/1.1 504 Gateway Timeout" ++ crlf ++ crlf)
send_error_response socks4 _ = send_socks4_response false
send_error_response socks5 _ = send_socks5_response false
send_error_response _ _ = pure tt

unfoldable pub send_success_response : ProxyProtocol → Io IoError (Unit {0})
send_success_response http = send_http_connect_response
send_success_response socks4 = send_socks4_response true
send_success_response socks5 = send_socks5_response true
send_success_response _ = pure tt
