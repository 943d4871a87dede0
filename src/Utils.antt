-- ===== src/Utils.antt =====
-- utils.rs: one read and one write of a TCP stream, and the fixed replies to a client.
pub mod Tls
use crabby_proxy.Prelude.{ℕ, Bool, List, [], ◌∷◌, ◌++◌, if◌then◌else◌}
use crabby_proxy.Text.{codes}
use crabby_proxy.Net.{IoError}
use crabby_proxy.Net.Io.{Io, with_err, pure, ◌>>◌}
use crabby_proxy.Net.Read.{read, write, write_all}
use crabby_proxy.Error.{ProxyError, disconnected, context}

-- `stream.write(buf)`: the number of bytes that were taken, at most `room`, is dropped.
unfoldable pub write_to_stream : ℕ → List ℕ → Io ProxyError (Unit {0})
write_to_stream room buf s =
    with_err (λ e. disconnected (context (codes "failed to write to stream, addr: ") s.peer_addr e))
      (write room buf >> pure tt) s

unfoldable pub read_from_stream : ℕ → Io ProxyError (List ℕ)
read_from_stream size s =
    with_err
      (λ e. disconnected (context (codes "failed to read from stream, addr: ") s.peer_addr e))
      (read size) s

-- "\r\n".
abbrev pub crlf : List ℕ
crlf = 13 ∷ 10 ∷ []

unfoldable pub http_connect_response : List ℕ
http_connect_response = codes "HTTP/1.1 200 OK" ++ crlf ++ crlf

unfoldable pub send_http_connect_response : Io IoError (Unit {0})
send_http_connect_response = write_all http_connect_response

-- Version 0, the code, then two bytes for a port and four for an address.
unfoldable pub socks4_response : Bool → List ℕ
socks4_response success =
    if success
    then 0x00 ∷ 0x5a ∷ 0x00 ∷ 0x00 ∷ 0x00 ∷ 0x00 ∷ 0x00 ∷ 0x00 ∷ []
    else 0x00 ∷ 0x5b ∷ 0x00 ∷ 0x00 ∷ 0x00 ∷ 0x00 ∷ 0x00 ∷ 0x00 ∷ []

unfoldable pub send_socks4_response : Bool → Io IoError (Unit {0})
send_socks4_response success = write_all (socks4_response success)

-- Version 5, the code, a reserved byte, the address type 1, four bytes and two.
unfoldable pub socks5_response : Bool → List ℕ
socks5_response success =
    if success
    then 0x05 ∷ 0x00 ∷ 0x00 ∷ 0x01 ∷ 0x00 ∷ 0x00 ∷ 0x00 ∷ 0x00 ∷ 0x00 ∷ 0x00 ∷ []
    else 0x05 ∷ 0x01 ∷ 0x00 ∷ 0x01 ∷ 0x00 ∷ 0x00 ∷ 0x00 ∷ 0x00 ∷ 0x00 ∷ 0x00 ∷ []

unfoldable pub send_socks5_response : Bool → Io IoError (Unit {0})
send_socks5_response success = write_all (socks5_response success)
