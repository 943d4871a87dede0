-- ===== src/Proxy/Detect.antt =====
-- proxy/listener.rs, `detect_protocol` and `detect_client_protocol`: which protocol a client
-- speaks, from the first four bytes that it sends.
pub mod FirstByte
use crabby_proxy.Prelude.{
  ℕ, zero, suc, Bool, ◌||◌, Option, none, some, List, [], ◌∷◌, ◌==◌, if◌then◌else◌, Result, ok, err,
}
use crabby_proxy.Text.{codes, starts_with}
use crabby_proxy.Net.{IoError}
use crabby_proxy.Net.Io.{Io, pure, raise, timeout, ◌>>=◌}
use crabby_proxy.Net.Read.{peek}
use crabby_proxy.Net.Common.{byte_at}
use crabby_proxy.Proxy.Protocol.{ProxyProtocol, tcp, http, https, socks4, socks5}

-- The buffer `[0u8; n]` after a read that filled its front.
unfoldable pub zero_filled : ℕ → List ℕ → List ℕ
zero_filled zero bs = []
zero_filled (suc n) [] = 0 ∷ zero_filled n []
zero_filled (suc n) (b ∷ bs) = b ∷ zero_filled n bs

unfoldable pub is_http_method : List ℕ → Bool
is_http_method peek_buf =
    starts_with peek_buf (codes "GET ")
    || starts_with peek_buf (codes "POST")
    || starts_with peek_buf (codes "PUT ")
    || starts_with peek_buf (codes "HEAD")
    || starts_with peek_buf (codes "DELE")
    || starts_with peek_buf (codes "CONN")

-- The source returns `Ok` on every path.
unfoldable pub detect_protocol : List ℕ → ProxyProtocol
unfolding is_http_method
detect_protocol peek_buf =
    if is_http_method peek_buf
    then http
    else if byte_at 0 peek_buf == 0x16
    then https
    else if byte_at 0 peek_buf == 0x05
    then socks5
    else if byte_at 0 peek_buf == 0x04
    then socks4
    else tcp

-- What the answer of a timed peek says of the protocol; a failure ends the detection.
unfoldable pub detected : Option (Result (List ℕ) IoError) → Io IoError ProxyProtocol
unfolding detect_protocol zero_filled
detected none = pure tcp
detected (some (err e)) = raise e
detected (some (ok bs)) = pure (detect_protocol (zero_filled 4 bs))

unfoldable pub detect_client_protocol : Io IoError ProxyProtocol
unfolding detected
detect_client_protocol = do peeked ← timeout {E = IoError} 5000 (peek 4); detected peeked
