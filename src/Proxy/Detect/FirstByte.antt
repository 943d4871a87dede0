-- ===== src/Proxy/Detect/FirstByte.antt =====
-- proxy/listener.rs, `detect_protocol`: the binary protocols go by the first byte alone.
use crabby_proxy.Prelude.{ℕ, ◌≡◌, ◌↔◌, List, ◌∷◌, arith}
use crabby_proxy.Text.{starts_with}
use crabby_proxy.Proxy.Protocol.{https, socks4, socks5}
use crabby_proxy.Proxy.Detect.{detect_protocol, is_http_method}

-- A first byte of 22 is TLS, 5 is SOCKS5 and 4 is SOCKS4, whatever follows, and nothing else is.
pub detect_protocol-first :
    (b : ℕ) (bs : List ℕ)
    → ((detect_protocol (b ∷ bs) ≡ https) ↔ (b ≡ 0x16))
      × ((detect_protocol (b ∷ bs) ≡ socks5) ↔ (b ≡ 0x05))
      × ((detect_protocol (b ∷ bs) ≡ socks4) ↔ (b ≡ 0x04))
unfolding detect_protocol is_http_method starts_with
detect_protocol-first b bs = ground arith
