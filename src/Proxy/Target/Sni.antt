-- ===== src/Proxy/Target/Sni.antt =====
-- proxy/listener.rs, `extract_sni_from_tls` and `parse_https_target_from_stream`.
pub mod First
pub mod Scanned
use crabby_proxy.Prelude.{
  ℕ, zero, suc, ◌+◌, ◌-◌, not, ◌||◌, ◌&&◌, Option, none, some, List, [], ◌∷◌, ltb, leb, ◌==◌,
  if◌then◌else◌, length, take, drop,
}
use crabby_proxy.Text.{codes, text_eq}
use crabby_proxy.Text.Utf8.{from_utf8}
use crabby_proxy.Net.{IoError}
use crabby_proxy.Net.Io.{Io, pure, ◌>>=◌}
use crabby_proxy.Net.Common.{byte_at, peek_or_read}
use crabby_proxy.Proxy.Protocol.{ProxyTarget}

-- One round of the loop: the name at `i`, if one is found there. The two `checked_add` are sums
-- that cannot leave a `usize`, with `i` below the length of the data.
unfoldable pub sni_at : ℕ → List ℕ → Option (List ℕ)
sni_at i bytes =
    let name_len = byte_at (i + 9) bytes in
    if text_eq (take 4 (drop i bytes)) (0 ∷ 0 ∷ 0 ∷ 0 ∷ [])
      && ltb (i + 9) (length bytes)
      && leb (i + 10 + name_len) (length bytes)
    then from_utf8 (take name_len (drop (i + 10) bytes))
    else none

-- The rounds from `i` on, until one returns.
sni_scan : ℕ → ℕ → List ℕ → Option (List ℕ)
sni_scan zero i bytes = none
sni_scan (suc rounds) i bytes = elim (sni_at i bytes) [
  | some hostname ↦ some hostname
  | none ↦ sni_scan rounds (i + 1) bytes
]

unfoldable pub extract_sni_from_tls : List ℕ → Option (List ℕ)
unfolding sni_scan sni_at
extract_sni_from_tls bytes =
    if ltb (length bytes) 43 || not (byte_at 0 bytes == 0x16)
    then none
    else sni_scan (length bytes - 10) 0 bytes

-- The name of the handshake, or a stand-in for it.
sni_target : Option (List ℕ) → ProxyTarget
sni_target (some sni) = record { host = sni; port = 443 }
sni_target none = record { host = codes "unknown.host"; port = 443 }

unfoldable pub parse_https_target_from_stream : Io IoError ProxyTarget
unfolding sni_target
parse_https_target_from_stream = do
  buf ← peek_or_read 512
  pure (sni_target (extract_sni_from_tls buf))
