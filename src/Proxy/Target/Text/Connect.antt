-- ===== src/Proxy/Target/Text/Connect.antt =====
-- proxy/listener.rs, `parse_http_target_from_stream`: a CONNECT request as a client sends it.
use crabby_proxy.Prelude.{ℕ, ◌<◌, ◌≡◌, refl, ◌∙◌, none, List, ◌∷◌, ◌++◌, arith}
use crabby_proxy.Text.{codes, text_eq}
use crabby_proxy.Text.Decimal.{u16_to_string, u16_to_string-AreDigits}
use crabby_proxy.Text.Split.Pieces.{Lacks}
use crabby_proxy.Text.Split.Words.{
  IsPrintable, IsPrintable-append, AreDigits-IsPrintable, all_printable-IsPrintable,
}
use crabby_proxy.Net.{Stream}
use crabby_proxy.Net.Io.{done}
use crabby_proxy.Net.Read.Delivery.{delivered, NoFail}
use crabby_proxy.Proxy.Target.Text.{parse_request_line, parse_http_target_from_stream}
use crabby_proxy.Proxy.Target.Text.Request.{
  request_line, TargetRead, parse_http_target_from_stream-RequestRead,
}
use crabby_proxy.Proxy.Target.Text.RoundTrip.{parse_connect_target-append}

-- The request line up to its line feed.
abbrev pub connect_line : List ℕ → ℕ → List ℕ
connect_line host port = request_line (codes "CONNECT") (host ++ b':' ∷ u16_to_string port)

pub url-IsPrintable :
    (h : ℕ) (hs : List ℕ) (port : ℕ)
    → IsPrintable (h ∷ hs)
    → IsPrintable ((h ∷ hs) ++ b':' ∷ u16_to_string port)
url-IsPrintable h hs port p =
    IsPrintable-append (h ∷ hs) (b':' ∷ u16_to_string port) p
      (omega arith, omega arith, AreDigits-IsPrintable _ (u16_to_string-AreDigits port))

-- From a peer that does not fail, with no `timeout` around it, `parse_http_target_from_stream` reads
-- the line "CONNECT host:port HTTP/1.1", however it is cut and delayed, and returns the host, in
-- printable ASCII without a colon, and the port. Nothing is written; of what stands behind the line, the
-- headers among it, a front part may be lost.
pub parse_http_target_from_stream-connect :
    (s : Stream) (h : ℕ) (hs : List ℕ) (port : ℕ) (post : List ℕ)
    → s.deadline ≡ none
    → NoFail s.incoming
    → IsPrintable (h ∷ hs)
    → Lacks b':' (h ∷ hs)
    → port < 65536
    → delivered s ≡ connect_line (h ∷ hs) port ++ 10 ∷ post
    → (t : Stream) × (parse_http_target_from_stream s
        ≡ (done (record { host = h ∷ hs; port = port }), t))
      × TargetRead s t post
unfolding parse_request_line text_eq
parse_http_target_from_stream-connect s h hs port post idle calm p l small e =
    let r =
      parse_http_target_from_stream-RequestRead s b'C' (codes "ONNECT") h
        (hs ++ b':' ∷ u16_to_string port) post idle calm connect_method
        (url-IsPrintable h hs port p) e in
    (r.after, r.got ∙ rw (parse_connect_target-append (h ∷ hs) port l small) refl, r.read)
  where
    connect_method : IsPrintable (codes "CONNECT")
    connect_method = all_printable-IsPrintable (codes "CONNECT") refl
