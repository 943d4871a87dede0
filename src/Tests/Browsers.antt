-- ===== src/Tests/Browsers.antt =====
-- HTTP clients with a CONNECT request, and a client with a target behind its length.
use crabby_proxy.Prelude.{some, ◌≡◌, refl, [], ◌∷◌, ◌++◌, arith}
use crabby_proxy.Text.{codes}
use crabby_proxy.Text.Utf8.{from_utf8}
use crabby_proxy.Proxy.Target.Text.Framed.{parse_target-frame}
use crabby_proxy.Text.Decimal.{u16_to_string}
use crabby_proxy.Text.Split.Words.{all_printable-IsPrintable}
use crabby_proxy.Net.{Stream, arrive, pause}
use crabby_proxy.Net.Io.{done}
use crabby_proxy.Net.Read.Delivery.{Untouched, delivered, delivered_from}
use crabby_proxy.Proxy.Target.Text.{parse_target, parse_http_target_from_stream}
use crabby_proxy.Proxy.Target.Text.Request.{request_line, TargetRead}
use crabby_proxy.Proxy.Target.Text.Absolute.{http_url, parse_http_target_from_stream-http_url}
use crabby_proxy.Tests.Streams.{stream_of}

-- The length 3, the target "a:1", and a byte for the host.
abbrev framed : Stream
framed = stream_of (0 ∷ 3 ∷ codes "a:1" ++ 9 ∷ []) []

framed_text : from_utf8 (codes "a:1") ≡ some ((b'a' ∷ []) ++ b':' ∷ u16_to_string 1)
unfolding from_utf8 u16_to_string
framed_text = refl

parse_target-frame_example :
    (t : Stream) × (parse_target framed ≡ (done (record { host = b'a' ∷ []; port = 1 }), t))
    × (delivered framed ≡ (0 ∷ 3 ∷ codes "a:1") ++ delivered t)
    × Untouched framed t
parse_target-frame_example =
    parse_target-frame framed 0 3 (codes "a:1") (9 ∷ []) (b'a' ∷ []) 1 refl (omega arith)
      (omega arith) (omega arith) framed_text (λ e. omega (arith, e), tt) (omega arith)

-- A request for port 81 of "a".
abbrev browser : Stream
browser = stream_of (codes "GE") (
    arrive (codes "T http://a:8")
    ∷ pause 3
    ∷ arrive (codes "1/x HTTP/1.1" ++ 13 ∷ 10 ∷ 13 ∷ [])
    ∷ [])

browser_request :
    delivered browser
    ≡ request_line (codes "GET") (http_url (b'a' ∷ []) (some 81) (b'x' ∷ [])) ++ 10 ∷ 13 ∷ []
unfolding delivered delivered_from u16_to_string
browser_request = refl

parse_http_target_from_stream-http_url_example :
    (t : Stream) × (parse_http_target_from_stream browser
      ≡ (done (record { host = b'a' ∷ []; port = 81 }), t))
    × TargetRead browser t (13 ∷ [])
parse_http_target_from_stream-http_url_example =
    parse_http_target_from_stream-http_url browser b'G' (codes "ET") (b'a' ∷ []) (some 81)
      (b'x' ∷ []) (13 ∷ []) refl tt (all_printable-IsPrintable (codes "GET") refl) (λ e. cc)
      (omega arith, omega arith, tt) ((λ e. omega (arith, e)), tt) ((λ e. omega (arith, e)), tt)
      (omega arith) (omega arith, omega arith, tt) browser_request
