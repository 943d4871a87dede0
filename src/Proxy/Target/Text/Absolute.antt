-- ===== src/Proxy/Target/Text/Absolute.antt =====
-- proxy/listener.rs, `parse_http_target_from_stream`: a request for an "http://" URL.
use crabby_proxy.Prelude.{
  ℕ, ◌<◌, ◌≡◌, ◌≢◌, refl, ap, ◌∙◌, Bool-cases, inl, inr, Option, none, some, List, ◌∷◌, ◌++◌, ok,
  arith,
}
use crabby_proxy.Text.{codes, text_eq, text_eq_sound}
use crabby_proxy.Text.Decimal.{u16_to_string, u16_to_string-AreDigits}
use crabby_proxy.Text.Split.Pieces.{Lacks}
use crabby_proxy.Text.Split.Words.{
  IsPrintable, IsPrintable-append, AreDigits-IsPrintable, all_printable-IsPrintable,
}
use crabby_proxy.Net.{Stream}
use crabby_proxy.Net.Io.{done, lift}
use crabby_proxy.Net.Read.Delivery.{delivered, NoFail}
use crabby_proxy.Proxy.Target.Text.{
  parse_http_target, parse_request_line, parse_http_target_from_stream,
}
use crabby_proxy.Proxy.Target.Text.Request.{
  request_line, request_words, TargetRead, parse_http_target_from_stream-RequestRead,
}
use crabby_proxy.Proxy.Target.Text.RoundTrip.{parse_http_target-append, parse_http_target-default}

-- The part of a URL that names the host, with a port or without.
abbrev pub authority_text : List ℕ → Option ℕ → List ℕ
authority_text host none = host
authority_text host (some port) = host ++ b':' ∷ u16_to_string port

abbrev pub http_url : List ℕ → Option ℕ → List ℕ → List ℕ
http_url host port path = codes "http://" ++ authority_text host port ++ b'/' ∷ path

abbrev pub port_of : Option ℕ → ℕ
port_of none = 80
port_of (some port) = port

abbrev pub IsPort : Option ℕ → Type 0
IsPort none = Unit {0}
IsPort (some port) = port < 65536

parse_http_target-http_url :
    (host : List ℕ) (port : Option ℕ) (path : List ℕ)
    → Lacks b':' host
    → Lacks b'/' host
    → IsPort port
    → parse_http_target (http_url host port path) ≡ ok (record { host = host; port = port_of port })
parse_http_target-http_url host none path h k p = parse_http_target-default host path h k
parse_http_target-http_url host (some port) path h k p =
    parse_http_target-append host path port h k p

authority_text-IsPrintable :
    (host : List ℕ) (port : Option ℕ) → IsPrintable host → IsPrintable (authority_text host port)
authority_text-IsPrintable host none p = p
authority_text-IsPrintable host (some port) p =
    IsPrintable-append host (b':' ∷ u16_to_string port) p
      (omega arith, omega arith, AreDigits-IsPrintable _ (u16_to_string-AreDigits port))

http_url-IsPrintable :
    (host : List ℕ) (port : Option ℕ) (path : List ℕ)
    → IsPrintable host
    → IsPrintable path
    → IsPrintable (http_url host port path)
http_url-IsPrintable host port path p q =
    IsPrintable-append (codes "http://" ++ authority_text host port) (b'/' ∷ path)
      (IsPrintable-append (codes "http://") (authority_text host port)
        (all_printable-IsPrintable (codes "http://") refl) (authority_text-IsPrintable host port p))
      (omega arith, omega arith, q)

-- Any other method than CONNECT asks for an "http://" URL.
pub parse_request_line-other :
    (method url : List ℕ)
    → method ≢ codes "CONNECT"
    → parse_request_line (request_words method url) ≡ parse_http_target url
unfolding parse_request_line
parse_request_line-other method url n = elim (Bool-cases (text_eq method (codes "CONNECT"))) [
  | inl same ↦ absurd (n (text_eq_sound method (codes "CONNECT") same))
  | inr other ↦ rw other refl
]

-- From a peer that does not fail, with no `timeout` around it, `parse_http_target_from_stream` reads the line
-- "METHOD http://host:port/path HTTP/1.1", or the same without ":port", for a method other than CONNECT,
-- however it is cut and delayed, and returns the host and the port, 80 if there is none; all are
-- printable ASCII, and the host has no colon and no slash. Nothing is written; of what stands behind the
-- line, the headers among it, a front part may be lost.
pub parse_http_target_from_stream-http_url :
    (s : Stream) (m : ℕ) (ms host : List ℕ) (port : Option ℕ) (path post : List ℕ)
    → s.deadline ≡ none
    → NoFail s.incoming
    → IsPrintable (m ∷ ms)
    → (m ∷ ms) ≢ codes "CONNECT"
    → IsPrintable host
    → Lacks b':' host
    → Lacks b'/' host
    → IsPort port
    → IsPrintable path
    → delivered s ≡ request_line (m ∷ ms) (http_url host port path) ++ 10 ∷ post
    → (t : Stream) × (parse_http_target_from_stream s
        ≡ (done (record { host = host; port = port_of port }), t))
      × TargetRead s t post
parse_http_target_from_stream-http_url s m ms host port path post idle calm pm n p h k small q e =
    let r =
      parse_http_target_from_stream-RequestRead s m ms b'h'
        (codes "ttp://" ++ authority_text host port ++ b'/' ∷ path) post idle calm pm
        (http_url-IsPrintable host port path p q) e in
    let target =
      parse_request_line-other (m ∷ ms) (http_url host port path) n
      ∙ parse_http_target-http_url host port path h k small in
    (r.after, r.got ∙ ap (λ x. lift x r.after) target, r.read)
