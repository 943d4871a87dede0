-- ===== src/Proxy/Target/Text/RoundTrip.antt =====
-- proxy/listener.rs, `parse_connect_target` and `parse_http_target`: the target that a text names.
use crabby_proxy.Prelude.{
  ℕ, ◌<◌, ◌≡◌, refl, ap, ◌∙◌, inl, inr, none, some, List, [], ◌∷◌, ◌++◌, Result, ok, err, arith,
}
use crabby_proxy.Text.{codes, starts_with}
use crabby_proxy.Text.Decimal.{
  parse_u16, u16_to_string, u16_to_string-AreDigits, parse_u16-u16_to_string,
}
use crabby_proxy.Text.Split.{split}
use crabby_proxy.Text.Split.Pieces.{
  Lacks, split-Lacks, split-append, split_once-append, AreDigits-Lacks, Lacks-append,
}
use crabby_proxy.Net.{IoError}
use crabby_proxy.Net.Common.{invalid}
use crabby_proxy.Proxy.Protocol.{ProxyTarget}
use crabby_proxy.Proxy.Target.Text.{
  parse_connect_target, parse_http_target, authority, port_or_80, host_and_port,
}

pub split-host_port :
    (host : List ℕ) (port : ℕ)
    → Lacks b':' host
    → split b':' (host ++ b':' ∷ u16_to_string port) ≡ host ∷ u16_to_string port ∷ []
split-host_port host port h =
    let digits : Lacks b':' (u16_to_string port) =
      AreDigits-Lacks b':' (u16_to_string port) (u16_to_string-AreDigits port)
        (inr (omega arith)) in
    split-append b':' host (u16_to_string port) h
    ∙ ap (λ ps. host ∷ ps) (split-Lacks b':' (u16_to_string port) digits)

pub host_and_port_lem :
    (wrong bad_port : IoError) (host port : List ℕ) (n : ℕ)
    → parse_u16 port ≡ some n
    → host_and_port wrong bad_port (host ∷ port ∷ []) ≡ ok (record { host = host; port = n })
unfolding host_and_port
host_and_port_lem wrong bad_port host port n e =
    ap
      (λ o. elim o as (λ _. Result ProxyTarget IoError) [
        | none ↦ err bad_port
        | some p ↦ ok (record { host = host; port = p })
      ])
      e

authority_lem :
    (host port : List ℕ) (n : ℕ)
    → parse_u16 port ≡ some n
    → authority (host ∷ port ∷ []) ≡ record { host = host; port = n }
unfolding authority port_or_80
authority_lem host port n e =
    ap (λ o. record { host = host; port = elim o as (λ _. ℕ) [ none ↦ 80 | some p ↦ p ] }) e

-- The target of a CONNECT request is the host, without a colon, and the port that the text was made of.
pub parse_connect_target-append :
    (host : List ℕ) (port : ℕ)
    → Lacks b':' host
    → port < 65536
    → parse_connect_target (host ++ b':' ∷ u16_to_string port)
      ≡ ok (record { host = host; port = port })
unfolding parse_connect_target
parse_connect_target-append host port h p = rw (split-host_port host port h) (
    host_and_port_lem (invalid (codes "Invalid CONNECT target")) (invalid (codes "Invalid port"))
      host _ port (parse_u16-u16_to_string port p))

-- The part of a URL behind "http://" and before the next slash.
parse_http_target-split :
    (front path : List ℕ)
    → Lacks b'/' front
    → parse_http_target (codes "http://" ++ front ++ b'/' ∷ path)
      ≡ ok (authority (split b':' front))
unfolding parse_http_target starts_with
parse_http_target-split front path h = rw (split_once-append b'/' front path h) refl

-- In "http://host:port/path" the target is the host and the port, for a host with no colon or slash.
pub parse_http_target-append :
    (host path : List ℕ) (port : ℕ)
    → Lacks b':' host
    → Lacks b'/' host
    → port < 65536
    → parse_http_target (codes "http://" ++ (host ++ b':' ∷ u16_to_string port) ++ b'/' ∷ path)
      ≡ ok (record { host = host; port = port })
parse_http_target-append host path port h k p = parse_http_target-split _ path front ∙ ap ok named
  where
    digits : Lacks b'/' (u16_to_string port)
    digits =
        AreDigits-Lacks b'/' (u16_to_string port) (u16_to_string-AreDigits port) (inl (omega arith))

    front : Lacks b'/' (host ++ b':' ∷ u16_to_string port)
    front = Lacks-append b'/' host _ k ((λ e. omega (arith, e)), digits)

    named :
        authority (split b':' (host ++ b':' ∷ u16_to_string port))
        ≡ record { host = host; port = port }
    named =
        rw (split-host_port host port h)
          (authority_lem host _ port (parse_u16-u16_to_string port p))

-- With no port in the URL it is 80.
pub parse_http_target-default :
    (host path : List ℕ)
    → Lacks b':' host
    → Lacks b'/' host
    → parse_http_target (codes "http://" ++ host ++ b'/' ∷ path)
      ≡ ok (record { host = host; port = 80 })
unfolding authority port_or_80
parse_http_target-default host path h k =
    parse_http_target-split host path k ∙ rw (split-Lacks b':' host h) refl
