-- ===== src/Proxy/Target/Text/Schemeless.antt =====
-- proxy/listener.rs, `parse_http_target_from_stream`: a request for "host:port" with another method than CONNECT.
use crabby_proxy.Prelude.{
  ℕ, ◌≡◌, ◌≢◌, refl, ap, ◌∙◌, false, none, inl, List, [], ◌∷◌, ◌++◌, err, ==_ne, arith,
}
use crabby_proxy.Text.{codes, starts_with}
use crabby_proxy.Text.Decimal.{u16_to_string, u16_to_string-AreDigits}
use crabby_proxy.Text.Split.Pieces.{Lacks, AreDigits-Lacks}
use crabby_proxy.Text.Split.Words.{IsPrintable}
use crabby_proxy.Net.{Stream}
use crabby_proxy.Net.Io.{failed, lift}
use crabby_proxy.Net.Common.{invalid}
use crabby_proxy.Net.Read.Delivery.{delivered, NoFail}
use crabby_proxy.Proxy.Target.Text.{parse_http_target, parse_http_target_from_stream}
use crabby_proxy.Proxy.Target.Text.Request.{
  request_line, TargetRead, parse_http_target_from_stream-RequestRead,
}
use crabby_proxy.Proxy.Target.Text.Connect.{url-IsPrintable}
use crabby_proxy.Proxy.Target.Text.Absolute.{parse_request_line-other}

-- The colon behind the host is not that of a scheme, for no slash follows it.
starts_with-scheme :
    (host tail : List ℕ)
    → Lacks b':' host
    → Lacks b'/' tail
    → starts_with (host ++ b':' ∷ tail) (codes "http://") ≡ false
unfolding starts_with
starts_with-scheme [] tail h k = refl
starts_with-scheme (a ∷ []) tail h k = ground arith
starts_with-scheme (a ∷ b ∷ []) tail h k = ground arith
starts_with-scheme (a ∷ b ∷ c ∷ []) tail h k = ground arith
starts_with-scheme (a ∷ b ∷ c ∷ d ∷ []) [] h k = ground arith
starts_with-scheme (a ∷ b ∷ c ∷ d ∷ []) (x ∷ xs) h k =
    let other = ==_ne x b'/' k.0 in ground (arith, other)
starts_with-scheme (a ∷ b ∷ c ∷ d ∷ e ∷ host) tail h k =
    let other = ==_ne e b':' h.1.1.1.1.0 in ground (arith, other)

parse_http_target-schemeless :
    (host : List ℕ) (port : ℕ)
    → Lacks b':' host
    → parse_http_target (host ++ b':' ∷ u16_to_string port)
      ≡ err (invalid (codes "Invalid HTTP URL"))
unfolding parse_http_target
parse_http_target-schemeless host port l =
    rw
      (starts_with-scheme host (u16_to_string port) l (
        AreDigits-Lacks b'/' (u16_to_string port) (u16_to_string-AreDigits port)
          (inl (omega arith))))
      refl

pub parse_http_target_from_stream-schemeless :
    (s : Stream) (m : ℕ) (ms : List ℕ) (h : ℕ) (hs : List ℕ) (port : ℕ) (post : List ℕ)
    → s.deadline ≡ none
    → NoFail s.incoming
    → IsPrintable (m ∷ ms)
    → (m ∷ ms) ≢ codes "CONNECT"
    → IsPrintable (h ∷ hs)
    → Lacks b':' (h ∷ hs)
    → delivered s ≡ request_line (m ∷ ms) ((h ∷ hs) ++ b':' ∷ u16_to_string port) ++ 10 ∷ post
    → (t : Stream) × (parse_http_target_from_stream s
        ≡ (failed (invalid (codes "Invalid HTTP URL")), t))
      × TargetRead s t post
parse_http_target_from_stream-schemeless s m ms h hs port post idle calm pm n p l e =
    let url : List ℕ = (h ∷ hs) ++ b':' ∷ u16_to_string port in
    let r =
      parse_http_target_from_stream-RequestRead s m ms h (hs ++ b':' ∷ u16_to_string port) post idle
        calm pm (url-IsPrintable h hs port p) e in
    let target =
      parse_request_line-other (m ∷ ms) url n ∙ parse_http_target-schemeless (h ∷ hs) port l in
    (r.after, r.got ∙ ap (λ x. lift x r.after) target, r.read)
