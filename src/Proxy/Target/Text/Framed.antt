-- ===== src/Proxy/Target/Text/Framed.antt =====
-- proxy/listener.rs, `parse_target`: a target with its length in front, for a client that speaks no
-- other protocol.
use crabby_proxy.Prelude.{
  ℕ, ◌+◌, ◌*◌, ◌≤◌, ◌<◌, ◌≡◌, refl, ap, ◌∙◌, false, some, ◌||◌, List, [], ◌∷◌, ◌++◌, length, ltb,
  ◌==◌, arith,
}
use crabby_proxy.Text.{codes}
use crabby_proxy.Text.Decimal.{u16_to_string, parse_u16-u16_to_string}
use crabby_proxy.Text.Utf8.{from_utf8}
use crabby_proxy.Text.Split.Pieces.{Lacks}
use crabby_proxy.Net.{Stream, IoError}
use crabby_proxy.Net.Io.{Outcome, done, timed, continue, lift}
use crabby_proxy.Net.Common.{invalid}
use crabby_proxy.Net.Read.{read_exact}
use crabby_proxy.Net.Read.Delivery.{delivered, Untouched}
use crabby_proxy.Net.Read.Ready.{read_ready}
use crabby_proxy.Proxy.Protocol.{ProxyTarget}
use crabby_proxy.Proxy.Target.Text.{parse_target, read_target, flatten}
use crabby_proxy.Proxy.Target.Text.RoundTrip.{split-host_port, host_and_port_lem}

length_passed : (n : ℕ) → 1 ≤ n → n ≤ 1024 → (n == 0 || ltb 1024 n) ≡ false
length_passed n h k = ground arith

-- The bytes of a target that `text` decodes to.
read_target-frame :
    (s t u : Stream) (high low : ℕ) (frame host : List ℕ) (port : ℕ)
    → high * 256 + low ≡ length frame
    → 1 ≤ length frame
    → length frame ≤ 1024
    → from_utf8 frame ≡ some (host ++ b':' ∷ u16_to_string port)
    → Lacks b':' host
    → port < 65536
    → read_exact 2 s ≡ (done (high ∷ low ∷ []), t)
    → read_exact (high * 256 + low) t ≡ (done frame, u)
    → read_target s ≡ (done (record { host = host; port = port }), u)
unfolding read_target
read_target-frame s t u high low frame host port size least most text l small e e' = rw e (
    rw (ap (λ n. n == 0 || ltb 1024 n) size ∙ length_passed (length frame) least most) (
      rw e' (
        rw text (
          rw (split-host_port host port l) (
            rw
              (host_and_port_lem (invalid (codes "Invalid target format (expected host:port)"))
                (invalid (codes "Invalid port number")) host _ port
                (parse_u16-u16_to_string port small))
              refl)))))

-- When two bytes with a length from 1 to 1024 and that many bytes have arrived, and these are the UTF-8 of
-- "host:port" with no colon in the host, `parse_target` returns the host and the port within its
-- time limit. It takes these bytes and no others, and writes nothing.
pub parse_target-frame :
    (s : Stream) (high low : ℕ) (frame more host : List ℕ) (port : ℕ)
    → s.ready ≡ (high ∷ low ∷ frame) ++ more
    → high * 256 + low ≡ length frame
    → 1 ≤ length frame
    → length frame ≤ 1024
    → from_utf8 frame ≡ some (host ++ b':' ∷ u16_to_string port)
    → Lacks b':' host
    → port < 65536
    → (t : Stream) × (parse_target s ≡ (done (record { host = host; port = port }), t))
      × (delivered s ≡ (high ∷ low ∷ frame) ++ delivered t)
      × Untouched s t
unfolding parse_target flatten delivered
parse_target-frame s high low frame more host port r size least most text l small =
    let timed_s = record s { deadline = some 5000 } in
    let (t, e, a) = read_ready timed_s (high ∷ low ∷ []) frame more r in
    let (u, e', b) = read_ready t frame [] a.more a.ready in
    let target =
      read_target-frame timed_s t u high low frame host port size least most text l small e
        (ap (λ n. read_exact n t) size ∙ e') in
    (
      record u { deadline = s.deadline },
      ap
          (λ (x : Outcome IoError ProxyTarget × Stream).
            continue {E = IoError} (timed {F = IoError} x.0) (λ y. lift (flatten y))
              (record x.1 { deadline = s.deadline }))
          target,
      a.left ∙ ap (λ xs. high ∷ low ∷ xs) b.left,
      record {
        kind = b.untouched.kind ∙ a.untouched.kind;
        sent = b.untouched.sent ∙ a.untouched.sent;
        fates = b.untouched.fates ∙ a.untouched.fates;
        deadline = refl;
        is_shut = b.untouched.is_shut ∙ a.untouched.is_shut;
        calm = λ c. b.untouched.calm (a.untouched.calm c);
        sooner = omega (arith, a.untouched.sooner, b.untouched.sooner);
      },
    )
