-- ===== src/Proxy/Client/Redetect.antt =====
-- proxy/listener.rs, `async_handle_client`: its detection, of a client over plain TCP.
use crabby_proxy.Prelude.{ℕ, ◌≡◌, refl, sym, ap, ◌∙◌, some, List, [], ◌∷◌, ◌++◌, take, append-nil}
use crabby_proxy.Text.{codes, starts_with}
use crabby_proxy.Net.{Stream, plain, IoError}
use crabby_proxy.Net.Io.{Outcome, done, timed}
use crabby_proxy.Net.Read.Delivery.{delivered}
use crabby_proxy.Net.Read.Peek.{peek_ready, peek_or_read_plain}
use crabby_proxy.Net.Read.Steps.{Delivers, Moves}
use crabby_proxy.Net.Common.{peek_or_read}
use crabby_proxy.Proxy.Protocol.{ProxyProtocol, http, socks5}
use crabby_proxy.Proxy.Detect.{detect_protocol, is_http_method, zero_filled}
use crabby_proxy.Proxy.Client.{ClientError, redetect, redetected}

pub redetect_plain :
    (s : Stream) (p : ProxyProtocol) (b : ℕ) (bs all : List ℕ)
    → detect_protocol (zero_filled 4 (take 4 (b ∷ bs))) ≡ p
    → s.kind ≡ plain
    → s.ready ≡ b ∷ bs
    → Delivers s all
    → (t : Stream) × (redetect s ≡ (p, t)) × Moves s t all []
unfolding redetect redetected delivered
redetect_plain s p b bs all g k e d =
    let timed_s = record s { deadline = some 5000 } in
    let (t, q, a) = peek_ready 4 timed_s b bs e in
    let looked : peek_or_read 4 timed_s ≡ (done (take 4 (b ∷ bs)), t) =
      peek_or_read_plain 4 timed_s k ∙ q in
    (
      record t { deadline = s.deadline },
      ap
            (λ (r : Outcome IoError (List ℕ) × Stream).
              (redetected (timed {F = ClientError} r.0), record r.1 { deadline = s.deadline }))
            looked
          ∙ ap (λ x. (x, record t { deadline = s.deadline })) g,
      record {
        delivers = record {
          idle = d.idle;
          writable = a.untouched.fates ∙ d.writable;
          all = a.left ∙ d.all;
        };
        wrote = a.untouched.sent ∙ sym (append-nil s.sent);
        kind = a.untouched.kind;
        calm = a.untouched.calm;
        sooner = a.untouched.sooner;
      },
    )

pub redetect_socks5 :
    (s : Stream) (bs all : List ℕ)
    → s.kind ≡ plain
    → s.ready ≡ 5 ∷ bs
    → Delivers s all
    → (t : Stream) × (redetect s ≡ (socks5, t)) × Moves s t all []
unfolding detect_protocol is_http_method starts_with zero_filled
redetect_socks5 s bs all k e d = redetect_plain s socks5 5 bs all refl k e d

pub redetect_connect :
    (s : Stream) (bs all : List ℕ)
    → s.kind ≡ plain
    → s.ready ≡ codes "CONN" ++ bs
    → Delivers s all
    → (t : Stream) × (redetect s ≡ (http, t)) × Moves s t all []
unfolding detect_protocol is_http_method starts_with zero_filled
redetect_connect s bs all k e d = redetect_plain s http b'C' (codes "ONN" ++ bs) all refl k e d
