-- ===== src/Proxy/Client/Faults.antt =====
-- proxy/listener.rs, `handle_client`: a SOCKS5 client that has passed the authentication.
use crabby_proxy.Prelude.{ℕ, false, ◌≡◌, ◌≢◌, refl, ap, ◌∙◌, Bool, none, List, [], ◌∷◌, ◌++◌, ==_ne}
use crabby_proxy.Text.{codes}
use crabby_proxy.Net.{Stream, plain, IoError}
use crabby_proxy.Net.Io.{done, failed}
use crabby_proxy.Net.Read.Steps.{Delivers, Moves, Moves-trans, read_step, write_step}
use crabby_proxy.Net.Common.{invalid}
use crabby_proxy.Utils.{socks5_response, send_socks5_response}
use crabby_proxy.Proxy.Protocol.{ProxyProtocol, socks5}
use crabby_proxy.Proxy.Target.{parse_target_by_protocol}
use crabby_proxy.Proxy.Target.Binary.{parse_socks5_target}
use crabby_proxy.Proxy.Client.{
  async_handle_client, established, answer_error, Connector, Connection, served, serve, redetect,
  establish,
}
use crabby_proxy.Proxy.Client.Redetect.{redetect_socks5}
use crabby_proxy.Proxy.Client.Replies.{handshake, send_error_response}

wrong_request :
    (s : Stream) (x a b c : ℕ) (rest : List ℕ)
    → x ≢ 5
    → Delivers s (5 ∷ 1 ∷ 0 ∷ x ∷ a ∷ b ∷ c ∷ rest)
    → (t : Stream) × (parse_socks5_target s
        ≡ (failed (invalid (codes "Invalid SOCKS5 request")), t))
      × Moves s t rest (5 ∷ 0 ∷ [])
unfolding parse_socks5_target
wrong_request s x a b c rest n d =
    let tail : List ℕ = x ∷ a ∷ b ∷ c ∷ [] in
    let (t, e, m) = read_step s (5 ∷ 1 ∷ []) (0 ∷ (tail ++ rest)) d in
    let (u, e', m') = read_step t (0 ∷ []) (tail ++ rest) m.delivers in
    let (v, e'', m'') = write_step u (5 ∷ 0 ∷ []) (tail ++ rest) m'.delivers in
    let (w, e3, m3) = read_step v tail rest m''.delivers in
    (
      w,
      rw e (rw e' (rw e'' (rw e3 (rw (==_ne x 5 n) refl)))),
      Moves-trans s v w _ _ _ _ (Moves-trans s u v _ _ _ _ (Moves-trans s t u _ _ _ _ m m') m'') m3,
    )

-- The protocol's error for a request that cannot be read, and no target.
pub record RefusedWith (x : IoError) (c : Connection) (written : List ℕ) : Type 0 where
  pub ending : c.ending ≡ served (failed (x, handshake))
  pub target : c.target ≡ none
  pub sent : c.client.sent ≡ written

establish-failed :
    (connect : Connector) (p : ProxyProtocol) (s t : Stream) (x : IoError)
    → parse_target_by_protocol p s ≡ (failed x, t)
    → establish connect p s ≡ (failed (x, handshake), t)
unfolding establish
establish-failed connect p s t x e = rw e refl

-- A target that cannot be read, once the second detection has found a protocol.
pub serve-failed :
    (connect : Connector) (schedule : List Bool) (p : ProxyProtocol) (s t u v : Stream)
    (x : IoError)
    → redetect s ≡ (p, t)
    → parse_target_by_protocol p t ≡ (failed x, u)
    → send_error_response p handshake u ≡ (done tt, v)
    → RefusedWith x (serve connect schedule s) v.sent
unfolding serve async_handle_client answer_error established
serve-failed connect schedule p s t u v x r e w = rw r (
    rw (establish-failed connect p t u x e)
      (record { ending = refl; target = refl; sent = ap (λ y. y.1.sent) w }))

-- The second detection found SOCKS5 before a CONNECT request.
pub refuses-redetect :
    (connect : Connector) (schedule : List Bool) (s t : Stream) (rest : List ℕ) (x a b c : ℕ)
    → redetect s ≡ (socks5, t)
    → Moves s t (5 ∷ 1 ∷ 0 ∷ x ∷ a ∷ b ∷ c ∷ rest) []
    → x ≢ 5
    → RefusedWith
        (invalid (codes "Invalid SOCKS5 request"))
        (serve connect schedule s)
        (s.sent ++ 5 ∷ 0 ∷ socks5_response false)
unfolding send_error_response send_socks5_response parse_target_by_protocol
refuses-redetect connect schedule s t rest x a b c e1 m1 n =
    let (u, e2, m2) = wrong_request t x a b c rest n m1.delivers in
    let (v, e3, m3) = write_step u (socks5_response false) rest m2.delivers in
    let refused = serve-failed connect schedule socks5 s t u v _ e1 e2 e3 in
    let moved = Moves-trans s u v _ _ _ _ (Moves-trans s t u _ _ _ _ m1 m2) m3 in
    record { ending = refused.ending; target = refused.target; sent = refused.sent ∙ moved.wrote }

-- A client over plain TCP that has sent a first byte 5 with more behind it and whose next bytes are a SOCKS5
-- CONNECT request (5, 1, 0, the address type and the address), as after an accepted
-- authentication, is not connected. The proxy reads the request as a second greeting, answers it with
-- 5 and 0, and then ends with "Invalid SOCKS5 request" and the reply for a failure.
pub serve_refuses_request :
    (connect : Connector) (schedule : List Bool) (s : Stream) (bs rest : List ℕ) (x a b c : ℕ)
    → s.kind ≡ plain
    → s.ready ≡ 5 ∷ bs
    → x ≢ 5
    → Delivers s (5 ∷ 1 ∷ 0 ∷ x ∷ a ∷ b ∷ c ∷ rest)
    → RefusedWith
        (invalid (codes "Invalid SOCKS5 request"))
        (serve connect schedule s)
        (s.sent ++ 5 ∷ 0 ∷ socks5_response false)
serve_refuses_request connect schedule s bs rest x a b c k e n d =
    let (t, e1, m1) = redetect_socks5 s bs _ k e d in
    refuses-redetect connect schedule s t rest x a b c e1 m1 n
