-- ===== src/Proxy/Client/Serving.antt =====
-- proxy/listener.rs, `async_handle_client`: a SOCKS5 client from its greeting to its tunnel.
use crabby_proxy.Prelude.{
  ℕ, ◌<◌, ◌≡◌, refl, ap, Bool, true, List, ◌∷◌, ◌++◌, length, ltb, ok, arith,
}
use crabby_proxy.Text.Decimal.{u16_to_string}
use crabby_proxy.Net.{Stream, plain}
use crabby_proxy.Net.Io.{done, with_err}
use crabby_proxy.Net.Read.Steps.{Delivers, Moves, Moves-trans, write_step}
use crabby_proxy.Utils.{socks5_response, send_socks5_response}
use crabby_proxy.Proxy.Protocol.{ProxyProtocol, socks5}
use crabby_proxy.Proxy.Target.{parse_target_by_protocol}
use crabby_proxy.Proxy.Target.Binary.RoundTrip.{
  Destination, address_type, address_then, StandsFor, parse_socks5_target-request,
}
use crabby_proxy.Proxy.Client.{
  Connector, ClientError, connected, redetect, establish, established, replied, run_tunnel,
  async_handle_client,
}
use crabby_proxy.Proxy.Client.Replies.{response, send_success_response}
use crabby_proxy.Proxy.Client.Redetect.{redetect_socks5}

-- The text that `TcpStream::connect` is given.
abbrev pub address : List ℕ → ℕ → List ℕ
address host port = host ++ b':' ∷ u16_to_string port

connected_in_time : (ms : ℕ) (target : Stream) → ms < 10000 → connected (ms, ok target) ≡ ok target
unfolding connected
connected_in_time ms target h = let early : ltb ms 10000 ≡ true = ground arith in rw early refl

-- The target was read, and it is reached in time.
pub establish-connected :
    (connect : Connector) (ms : ℕ) (p : ProxyProtocol) (s t target : Stream) (host : List ℕ)
    (port : ℕ)
    → parse_target_by_protocol p s ≡ (done (record { host = host; port = port }), t)
    → connect (address host port) ≡ (ms, ok target)
    → ms < 10000
    → establish connect p s ≡ (done target, t)
unfolding establish
establish-connected connect ms p s t target host port e c h =
    rw e (rw c (rw (connected_in_time ms target h) refl))

-- Once the target is reached and the client is told, the client's connection is a tunnel to it.
pub async_handle_client-establish :
    (connect : Connector) (schedule : List Bool) (s t u v target : Stream) (p : ProxyProtocol)
    → redetect s ≡ (p, t)
    → establish connect p t ≡ (done target, u)
    → send_success_response p u ≡ (done tt, v)
    → async_handle_client connect schedule s ≡ (p, run_tunnel schedule v target)
unfolding async_handle_client established replied
async_handle_client-establish connect schedule s t u v target p r e w = rw r (
    rw e (
      ap
        (λ x.
          (p, replied schedule target (with_err {F = ClientError} (λ y. (y, response)) (λ _. x) u)))
        w))

-- A SOCKS5 client over plain TCP whose first byte has arrived with more behind it, and whose greeting and
-- CONNECT request name a host that `TcpStream::connect` reaches within 10 seconds, is told the method 0 and
-- then success, and becomes one end of a tunnel to that host; the bytes behind its request are left for
-- the tunnel.
pub async_handle_client-socks5 :
    (connect : Connector) (schedule : List Bool) (s target : Stream) (bs methods host rest : List ℕ)
    (d : Destination) (port ms : ℕ)
    → s.kind ≡ plain
    → s.ready ≡ 5 ∷ bs
    → StandsFor d host
    → Delivers s
        (5 ∷ length methods ∷ methods ++ 5 ∷ 1 ∷ 0 ∷ address_type d ∷ address_then d port rest)
    → connect (address host port) ≡ (ms, ok target)
    → ms < 10000
    → (t : Stream) × (async_handle_client connect schedule s
        ≡ (socks5, run_tunnel schedule t target))
      × Moves s t rest (5 ∷ 0 ∷ socks5_response true)
unfolding send_success_response send_socks5_response parse_target_by_protocol
async_handle_client-socks5 connect schedule s target bs methods host rest d port ms k r w h c
      early =
    let (t, e1, m1) = redetect_socks5 s bs _ k r h in
    let (u, e2, m2) = parse_socks5_target-request t methods d host port rest w m1.delivers in
    let (v, e3, m3) = write_step u (socks5_response true) rest m2.delivers in
    (
      v,
      async_handle_client-establish connect schedule s t u v target socks5 e1
          (establish-connected connect ms socks5 t u target host port e2 c early) e3,
      Moves-trans s u v _ _ _ _ (Moves-trans s t u _ _ _ _ m1 m2) m3,
    )
