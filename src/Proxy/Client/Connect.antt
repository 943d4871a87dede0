-- ===== src/Proxy/Client/Connect.antt =====
-- proxy/listener.rs, `async_handle_client`: an HTTP client with a CONNECT request.
use crabby_proxy.Prelude.{
  ℕ, ◌%◌, ◌^◌, ◌<◌, ◌≡◌, ap, Bool, true, false, List, ◌∷◌, ◌++◌, length, length-append, ok, arith,
}
use crabby_proxy.Text.{codes}
use crabby_proxy.Text.Split.Pieces.{Lacks}
use crabby_proxy.Text.Split.Words.{IsPrintable}
use crabby_proxy.Net.{Stream, plain}
use crabby_proxy.Net.Read.Delivery.{delivered, NoFail}
use crabby_proxy.Net.Read.Steps.{Delivers, Moves-trans, write_step}
use crabby_proxy.Stream.Join.{IsCalm, turns}
use crabby_proxy.Utils.{http_connect_response, send_http_connect_response}
use crabby_proxy.Proxy.Protocol.{http}
use crabby_proxy.Proxy.Target.{parse_target_by_protocol}
use crabby_proxy.Proxy.Target.Text.Connect.{connect_line, parse_http_target_from_stream-connect}
use crabby_proxy.Proxy.Target.Text.Request.{TargetRead-Moves}
use crabby_proxy.Proxy.Client.{Connector, async_handle_client}
use crabby_proxy.Proxy.Client.Replies.{send_success_response}
use crabby_proxy.Proxy.Client.Redetect.{redetect_connect}
use crabby_proxy.Proxy.Client.Serving.{address, establish-connected, async_handle_client-establish}
use crabby_proxy.Proxy.Client.Tunnelled.{Tunnelled, Moves-Tunnelled}

-- A back part of `post` goes through the tunnel.
pub record TunnelledBehind (connect : Connector) (schedule : List Bool) (s target : Stream)
    (post : List ℕ) : Type 0 where
  pub dropped : List ℕ
  pub rest : List ℕ
  pub behind : post ≡ dropped ++ rest
  pub tunnelled :
      Tunnelled
        (async_handle_client connect schedule s).1
        (target.sent ++ rest)
        ((s.sent ++ http_connect_response) ++ delivered target)
        (length rest % 2 ^ 64)
        (length (delivered target) % 2 ^ 64)

not_longer :
    (post dropped rest : List ℕ) (n : ℕ)
    → post ≡ dropped ++ rest
    → length post < n
    → length rest < n
not_longer post dropped rest n e h =
    omega (arith, ap (λ xs. length xs) e, length-append dropped rest, h)

-- An HTTP client over plain TCP whose first four bytes have arrived and whose request line
-- "CONNECT host:port HTTP/1.1" names, in printable ASCII, a host that `TcpStream::connect` reaches within
-- 10 seconds, and that, like this host, closes without a failure, gets the reply 200 and then all the bytes
-- that the host sends; the host gets a back part of what stands behind the request line. Both are shut, and
-- the result is the two counts, if each relay has more turns than bytes can come to it.
pub async_handle_client-connect :
    (connect : Connector) (schedule : List Bool) (s target : Stream) (bs hs post : List ℕ)
    (h port ms : ℕ)
    → s.kind ≡ plain
    → s.ready ≡ codes "CONN" ++ bs
    → NoFail s.incoming
    → IsPrintable (h ∷ hs)
    → Lacks b':' (h ∷ hs)
    → port < 65536
    → Delivers s (connect_line (h ∷ hs) port ++ 10 ∷ post)
    → connect (address (h ∷ hs) port) ≡ (ms, ok target)
    → ms < 10000
    → IsCalm target
    → length post < turns true schedule
    → length (delivered target) < turns false schedule
    → TunnelledBehind connect schedule s target post
unfolding send_success_response send_http_connect_response parse_target_by_protocol
async_handle_client-connect connect schedule s target bs hs post h port ms k r n p l small d c early
      calm up down =
    let (t, e1, m1) = redetect_connect s bs _ k r d in
    let (u, e2, x) =
      parse_http_target_from_stream-connect t h hs port post m1.delivers.idle (m1.calm n) p l small
        m1.delivers.all in
    let reads = TargetRead-Moves t u _ post m1.delivers x in
    let (v, e3, m3) = write_step u http_connect_response x.rest reads.delivers in
    let m = Moves-trans s u v _ _ _ _ (Moves-trans s t u _ _ _ _ m1 reads) m3 in
    let served =
      async_handle_client-establish connect schedule s t u v target http e1
        (establish-connected connect ms http t u target (h ∷ hs) port e2 c early) e3 in
    record {
      dropped = x.dropped;
      rest = x.rest;
      behind = x.behind;
      tunnelled = rw served (
          Moves-Tunnelled schedule s v target x.rest _ n m calm
            (not_longer post x.dropped x.rest _ x.behind up) down);
    }
