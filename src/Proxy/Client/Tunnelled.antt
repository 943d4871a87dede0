-- ===== src/Proxy/Client/Tunnelled.antt =====
-- proxy/listener.rs, `async_handle_client`: what goes through the tunnel of a client.
use crabby_proxy.Prelude.{
  ℕ, ◌%◌, ◌^◌, ◌<◌, ◌≡◌, refl, sym, ap, subst, ◌∙◌, Bool, true, false, some, List, ◌∷◌, ◌++◌,
  length, ok,
}
use crabby_proxy.Net.{Stream, plain}
use crabby_proxy.Net.Io.{done}
use crabby_proxy.Net.Read.Delivery.{delivered, NoFail}
use crabby_proxy.Net.Read.Steps.{Delivers, Moves}
use crabby_proxy.Stream.{finished, joined, Tunnel, try_join, bidirectional}
use crabby_proxy.Stream.Join.{IsCalm, turns, try_join-Exchanged}
use crabby_proxy.Utils.{socks5_response}
use crabby_proxy.Proxy.Target.Binary.RoundTrip.{Destination, address_type, address_then, StandsFor}
use crabby_proxy.Proxy.Client.{
  Connector, Handled, tunnel_result, run_tunnel, rejoin, async_handle_client,
}
use crabby_proxy.Proxy.Client.Serving.{address, async_handle_client-socks5}

-- A tunnel that ran to its end, with what was written to the target and to the client, and the counts
-- of the bytes that went each way.
pub record Tunnelled (h : Handled) (to_target to_client : List ℕ) (up down : ℕ) : Type 0 where
  pub target : Stream
  pub reached : h.target ≡ some target
  pub target_sent : target.sent ≡ to_target
  pub target_shut : target.is_shut ≡ true
  pub client_sent : h.client.sent ≡ to_client
  pub client_shut : h.client.is_shut ≡ true
  pub counted : h.result ≡ done (up, down)

run_tunnel-Tunnelled :
    (schedule : List Bool) (client target : Stream)
    → IsCalm client
    → IsCalm target
    → length (delivered client) < turns true schedule
    → length (delivered target) < turns false schedule
    → Tunnelled
        (run_tunnel schedule client target)
        (target.sent ++ delivered client)
        (client.sent ++ delivered target)
        (length (delivered client) % 2 ^ 64)
        (length (delivered target) % 2 ^ 64)
unfolding run_tunnel tunnel_result
run_tunnel-Tunnelled schedule client target c d up down =
    let t : Tunnel = try_join schedule (bidirectional client target) in
    let e = try_join-Exchanged schedule client target c d up down in
    record {
      target = rejoin t.second.source t.first.sink;
      reached = refl;
      target_sent = e.first.wrote;
      target_shut = e.first.is_shut;
      client_sent = e.second.wrote;
      client_shut = e.second.is_shut;
      counted =
          ap (λ s. tunnel_result (joined s t.second.status)) e.first.counted
          ∙ ap (λ s. tunnel_result (joined (finished (length (delivered client) % 2 ^ 64)) s))
              e.second.counted;
    }

-- A client whose request was read up to `rest` and that was told `out`.
pub Moves-Tunnelled :
    (schedule : List Bool) (s t target : Stream) (rest out : List ℕ)
    → NoFail s.incoming
    → Moves s t rest out
    → IsCalm target
    → length rest < turns true schedule
    → length (delivered target) < turns false schedule
    → Tunnelled
        (run_tunnel schedule t target)
        (target.sent ++ rest)
        ((s.sent ++ out) ++ delivered target)
        (length rest % 2 ^ 64)
        (length (delivered target) % 2 ^ 64)
Moves-Tunnelled schedule s t target rest out n m calm up down =
    let end : IsCalm t = record {
      idle = m.delivers.idle;
      calm = m.calm n;
      writable = m.delivers.writable;
    } in
    let through =
      run_tunnel-Tunnelled schedule t target end calm
        (subst (λ xs. length xs < turns true schedule) (sym m.delivers.all) up) down in
    record {
      target = through.target;
      reached = through.reached;
      target_sent = through.target_sent ∙ ap (λ xs. target.sent ++ xs) m.delivers.all;
      target_shut = through.target_shut;
      client_sent = through.client_sent ∙ ap (λ xs. xs ++ delivered target) m.wrote;
      client_shut = through.client_shut;
      counted =
          through.counted
          ∙ ap (λ xs. done (length xs % 2 ^ 64, length (delivered target) % 2 ^ 64)) m.delivers.all;
    }

-- A SOCKS5 client over plain TCP whose first byte has arrived with more behind it, whose greeting and
-- CONNECT request name a host that `TcpStream::connect` reaches within 10 seconds, and that, like this
-- host, closes without a failure, gets the method 0, success, and then all the bytes that the host sends;
-- the host gets all the bytes behind the request. Both are shut, and the result is the two counts, if each
-- relay has more turns than it has bytes to hand on.
pub async_handle_client-Tunnelled :
    (connect : Connector) (schedule : List Bool) (s target : Stream) (bs methods host rest : List ℕ)
    (d : Destination) (port ms : ℕ)
    → s.kind ≡ plain
    → s.ready ≡ 5 ∷ bs
    → NoFail s.incoming
    → StandsFor d host
    → Delivers s
        (5 ∷ length methods ∷ methods ++ 5 ∷ 1 ∷ 0 ∷ address_type d ∷ address_then d port rest)
    → connect (address host port) ≡ (ms, ok target)
    → ms < 10000
    → IsCalm target
    → length rest < turns true schedule
    → length (delivered target) < turns false schedule
    → Tunnelled
        (async_handle_client connect schedule s).1
        (target.sent ++ rest)
        ((s.sent ++ 5 ∷ 0 ∷ socks5_response true) ++ delivered target)
        (length rest % 2 ^ 64)
        (length (delivered target) % 2 ^ 64)
async_handle_client-Tunnelled connect schedule s target bs methods host rest d port ms k r n w h c
      early calm up down =
    let (t, e, m) =
      async_handle_client-socks5 connect schedule s target bs methods host rest d port ms k r w h c
        early in
    rw e (Moves-Tunnelled schedule s t target rest _ n m calm up down)
