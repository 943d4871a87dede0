-- ===== src/Proxy/Client/Whole.antt =====
-- proxy/listener.rs, `handle_client`: clients that are served, from their first byte to their end.
use crabby_proxy.Prelude.{
  ℕ, ◌%◌, ◌^◌, ◌<◌, ◌≡◌, ◌⊎◌, inl, inr, refl, Bool, true, false, Option, List, ◌∷◌, ◌++◌, length,
  take, ok,
}
use crabby_proxy.Text.{codes, starts_with}
use crabby_proxy.Text.Utf8.{from_utf8_lossy}
use crabby_proxy.Text.Split.Pieces.{Lacks}
use crabby_proxy.Text.Split.Words.{IsPrintable}
use crabby_proxy.App.{AppState}
use crabby_proxy.Net.{Stream, plain}
use crabby_proxy.Net.Io.{done}
use crabby_proxy.Net.Read.Delivery.{delivered, NoFail}
use crabby_proxy.Net.Read.Steps.{Delivers}
use crabby_proxy.Net.Read.Settled.{IsSettled}
use crabby_proxy.Stream.Join.{IsCalm, turns}
use crabby_proxy.Utils.{http_connect_response, socks5_response}
use crabby_proxy.Proxy.Protocol.{http, socks5}
use crabby_proxy.Proxy.Detect.{detect_client_protocol, detect_protocol, is_http_method, zero_filled}
use crabby_proxy.Proxy.Auth.Http.{is_authorized}
use crabby_proxy.Proxy.Target.Binary.RoundTrip.{Destination, address_type, address_then, StandsFor}
use crabby_proxy.Proxy.Target.Text.Connect.{connect_line}
use crabby_proxy.Proxy.Client.{Connector, Connection, handle_client, serve, upgraded}
use crabby_proxy.Proxy.Client.Serving.{address}
use crabby_proxy.Proxy.Client.Tunnelled.{async_handle_client-Tunnelled}
use crabby_proxy.Proxy.Client.Connect.{async_handle_client-connect}
use crabby_proxy.Proxy.Client.Admitted.{
  ServedTunnel, serve-ServedTunnel, detect-IsSettled, open_to_all, authorized, let_in,
}

detect_connect :
    (s : Stream) (bs : List ℕ)
    → IsSettled s.incoming
    → s.ready ≡ codes "CONN" ++ bs
    → detect_client_protocol s ≡ (done http, s)
unfolding detect_protocol is_http_method starts_with zero_filled
detect_connect s bs h e = detect-IsSettled s b'C' (codes "ONN" ++ bs) h e

detect_socks5 :
    (s : Stream) (bs : List ℕ)
    → IsSettled s.incoming
    → s.ready ≡ 5 ∷ bs
    → detect_client_protocol s ≡ (done socks5, s)
unfolding detect_protocol is_http_method starts_with zero_filled
detect_socks5 s bs h e = detect-IsSettled s 5 bs h e

-- With no credentials required, `handle_client` serves a SOCKS5 client over plain TCP whose first byte has
-- arrived, with all that comes before the next pause, and whose greeting and CONNECT request name a host
-- that `TcpStream::connect` reaches within 10 seconds. If the client and this host close without a failure,
-- the client gets the method 0, success, and then all the bytes that the host sends; the host gets all the
-- bytes behind the request; both are shut, and the result is the two counts, if each relay has more turns
-- than it has bytes to hand on.
pub handle_client-socks5 :
    (decode : List ℕ → Option (List ℕ)) (connect : Connector) (schedule : List Bool)
    (state : AppState) (s target : Stream) (bs methods host rest : List ℕ) (d : Destination)
    (port ms : ℕ)
    → state.require_creds ≡ false
    → s.kind ≡ plain
    → s.ready ≡ 5 ∷ bs
    → IsSettled s.incoming
    → NoFail s.incoming
    → StandsFor d host
    → Delivers s
        (5 ∷ length methods ∷ methods ++ 5 ∷ 1 ∷ 0 ∷ address_type d ∷ address_then d port rest)
    → connect (address host port) ≡ (ms, ok target)
    → ms < 10000
    → IsCalm target
    → length rest < turns true schedule
    → length (delivered target) < turns false schedule
    → ServedTunnel
        (handle_client decode connect schedule state s)
        (target.sent ++ rest)
        ((s.sent ++ 5 ∷ 0 ∷ socks5_response true) ++ delivered target)
        (length rest % 2 ^ 64)
        (length (delivered target) % 2 ^ 64)
handle_client-socks5 decode connect schedule state s target bs methods host rest d port ms free k r
      settled n w h c early calm up down =
    let in_plain : upgraded state socks5 s ≡ ok s = unfold upgraded in refl in
    rw
      (open_to_all decode connect schedule state s socks5 (detect_socks5 s bs settled r) in_plain
        free)
      (serve-ServedTunnel connect schedule s _ _ _ _ (
        async_handle_client-Tunnelled connect schedule s target bs methods host rest d port ms k r n
          w h c early calm up down))

-- A back part of `post` goes through the tunnel.
pub record ServedBehind (c : Connection) (s target : Stream) (post : List ℕ) : Type 0 where
  pub dropped : List ℕ
  pub rest : List ℕ
  pub behind : post ≡ dropped ++ rest
  pub through :
      ServedTunnel c
        (target.sent ++ rest)
        ((s.sent ++ http_connect_response) ++ delivered target)
        (length rest % 2 ^ 64)
        (length (delivered target) % 2 ^ 64)

-- `handle_client` serves an HTTP client over plain TCP that no credentials are required of, or whose first
-- 4096 bytes that have arrived hold a valid header. At least four bytes have arrived, with all that comes
-- before the next pause, and the request line "CONNECT host:port HTTP/1.1" names, in printable ASCII, a host
-- that `TcpStream::connect` reaches within 10 seconds. If the client and this host close without a failure,
-- the client gets the reply 200 and then all the bytes that the host sends; the host gets a back part of what
-- stands behind the request line; both are shut, and the result is the two counts, if each relay has more
-- turns than bytes can come to it.
pub handle_client-connect :
    (decode : List ℕ → Option (List ℕ)) (connect : Connector) (schedule : List Bool)
    (state : AppState) (s target : Stream) (bs hs post : List ℕ) (h port ms : ℕ)
    → (state.require_creds ≡ false)
      ⊎ (is_authorized decode state (from_utf8_lossy (take 4096 (codes "CONN" ++ bs))) ≡ true)
    → s.kind ≡ plain
    → s.ready ≡ codes "CONN" ++ bs
    → IsSettled s.incoming
    → NoFail s.incoming
    → IsPrintable (h ∷ hs)
    → Lacks b':' (h ∷ hs)
    → port < 65536
    → Delivers s (connect_line (h ∷ hs) port ++ 10 ∷ post)
    → connect (address (h ∷ hs) port) ≡ (ms, ok target)
    → ms < 10000
    → IsCalm target
    → length post < turns true schedule
    → length (delivered target) < turns false schedule
    → ServedBehind (handle_client decode connect schedule state s) s target post
handle_client-connect decode connect schedule state s target bs hs post h port ms allowed k r
      settled n p l small d c early calm up down =
    let detection = detect_connect s bs settled r in
    let in_plain : upgraded state http s ≡ ok s = unfold upgraded in refl in
    let serves : handle_client decode connect schedule state s ≡ serve connect schedule s =
      elim allowed [
        | inl free ↦ open_to_all decode connect schedule state s http detection in_plain free
        | inr valid ↦
            let_in decode connect schedule state s detection (
              authorized decode connect schedule state s b'C' (codes "ONN" ++ bs) k settled r valid)
      ] in
    let t =
      async_handle_client-connect connect schedule s target bs hs post h port ms k r n p l small d c
        early calm up down in
    record {
      dropped = t.dropped;
      rest = t.rest;
      behind = t.behind;
      through = rw serves (serve-ServedTunnel connect schedule s _ _ _ _ t.tunnelled);
    }
