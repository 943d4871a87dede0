-- ===== src/Proxy/Client.antt =====
-- proxy/listener.rs, `handle_client`: a connection from its first byte to its end. The parts that
-- the source does not hold are parameters: the decoder of Base64, the connections that the
-- network makes, and the order in which the two relays of a tunnel run.
pub mod Replies
pub mod Gate
pub mod Redetect
pub mod Faults
pub mod Password
pub mod Serving
pub mod Tunnelled
pub mod Connect
pub mod Admitted
pub mod Whole
pub mod Header
pub mod Tls
use crabby_proxy.Prelude.{
  ℕ, ◌+◌, Bool, true, false, not, Option, none, some, List, [], ◌∷◌, ◌++◌, ltb, if◌then◌else◌,
  Result, ok, err, map_err,
}
use crabby_proxy.Text.{codes}
use crabby_proxy.Text.Decimal.{u16_to_string}
use crabby_proxy.App.{AppState}
use crabby_proxy.Net.{IoError, ErrorKind, timed_out, Stream}
use crabby_proxy.Net.Io.{
  Io, Outcome, done, failed, elapsed, pure, raise, lift, with_err, attempt, timeout, ◌>>=◌, ◌>>◌,
}
use crabby_proxy.Net.Common.{peek_or_read}
use crabby_proxy.Stream.{Tunnel, bidirectional, try_join, joined}
use crabby_proxy.Proxy.Protocol.{
  ProxyProtocol, ProxyTarget, tcp, http, https, socks4, socks5, protocol_eq,
}
use crabby_proxy.Proxy.Detect.{detect_protocol, detect_client_protocol, zero_filled}
use crabby_proxy.Proxy.Target.{parse_target_by_protocol}
use crabby_proxy.Proxy.Auth.{authenticate_by_protocol}
use crabby_proxy.Proxy.Auth.Credentials.{AuthError}
use Replies.{
  ErrorType, handshake, connection, response, tunnel, send_error_response, send_success_response,
}

-- `TcpStream::connect`: the milliseconds that it takes for an address, and what comes of it.
abbrev pub Connector : Type 0
Connector = List ℕ → ℕ × Result Stream IoError

abbrev pub ClientError : Type 0
ClientError = IoError × ErrorType

-- The answer of the timed peek: any failure leaves TCP.
redetected : Outcome ClientError (Option (Result (List ℕ) IoError)) → ProxyProtocol
redetected (done (some (ok bs))) = detect_protocol (zero_filled 4 bs)
redetected _ = tcp

-- The detection with which `async_handle_client` begins; a TLS stream loses what it reads here.
unfoldable pub redetect : Stream → ProxyProtocol × Stream
unfolding redetected
redetect s = let (r, s') = timeout 5000 (peek_or_read 4) s in (redetected r, s')

connected : ℕ × Result Stream IoError → Result Stream ClientError
connected (ms, r) =
    if ltb ms 10000
    then map_err (λ e. (e, connection)) r
    else err (record { kind = timed_out; message = codes "Connection timeout" }, ErrorType.timeout)

-- `async_handle_client` behind the detection: the target and its stream.
unfoldable pub establish : Connector → ProxyProtocol → Io ClientError Stream
unfolding connected
establish connect protocol = do
  target ← with_err (λ e. (e, handshake)) (parse_target_by_protocol protocol)
  target_stream ← lift (connected (connect (target.host ++ b':' ∷ u16_to_string target.port)))
  pure target_stream

-- A client's connection with the stream to its target, if there was one, and how it ended.
-- `elapsed` means that the schedule of the tunnel ended first.
pub record Handled : Type 0 where
  pub client : Stream
  pub target : Option Stream
  pub result : Outcome ClientError (ℕ × ℕ)

tunnel_result : Option (Outcome IoError (ℕ × ℕ)) → Outcome ClientError (ℕ × ℕ)
tunnel_result none = elapsed
tunnel_result (some (done counts)) = done counts
tunnel_result (some (failed e)) = failed (e, tunnel)
tunnel_result (some elapsed) = elapsed

-- The two halves of a stream, one from each relay.
abbrev pub rejoin : Stream → Stream → Stream
rejoin reader writer = record reader {
  sent = writer.sent;
  fates = writer.fates;
  is_shut = writer.is_shut;
}

unfoldable pub run_tunnel : List Bool → Stream → Stream → Handled
unfolding tunnel_result
run_tunnel schedule client target =
    let t = try_join schedule (bidirectional client target) in
    record {
      client = rejoin t.first.source t.second.sink;
      target = some (rejoin t.second.source t.first.sink);
      result = tunnel_result (joined t.first.status t.second.status);
    }

-- The success reply was sent, or the stream to the target is dropped again.
replied : List Bool → Stream → Outcome ClientError (Unit {0}) × Stream → Handled
unfolding run_tunnel
replied schedule target (done tt, client) = run_tunnel schedule client target
replied schedule target (failed e, client) = record {
  client = client;
  target = some target;
  result = failed e;
}
replied schedule target (elapsed, client) = record {
  client = client;
  target = some target;
  result = elapsed;
}

-- With the stream to the target, or without: the reply and the tunnel.
established : List Bool → ProxyProtocol → Outcome ClientError Stream × Stream → Handled
unfolding replied
established schedule protocol (done target, client) =
    replied schedule target (with_err (λ e. (e, response)) (send_success_response protocol) client)
established schedule protocol (failed e, client) = record {
  client = client;
  target = none;
  result = failed e;
}
established schedule protocol (elapsed, client) = record {
  client = client;
  target = none;
  result = elapsed;
}

-- The protocol of the second detection, which the caller's error reply goes by, and the rest.
unfoldable pub async_handle_client : Connector → List Bool → Stream → ProxyProtocol × Handled
unfolding established
async_handle_client connect schedule client =
    let (protocol, client') = redetect client in
    (protocol, established schedule protocol (establish connect protocol client'))

-- How `handle_client` ends: it gives up at one of its early returns, or serves the client.
pub data Ending : Type 0 where
  undetected : IoError → Ending
  tls_failed : IoError → Ending
  tls_missing : Ending
  auth_required : Ending
  auth_failed : AuthError → Ending
  served : Outcome ClientError (ℕ × ℕ) → Ending

pub record Connection : Type 0 where
  pub client : Stream
  pub target : Option Stream
  pub ending : Ending

abbrev given_up : Stream → Ending → Connection
given_up client ending = record { client = client; target = none; ending = ending }

-- The error reply; whether it gets through is not looked at.
answer_error : ProxyProtocol → Handled → Stream
answer_error protocol h = elim h.result [
  | failed (e, error_type) ↦ elim error_type [
    | tunnel ↦ h.client
    | other ↦ (send_error_response protocol other h.client).1
  ]
  | _ ↦ h.client
]

unfoldable pub serve : Connector → List Bool → Stream → Connection
unfolding answer_error
serve connect schedule client =
    let (protocol, h) = async_handle_client connect schedule client in
    record { client = answer_error protocol h; target = h.target; ending = served h.result }

after_auth : Connector → List Bool → Outcome AuthError Bool × Stream → Connection
after_auth connect schedule (done true, client) = serve connect schedule client
after_auth connect schedule (done false, client) = given_up client auth_required
after_auth connect schedule (failed e, client) = given_up client (auth_failed e)
after_auth connect schedule (elapsed, client) = given_up client auth_required

-- From the authentication on.
unfoldable pub admit :
    (List ℕ → Option (List ℕ))
    → Connector
    → List Bool
    → AppState
    → ProxyProtocol
    → Stream
    → Connection
unfolding after_auth
admit decode connect schedule state protocol client =
    if state.require_creds
    then after_auth connect schedule (authenticate_by_protocol decode protocol state client)
    else serve connect schedule client

-- The TLS handshake of a client that opens with one.
pub upgraded : AppState → ProxyProtocol → Stream → Result Stream Ending
upgraded state https client = elim state.tls_acceptor [
  | some accept ↦ map_err tls_failed (accept client)
  | none ↦ err tls_missing
]
upgraded state _ client = ok client

admit_upgraded :
    (List ℕ → Option (List ℕ))
    → Connector
    → List Bool
    → AppState
    → ProxyProtocol
    → Stream
    → Result Stream Ending
    → Connection
admit_upgraded decode connect schedule state protocol client (ok stream) =
    admit decode connect schedule state protocol stream
admit_upgraded decode connect schedule state protocol client (err ending) = given_up client ending

after_detection :
    (List ℕ → Option (List ℕ))
    → Connector
    → List Bool
    → AppState
    → Outcome IoError ProxyProtocol × Stream
    → Connection
unfolding admit_upgraded upgraded
after_detection decode connect schedule state (done protocol, client) =
    admit_upgraded decode connect schedule state protocol client (upgraded state protocol client)
after_detection decode connect schedule state (failed e, client) = given_up client (undetected e)
after_detection decode connect schedule state (elapsed, client) = given_up client auth_required

unfoldable pub handle_client :
    (List ℕ → Option (List ℕ)) → Connector → List Bool → AppState → Stream → Connection
unfolding after_detection
handle_client decode connect schedule state client =
    after_detection decode connect schedule state (detect_client_protocol client)
