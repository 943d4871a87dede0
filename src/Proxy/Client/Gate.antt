-- ===== src/Proxy/Client/Gate.antt =====
-- proxy/listener.rs, `handle_client`: with credentials required, no client gets past a failed
-- authentication.
use crabby_proxy.Prelude.{
  ℕ, ◌≡◌, refl, subst, Bool, true, false, Option, some, List, if◌then◌else◌, Result, ok, err,
}
use crabby_proxy.App.{AppState}
use crabby_proxy.Net.{Stream, IoError}
use crabby_proxy.Net.Io.{Outcome, done, failed, elapsed}
use crabby_proxy.Proxy.Protocol.{ProxyProtocol}
use crabby_proxy.Proxy.Detect.{detect_client_protocol}
use crabby_proxy.Proxy.Auth.{authenticate_by_protocol}
use crabby_proxy.Proxy.Auth.Credentials.{AuthError}
use crabby_proxy.Proxy.Client.{
  Connector, Ending, after_auth, admit, admit_upgraded, upgraded, after_detection, handle_client,
  serve,
}

after_auth_gate :
    (connect : Connector) (schedule : List Bool) (o : Outcome AuthError Bool × Stream) (t : Stream)
    → (after_auth connect schedule o).target ≡ some t
    → o.0 ≡ done true
unfolding after_auth
after_auth_gate connect schedule (done true, client) t e = refl
after_auth_gate connect schedule (done false, client) t e = cc
after_auth_gate connect schedule (failed x, client) t e = cc
after_auth_gate connect schedule (elapsed, client) t e = cc

-- The client's stream, after the detection and, for a TLS client, the handshake, passed the
-- authentication of the protocol that was detected.
pub record Authenticated (decode : List ℕ → Option (List ℕ)) (state : AppState)
    (detection : Outcome IoError ProxyProtocol × Stream) : Type 0 where
  pub protocol : ProxyProtocol
  pub stream : Stream
  pub detected : detection.0 ≡ done protocol
  pub handshaken : upgraded state protocol detection.1 ≡ ok stream
  pub passed : (authenticate_by_protocol decode protocol state stream).0 ≡ done true

admit_upgraded_gate :
    (decode : List ℕ → Option (List ℕ)) (connect : Connector) (schedule : List Bool)
    (state : AppState) (p : ProxyProtocol) (client : Stream) (r : Result Stream Ending) (t : Stream)
    → state.require_creds ≡ true
    → (admit_upgraded decode connect schedule state p client r).target ≡ some t
    → (s : Stream) × (r ≡ ok s) × ((authenticate_by_protocol decode p state s).0 ≡ done true)
unfolding admit_upgraded admit
admit_upgraded_gate decode connect schedule state p client (ok s) t c e =
    let o : Outcome AuthError Bool × Stream = authenticate_by_protocol decode p state s in
    (
      s,
      refl,
      after_auth_gate connect schedule o t (
          subst
            (λ b.
              (if b then after_auth connect schedule o else serve connect schedule s).target
              ≡ some t)
            c e),
    )
admit_upgraded_gate decode connect schedule state p client (err x) t c e = cc

after_detection_gate :
    (decode : List ℕ → Option (List ℕ)) (connect : Connector) (schedule : List Bool)
    (state : AppState) (d : Outcome IoError ProxyProtocol × Stream) (t : Stream)
    → state.require_creds ≡ true
    → (after_detection decode connect schedule state d).target ≡ some t
    → Authenticated decode state d
unfolding after_detection
after_detection_gate decode connect schedule state (done p, client) t c e =
    let (s, h, a) =
      admit_upgraded_gate decode connect schedule state p client (upgraded state p client) t c e in
    record { protocol = p; stream = s; detected = refl; handshaken = h; passed = a }
after_detection_gate decode connect schedule state (failed x, client) t c e = absurd (cc)
after_detection_gate decode connect schedule state (elapsed, client) t c e = absurd (cc)

-- With credentials required, `handle_client` connects a client to a target only after its stream has
-- passed the authentication of the protocol that was detected, on the stream as the detection and, for a
-- TLS client, the handshake left it.
pub target_needs_auth :
    (decode : List ℕ → Option (List ℕ)) (connect : Connector) (schedule : List Bool)
    (state : AppState) (client t : Stream)
    → state.require_creds ≡ true
    → (handle_client decode connect schedule state client).target ≡ some t
    → Authenticated decode state (detect_client_protocol client)
unfolding handle_client
target_needs_auth decode connect schedule state client t c e =
    after_detection_gate decode connect schedule state (detect_client_protocol client) t c e
