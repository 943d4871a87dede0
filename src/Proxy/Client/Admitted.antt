-- ===== src/Proxy/Client/Admitted.antt =====
-- proxy/listener.rs, `handle_client`: a client that is let in is served as it came.
use crabby_proxy.Prelude.{
  ℕ, ◌≡◌, refl, ap, ◌∙◌, Bool, true, false, Option, some, List, ◌∷◌, take, if◌then◌else◌, ok,
}
use crabby_proxy.Text.Utf8.{from_utf8_lossy}
use crabby_proxy.App.{AppState}
use crabby_proxy.Net.{Stream, plain, IoError}
use crabby_proxy.Net.Io.{done, continue}
use crabby_proxy.Net.Read.Peek.{peek_or_read_plain}
use crabby_proxy.Net.Read.Settled.{IsSettled, peek-IsSettled, timeout-IsSettled}
use crabby_proxy.Proxy.Protocol.{ProxyProtocol, http}
use crabby_proxy.Proxy.Detect.{detect_client_protocol, detect_protocol, detected, zero_filled}
use crabby_proxy.Proxy.Auth.{authenticate_by_protocol}
use crabby_proxy.Proxy.Auth.Http.{authenticate_http_or_https, is_authorized}
use crabby_proxy.Proxy.Client.{
  Connector, Connection, Handled, served, handle_client, after_detection, admit_upgraded, upgraded,
  admit, after_auth, serve, answer_error, async_handle_client,
}
use crabby_proxy.Proxy.Client.Tunnelled.{Tunnelled}

-- The detection takes nothing from a stream that is settled.
pub detect-IsSettled :
    (s : Stream) (b : ℕ) (bs : List ℕ)
    → IsSettled s.incoming
    → s.ready ≡ b ∷ bs
    → detect_client_protocol s ≡ (done (detect_protocol (zero_filled 4 (take 4 (b ∷ bs)))), s)
unfolding detect_client_protocol detected
detect-IsSettled s b bs h e =
    ap (λ r. continue r.0 detected r.1) (timeout-IsSettled {F = IoError} 5000 4 s b bs h e)

if-same {ℓ} : {A : Type ℓ} (b : Bool) (x : A) → (if b then x else x) ≡ x
if-same true x = refl
if-same false x = refl

module _ (decode : List ℕ → Option (List ℕ)) (connect : Connector) (schedule : List Bool)
    (state : AppState) (s : Stream) where
  -- Nobody asks for credentials.
  pub open_to_all :
      (p : ProxyProtocol)
      → detect_client_protocol s ≡ (done p, s)
      → upgraded state p s ≡ ok s
      → state.require_creds ≡ false
      → handle_client decode connect schedule state s ≡ serve connect schedule s
  unfolding handle_client after_detection admit_upgraded admit
  open_to_all p d u c = rw d (rw u (rw c refl))

  pub authorized :
      (b : ℕ) (bs : List ℕ)
      → s.kind ≡ plain
      → IsSettled s.incoming
      → s.ready ≡ b ∷ bs
      → is_authorized decode state (from_utf8_lossy (take 4096 (b ∷ bs))) ≡ true
      → authenticate_http_or_https decode state s ≡ (done true, s)
  unfolding authenticate_http_or_https
  authorized b bs k h e a =
      rw (peek_or_read_plain 4096 s k ∙ peek-IsSettled 4096 s b bs h e) (rw a refl)

  pub let_in :
      detect_client_protocol s ≡ (done http, s)
      → authenticate_http_or_https decode state s ≡ (done true, s)
      → handle_client decode connect schedule state s ≡ serve connect schedule s
  unfolding handle_client after_detection admit_upgraded upgraded admit after_auth
      authenticate_by_protocol
  let_in d a = rw d (rw a (if-same state.require_creds (serve connect schedule s)))

-- A connection whose tunnel ran to its end, with what was written to the target and to the client, and
-- the counts of the bytes that went each way.
pub record ServedTunnel (c : Connection) (to_target to_client : List ℕ) (up down : ℕ) : Type 0 where
  pub target : Stream
  pub reached : c.target ≡ some target
  pub target_sent : target.sent ≡ to_target
  pub target_shut : target.is_shut ≡ true
  pub client_sent : c.client.sent ≡ to_client
  pub client_shut : c.client.is_shut ≡ true
  pub ended : c.ending ≡ served (done (up, down))

answer_error-done :
    (p : ProxyProtocol) (h : Handled) (counts : ℕ × ℕ)
    → h.result ≡ done counts
    → answer_error p h ≡ h.client
unfolding answer_error
answer_error-done p h counts e = rw e refl

-- A tunnel that ended without an error needs no reply.
pub serve-ServedTunnel :
    (connect : Connector) (schedule : List Bool) (s : Stream) (to_target to_client : List ℕ)
    (up down : ℕ)
    → Tunnelled (async_handle_client connect schedule s).1 to_target to_client up down
    → ServedTunnel (serve connect schedule s) to_target to_client up down
unfolding serve
serve-ServedTunnel connect schedule s to_target to_client up down t =
    let r : ProxyProtocol × Handled = async_handle_client connect schedule s in
    let same = answer_error-done r.0 r.1 (up, down) t.counted in
    record {
      target = t.target;
      reached = t.reached;
      target_sent = t.target_sent;
      target_shut = t.target_shut;
      client_sent = ap (λ c. c.sent) same ∙ t.client_sent;
      client_shut = ap (λ c. c.is_shut) same ∙ t.client_shut;
      ended = ap served t.counted;
    }
