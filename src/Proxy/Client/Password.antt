-- ===== src/Proxy/Client/Password.antt =====
-- proxy/listener.rs, `handle_client`: a SOCKS5 client with a password, from its first byte to its end.
use crabby_proxy.Prelude.{
  ℕ, ◌<◌, ◌≡◌, ◌≢◌, refl, ap, ◌∙◌, Bool, true, false, Option, none, some, List, [], ◌∷◌, ◌++◌,
  length, contains, if◌then◌else◌, append_assoc, arith,
}
use crabby_proxy.Text.{codes, starts_with}
use crabby_proxy.Text.Utf8.{from_utf8}
use crabby_proxy.App.{AppState}
use crabby_proxy.Net.{Stream, plain, IoError}
use crabby_proxy.Net.Io.{done, failed, continue}
use crabby_proxy.Net.Common.{invalid}
use crabby_proxy.Net.Read.Delivery.{NoFail, pauses}
use crabby_proxy.Net.Read.Soon.{timed_peek}
use crabby_proxy.Net.Read.Steps.{Delivers, Moves, Moves-trans}
use crabby_proxy.Utils.{socks5_response}
use crabby_proxy.Proxy.Protocol.{socks5}
use crabby_proxy.Proxy.Detect.{
  detect_client_protocol, detect_protocol, detected, is_http_method, zero_filled,
}
use crabby_proxy.Proxy.Auth.{authenticate_by_protocol}
use crabby_proxy.Proxy.Auth.Credentials.{message, validate_credentials}
use crabby_proxy.Proxy.Auth.Socks.{authenticate_socks5}
use crabby_proxy.Proxy.Auth.Socks.Outcomes.{verdict, status_byte, authenticate_socks5-request}
use crabby_proxy.Proxy.Client.{
  Connector, ClientError, Connection, auth_failed, served, handle_client, after_detection,
  admit_upgraded, upgraded, admit, after_auth, redetect, redetected,
}
use crabby_proxy.Proxy.Client.Faults.{refuses-redetect}
use crabby_proxy.Proxy.Client.Replies.{handshake}

-- Both detections of a client whose first byte is 5, which arrives in time.
redetect_soon :
    (s : Stream) (bs : List ℕ)
    → s.kind ≡ plain
    → NoFail s.incoming
    → pauses s.incoming < 5000
    → Delivers s (5 ∷ bs)
    → (t : Stream) × (redetect s ≡ (socks5, t)) × Moves s t (5 ∷ bs) []
unfolding redetect redetected detect_protocol is_http_method starts_with zero_filled
redetect_soon s bs k c h d =
    let (more, t, e, e', m) = timed_peek {F = ClientError} 5000 4 s 5 bs k c h d in
    (t, ap (λ r. (redetected r.0, r.1)) e, m)

detect_soon :
    (s : Stream) (bs : List ℕ)
    → s.kind ≡ plain
    → NoFail s.incoming
    → pauses s.incoming < 5000
    → Delivers s (5 ∷ bs)
    → (t : Stream) × (detect_client_protocol s ≡ (done socks5, t)) × Moves s t (5 ∷ bs) []
unfolding detect_client_protocol detected detect_protocol is_http_method starts_with zero_filled
detect_soon s bs k c h d =
    let (more, t, e, e', m) = timed_peek {F = IoError} 5000 4 s 5 bs k c h d in
    (t, ap (λ r. continue r.0 detected r.1) e', m)

handle_client-after_auth :
    (decode : List ℕ → Option (List ℕ)) (connect : Connector) (schedule : List Bool)
    (state : AppState) (s t u : Stream) (v : Bool)
    → state.require_creds ≡ true
    → detect_client_protocol s ≡ (done socks5, t)
    → authenticate_socks5 state t ≡ (verdict v, u)
    → handle_client decode connect schedule state s ≡ after_auth connect schedule (verdict v, u)
unfolding handle_client after_detection admit_upgraded upgraded admit authenticate_by_protocol
handle_client-after_auth decode connect schedule state s t u v c e a = rw e (rw a (rw c refl))

-- A SOCKS5 client's whole dialogue: its greeting, its name and password, and a CONNECT request.
abbrev pub socks5_dialogue : List ℕ → List ℕ → List ℕ → List ℕ → List ℕ
socks5_dialogue methods user pass request =
    5 ∷ length methods ∷ methods ++ (1 ∷ length user ∷ user ++ (length pass ∷ pass ++ request))

-- What the client is told, and how its connection ends; it has no target.
pub record Unserved (valid : Bool) (s : Stream) (c : Connection) : Type 0 where
  pub target : c.target ≡ none
  pub ending : c.ending ≡ (
      if valid
      then served (failed (invalid (codes "Invalid SOCKS5 request"), handshake))
      else auth_failed (message (codes "SOCKS5 authentication failed")))
  pub sent :
      c.client.sent
      ≡ s.sent
        ++ 5 ∷ 2 ∷ 1 ∷ status_byte valid ∷ (if valid then 5 ∷ 0 ∷ socks5_response false else [])

after_auth-Unserved :
    (connect : Connector) (schedule : List Bool) (v : Bool) (s u : Stream) (rest : List ℕ)
    (x a b c : ℕ)
    → u.kind ≡ plain
    → NoFail u.incoming
    → pauses u.incoming < 5000
    → Moves s u (5 ∷ 1 ∷ 0 ∷ x ∷ a ∷ b ∷ c ∷ rest) (5 ∷ 2 ∷ 1 ∷ status_byte v ∷ [])
    → x ≢ 5
    → Unserved v s (after_auth connect schedule (verdict v, u))
unfolding after_auth
after_auth-Unserved connect schedule true s u rest x a b c k calm h m n =
    let (w, e, m') = redetect_soon u _ k calm h m.delivers in
    let r = refuses-redetect connect schedule u w rest x a b c e m' n in
    record {
      target = r.target;
      ending = r.ending;
      sent =
          r.sent
          ∙ ap (λ xs. xs ++ 5 ∷ 0 ∷ socks5_response false) m.wrote
          ∙ append_assoc s.sent (5 ∷ 2 ∷ 1 ∷ 0 ∷ []) (5 ∷ 0 ∷ socks5_response false);
    }
after_auth-Unserved connect schedule false s u rest x a b c k calm h m n = record {
  target = refl;
  ending = refl;
  sent = m.wrote;
}

-- With credentials required, `handle_client` connects no SOCKS5 client with a password to a target. Take a
-- client over plain TCP whose bytes come without a failure and within 5000 milliseconds, and that
-- takes what is written: a greeting that offers the method 2, a name and a password in UTF-8, and a CONNECT
-- request. With wrong credentials the authentication fails; with the right ones it succeeds, and then the
-- proxy answers the request as if it were a second greeting, and ends with "Invalid SOCKS5 request" and
-- the reply for a failure.
pub handle_client-Unserved :
    (decode : List ℕ → Option (List ℕ)) (connect : Connector) (schedule : List Bool)
    (state : AppState) (s : Stream) (methods user pass username password rest : List ℕ)
    (x a b c : ℕ)
    → state.require_creds ≡ true
    → s.kind ≡ plain
    → NoFail s.incoming
    → pauses s.incoming < 5000
    → contains methods 2 ≡ true
    → from_utf8 user ≡ some username
    → from_utf8 pass ≡ some password
    → x ≢ 5
    → Delivers s (socks5_dialogue methods user pass (5 ∷ 1 ∷ 0 ∷ x ∷ a ∷ b ∷ c ∷ rest))
    → Unserved
        (validate_credentials username password state)
        s
        (handle_client decode connect schedule state s)
handle_client-Unserved decode connect schedule state s methods user pass username password rest x a
      b c required k calm h o eu ep n d =
    let v : Bool = validate_credentials username password state in
    let request : List ℕ = 5 ∷ 1 ∷ 0 ∷ x ∷ a ∷ b ∷ c ∷ rest in
    let (t, e1, m1) = detect_soon s _ k calm h d in
    let (u, e2, m2) =
      authenticate_socks5-request state t methods user pass username password request required o
        m1.delivers eu ep in
    let m = Moves-trans s t u _ _ _ _ m1 m2 in
    rw (handle_client-after_auth decode connect schedule state s t u v required e1 e2) (
      after_auth-Unserved connect schedule v s u rest x a b c (m.kind ∙ k) (m.calm calm)
        (omega (arith, m.sooner, h)) m n)
