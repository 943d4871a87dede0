-- ===== src/Proxy/Client/Header.antt =====
-- proxy/listener.rs, `handle_client`: an HTTP client where credentials are required.
use crabby_proxy.Prelude.{
  ℕ, ◌≡◌, refl, ap, ◌∙◌, Bool, true, false, Option, none, List, ◌∷◌, ◌++◌, take,
}
use crabby_proxy.Text.{codes}
use crabby_proxy.Text.Utf8.{from_utf8_lossy}
use crabby_proxy.App.{AppState}
use crabby_proxy.Net.{Stream, plain}
use crabby_proxy.Net.Io.{done}
use crabby_proxy.Net.Read.Steps.{Delivers}
use crabby_proxy.Net.Read.Settled.{IsSettled}
use crabby_proxy.Proxy.Protocol.{http}
use crabby_proxy.Proxy.Detect.{detect_protocol, detect_client_protocol, zero_filled}
use crabby_proxy.Proxy.Auth.{authenticate_by_protocol}
use crabby_proxy.Proxy.Auth.Credentials.{message}
use crabby_proxy.Proxy.Auth.Http.{authenticate_http_or_https, is_authorized, auth_required_response}
use crabby_proxy.Proxy.Auth.Http.Outcomes.{
  http_verdict, http_answer, authenticate_http_or_https-answer,
}
use crabby_proxy.Proxy.Client.{
  Connector, Connection, auth_failed, handle_client, after_detection, admit_upgraded, upgraded,
  admit, after_auth, serve,
}
use crabby_proxy.Proxy.Client.Admitted.{detect-IsSettled, authorized, let_in}

-- The reply 407, and no target.
pub record Refused407 (s : Stream) (c : Connection) : Type 0 where
  pub target : c.target ≡ none
  pub ending : c.ending ≡ auth_failed (message (codes "HTTP authentication required"))
  pub sent : c.client.sent ≡ s.sent ++ auth_required_response

module _ (decode : List ℕ → Option (List ℕ)) (connect : Connector) (schedule : List Bool)
    (state : AppState) (s : Stream) where
  abbrev pub Gated : Bool → Type 0
  Gated true = handle_client decode connect schedule state s ≡ serve connect schedule s
  Gated false = Refused407 s (handle_client decode connect schedule state s)

  refused :
      (t : Stream)
      → detect_client_protocol s ≡ (done http, s)
      → state.require_creds ≡ true
      → authenticate_http_or_https decode state s ≡ (http_verdict false, t)
      → t.sent ≡ s.sent ++ auth_required_response
      → Gated false
  unfolding handle_client after_detection admit_upgraded upgraded admit after_auth
      authenticate_by_protocol
  refused t d c a w = rw d (rw a (rw c (record { target = refl; ending = refl; sent = w })))

  gate :
      (b : ℕ) (bs all : List ℕ) (v : Bool)
      → state.require_creds ≡ true
      → s.kind ≡ plain
      → IsSettled s.incoming
      → s.ready ≡ b ∷ bs
      → detect_client_protocol s ≡ (done http, s)
      → Delivers s all
      → is_authorized decode state (from_utf8_lossy (take 4096 (b ∷ bs))) ≡ v
      → Gated v
  gate b bs all true c k h e d i a =
      let_in decode connect schedule state s d
        (authorized decode connect schedule state s b bs k h e a)
  gate b bs all false c k h e d i a =
      let (t, answered, m) = authenticate_http_or_https-answer decode state s b bs all k e i in
      refused t d c (answered ∙ ap (λ x. (http_verdict x, t)) a)
        (m.wrote ∙ ap (λ x. s.sent ++ http_answer x) a)

-- With credentials required, take a client over plain TCP that takes what is written to it, and of which a
-- first byte has arrived with all that comes before the next pause, the detection finding HTTP in the first
-- four. If the first 4096 of these bytes hold a valid header, `handle_client` serves it with all its bytes
-- still to be read. If not, the client gets the reply 407, and it is connected to no target.
pub handle_client-Gated :
    (decode : List ℕ → Option (List ℕ)) (connect : Connector) (schedule : List Bool)
    (state : AppState) (s : Stream) (b : ℕ) (bs all : List ℕ)
    → state.require_creds ≡ true
    → s.kind ≡ plain
    → IsSettled s.incoming
    → s.ready ≡ b ∷ bs
    → detect_protocol (zero_filled 4 (take 4 (b ∷ bs))) ≡ http
    → Delivers s all
    → Gated decode connect schedule state s
        (is_authorized decode state (from_utf8_lossy (take 4096 (b ∷ bs))))
handle_client-Gated decode connect schedule state s b bs all c k h e p d =
    gate decode connect schedule state s b bs all _ c k h e
      (detect-IsSettled s b bs h e ∙ ap (λ q. (done q, s)) p) d refl
