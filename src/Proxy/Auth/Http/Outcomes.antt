-- ===== src/Proxy/Auth/Http/Outcomes.antt =====
-- proxy/listener.rs, `authenticate_http_or_https`: what a client over plain TCP is told.
use crabby_proxy.Prelude.{
  ℕ, ◌≡◌, refl, ◌∙◌, Bool, true, false, Option, List, [], ◌∷◌, take, if◌then◌else◌,
}
use crabby_proxy.Text.{codes}
use crabby_proxy.Text.Utf8.{from_utf8_lossy}
use crabby_proxy.App.{AppState}
use crabby_proxy.Net.{Stream, plain}
use crabby_proxy.Net.Io.{Outcome, done, failed, attempt, pure, raise, ◌>>◌}
use crabby_proxy.Net.Read.Peek.{peek_step}
use crabby_proxy.Net.Read.Steps.{Delivers, Moves, Moves-trans, Moves-refl, write_step}
use crabby_proxy.Net.Common.{peek_or_read}
use crabby_proxy.Proxy.Auth.Credentials.{AuthError, message}
use crabby_proxy.Proxy.Auth.Http.{
  authenticate_http_or_https, is_authorized, auth_required_response,
  send_http_auth_required_response,
}

abbrev pub http_verdict : Bool → Outcome AuthError Bool
http_verdict true = done true
http_verdict false = failed (message (codes "HTTP authentication required"))

abbrev pub http_answer : Bool → List ℕ
http_answer true = []
http_answer false = auth_required_response

answer_step :
    (v : Bool) (s : Stream) (all : List ℕ)
    → Delivers s all
    → (t : Stream) × ((if v
            then pure {E = AuthError} true
            else (attempt {F = AuthError} send_http_auth_required_response
                >> raise (message (codes "HTTP authentication required"))))
          s
        ≡ (http_verdict v, t))
      × Moves s t all (http_answer v)
unfolding send_http_auth_required_response
answer_step true s all d = (s, refl, Moves-refl s all d)
answer_step false s all d =
    let (t, e, m) = write_step s auth_required_response all d in (t, rw e refl, m)

chunk_step :
    (decode : List ℕ → Option (List ℕ)) (state : AppState) (s t : Stream) (b : ℕ) (bs : List ℕ)
    → peek_or_read 4096 s ≡ (done (b ∷ bs), t)
    → authenticate_http_or_https decode state s
      ≡ (if is_authorized decode state (from_utf8_lossy (b ∷ bs))
            then pure {E = AuthError} true
            else (attempt {F = AuthError} send_http_auth_required_response
                >> raise (message (codes "HTTP authentication required"))))
          t
unfolding authenticate_http_or_https
chunk_step decode state s t b bs e = rw e refl

-- A client over plain TCP of which something has arrived is let in exactly if the first 4096 bytes of what has
-- arrived hold a valid header. If not, it is sent the reply 407. None of its bytes are taken.
pub authenticate_http_or_https-answer :
    (decode : List ℕ → Option (List ℕ)) (state : AppState) (s : Stream) (b : ℕ) (bs all : List ℕ)
    → s.kind ≡ plain
    → s.ready ≡ b ∷ bs
    → Delivers s all
    → (t : Stream) × (authenticate_http_or_https decode state s
        ≡ (http_verdict (is_authorized decode state (from_utf8_lossy (take 4096 (b ∷ bs)))), t))
      × Moves s t all
          (http_answer (is_authorized decode state (from_utf8_lossy (take 4096 (b ∷ bs)))))
authenticate_http_or_https-answer decode state s b bs all k r d =
    let (t, e, m) = peek_step 4096 s b bs all k r d in
    let v : Bool = is_authorized decode state (from_utf8_lossy (take 4096 (b ∷ bs))) in
    let (u, f, n) = answer_step v t all m.delivers in
    (u, chunk_step decode state s t b (take 4095 bs) e ∙ f, Moves-trans s t u _ _ _ _ m n)
