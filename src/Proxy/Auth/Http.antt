-- ===== src/Proxy/Auth/Http.antt =====
-- proxy/listener.rs, `extract_proxy_auth_header`, `send_http_auth_required_response` and
-- `authenticate_http_or_https`.
pub mod Outcomes
pub mod Header
use crabby_proxy.Prelude.{
  ℕ, Bool, true, false, Option, none, some, List, [], ◌∷◌, ◌++◌, if◌then◌else◌, is_ok,
}
use crabby_proxy.Text.{codes, starts_with}
use crabby_proxy.Text.Utf8.{from_utf8_lossy}
use crabby_proxy.Text.Split.{lines, to_lowercase, trim, trim_start_matches}
use crabby_proxy.App.{AppState}
use crabby_proxy.Net.{IoError}
use crabby_proxy.Net.Io.{Io, pure, raise, with_err, attempt, ◌>>=◌, ◌>>◌}
use crabby_proxy.Net.Read.{write_all}
use crabby_proxy.Net.Common.{peek_or_read}
use crabby_proxy.Utils.{crlf}
use crabby_proxy.Proxy.Auth.Credentials.{AuthError, message, io, validate_auth_header}

unfoldable pub header_in : List (List ℕ) → Option (List ℕ)
header_in [] = none
header_in (line ∷ rest) =
    if starts_with (to_lowercase line) (codes "proxy-authorization:")
    then some (trim (trim_start_matches (codes "Proxy-Authorization:") line))
    else header_in rest

unfoldable pub extract_proxy_auth_header : List ℕ → Option (List ℕ)
unfolding header_in
extract_proxy_auth_header request_data = header_in (lines request_data)

unfoldable pub auth_required_response : List ℕ
auth_required_response =
    codes "HTTP/1.1 407 Proxy Authentication Required"
    ++ crlf
    ++ codes "Proxy-Authenticate: Basic realm=\"Proxy\""
    ++ crlf
    ++ codes "Content-Length: 0"
    ++ crlf
    ++ codes "Connection: close"
    ++ crlf
    ++ crlf

-- `flush` has nothing left to do on these streams.
unfoldable pub send_http_auth_required_response : Io IoError (Unit {0})
send_http_auth_required_response = write_all auth_required_response

-- Whether the request carries a header that names the credentials.
unfoldable pub is_authorized : (List ℕ → Option (List ℕ)) → AppState → List ℕ → Bool
is_authorized decode state request_data = elim (extract_proxy_auth_header request_data) [
  | none ↦ false
  | some auth_header ↦ is_ok (validate_auth_header decode auth_header state)
]

unfoldable pub authenticate_http_or_https :
    (List ℕ → Option (List ℕ)) → AppState → Io AuthError Bool
authenticate_http_or_https decode state = do
  buffer ← with_err io (peek_or_read 4096)
  elim buffer [
    | [] ↦ raise (message (codes "Connection closed by client"))
    | b ∷ bs ↦ if is_authorized decode state (from_utf8_lossy (b ∷ bs)) then pure true else (do
      attempt {F = AuthError} send_http_auth_required_response
      raise (message (codes "HTTP authentication required")))
  ]
