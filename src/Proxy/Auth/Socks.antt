-- ===== src/Proxy/Auth/Socks.antt =====
-- proxy/listener.rs, `authenticate_socks4` and `authenticate_socks5`.
pub mod Outcomes
pub mod UserId
use crabby_proxy.Prelude.{
  ℕ, Bool, true, false, not, ◌&&◌, Option, none, some, List, [], ◌∷◌, ◌==◌, if◌then◌else◌, ok_or,
  contains,
}
use crabby_proxy.Text.{codes}
use crabby_proxy.Text.Utf8.{from_utf8}
use crabby_proxy.App.{AppState}
use crabby_proxy.Net.Io.{Io, pure, raise, lift, with_err, ◌>>=◌, ◌>>◌}
use crabby_proxy.Net.Read.{read_exact, write_all}
use crabby_proxy.Net.Common.{byte_at, read_user_id}
use crabby_proxy.Proxy.Auth.Credentials.{
  AuthError, message, io, not_utf8, validate_credentials, validate_socks4_user_id,
}

-- `unwrap_or_default`.
or_empty : Option (List ℕ) → List ℕ
or_empty none = []
or_empty (some text) = text

-- The test of the user name, behind the eight bytes of the request.
check_user_id : AppState → Io AuthError Bool
unfolding or_empty
check_user_id state = do
  user_id ← with_err io read_user_id
  if validate_socks4_user_id (or_empty (from_utf8 user_id)) state then pure true else do
    with_err io (write_all (0x00 ∷ 0x5B ∷ 0x00 ∷ 0x00 ∷ 0x00 ∷ 0x00 ∷ 0x00 ∷ 0x00 ∷ []))
    raise (message (codes "SOCKS4 authentication failed"))

unfoldable pub authenticate_socks4 : AppState → Io AuthError Bool
unfolding check_user_id
authenticate_socks4 state = do
  request_buf ← with_err io (read_exact 8)
  if not (byte_at 0 request_buf == 0x04)
      then raise (message (codes "Invalid SOCKS4 version"))
      else if state.require_creds
      then check_user_id state
      else pure false

-- The reply to valid credentials, and to others.
answer_password : Bool → Io AuthError Bool
answer_password true = do with_err io (write_all (0x01 ∷ 0x00 ∷ [])); pure true
answer_password false = do
  with_err io (write_all (0x01 ∷ 0x01 ∷ []))
  raise (message (codes "SOCKS5 authentication failed"))

-- The sub-negotiation of RFC 1929, once its method is chosen.
pub check_password : AppState → Io AuthError Bool
unfolding answer_password
check_password state = do
  auth_buf ← with_err io (read_exact 2)
  if not (byte_at 0 auth_buf == 0x01)
      then raise (message (codes "Unsupported SOCKS5 auth version"))
      else do
        username_buf ← with_err io (read_exact (byte_at 1 auth_buf))
        pass_len_buf ← with_err io (read_exact 1)
        password_buf ← with_err io (read_exact (byte_at 0 pass_len_buf))
        username ← lift (ok_or (from_utf8 username_buf) not_utf8)
        password ← lift (ok_or (from_utf8 password_buf) not_utf8)
        answer_password (validate_credentials username password state)

-- The choice of a method: whether credentials are required, and whether the client can give them.
choose_method : Bool → Bool → AppState → Io AuthError Bool
choose_method true true state = do with_err io (write_all (0x05 ∷ 0x02 ∷ [])); check_password state
choose_method true false state = do
  with_err io (write_all (0x05 ∷ 0xFF ∷ []))
  raise (message (codes "SOCKS5 authentication required but not supported by client"))
choose_method false supports_auth state = do with_err io (write_all (0x05 ∷ 0x00 ∷ [])); pure false

unfoldable pub authenticate_socks5 : AppState → Io AuthError Bool
unfolding check_password choose_method
authenticate_socks5 state = do
  handshake_buf ← with_err io (read_exact 2)
  if not (byte_at 0 handshake_buf == 0x05)
      then raise (message (codes "Invalid SOCKS version"))
      else do
        methods_buf ← with_err io (read_exact (byte_at 1 handshake_buf))
        choose_method state.require_creds (contains methods_buf 0x02) state
