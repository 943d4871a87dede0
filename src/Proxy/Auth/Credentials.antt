-- ===== src/Proxy/Auth/Credentials.antt =====
-- proxy/listener.rs, `validate_credentials`, `validate_socks4_user_id` and `validate_auth_header`.
use crabby_proxy.Prelude.{
  ℕ, Bool, true, false, ◌&&◌, Option, none, some, List, drop, if◌then◌else◌, Result, ok, err, ok_or,
  ◌↔◌, ◌≡◌, ap, arith,
}
use crabby_proxy.Text.{codes, text_eq, starts_with, text_eq_sound, text_eq_refl}
use crabby_proxy.Text.Utf8.{from_utf8}
use crabby_proxy.Text.Split.{split_once}
use crabby_proxy.App.{AppState}
use crabby_proxy.Net.{IoError}

-- `Box<dyn Error>`: a message, an I/O error, or the error of `String::from_utf8`.
pub data AuthError : Type 0 where
  message : List ℕ → AuthError
  io : IoError → AuthError
  not_utf8 : AuthError

-- Two texts are equal if their bytes are.
credentials_match : Option (List ℕ) → Option (List ℕ) → List ℕ → List ℕ → Bool
credentials_match (some user) (some pass) username password =
    text_eq user username && text_eq pass password
credentials_match _ _ username password = false

unfoldable pub validate_credentials : List ℕ → List ℕ → AppState → Bool
unfolding credentials_match
validate_credentials username password state =
    credentials_match state.username state.password username password

unfoldable pub validate_socks4_user_id : List ℕ → AppState → Bool
validate_socks4_user_id user_id state = elim state.username [
  | some expected_username ↦ text_eq expected_username user_id
  | none ↦ false
]

infixl 5 ◌>>=◌
abbrev ◌>>=◌ {ℓ κ} :
    {A : Type ℓ} {B : Type κ} → Result A AuthError → (A → Result B AuthError) → Result B AuthError
ok a >>= f = f a
err e >>= f = err e

-- The name ends at the first colon; the password may hold others.
unfoldable pub validate_auth_header :
    (List ℕ → Option (List ℕ)) → List ℕ → AppState → Result (Unit {0}) AuthError
validate_auth_header decode auth_header state =
    if starts_with auth_header (codes "Basic ")
    then (do
      decoded ← ok_or (decode (drop 6 auth_header)) (message (codes "Invalid base64 encoding"))
      credentials ← ok_or (from_utf8 decoded) (message (codes "Invalid UTF-8 in credentials"))
      let username = (split_once b':' credentials).0
      password ← ok_or (split_once b':' credentials).1 (message (codes "Missing password"))
      if validate_credentials username password state
          then ok tt
          else err (message (codes "Invalid credentials")))
    else err (message (codes "Unsupported authentication method"))

-- The credentials are valid exactly if they are the ones that the proxy was started with.
pub validate_credentials_iff :
    (username password : List ℕ) (state : AppState)
    → (validate_credentials username password state ≡ true)
      ↔ ((state.username ≡ some username) × (state.password ≡ some password))
unfolding validate_credentials
validate_credentials_iff username password state = (
  matches state.username state.password,
  λ (u, p).
      rw (u, p, validate_credentials)
        (ground (arith, text_eq_refl username, text_eq_refl password)),
)
  where
    matches :
        (user pass : Option (List ℕ))
        → credentials_match user pass username password ≡ true
        → (user ≡ some username) × (pass ≡ some password)
    matches (some user) (some pass) h =
        ground (arith, text_eq_sound user username, text_eq_sound pass password)
    matches none pass h = cc
    matches (some user) none h = cc

-- The name is valid exactly if it is the one that the proxy was started with.
pub validate_socks4_user_id_iff :
    (user_id : List ℕ) (state : AppState)
    → (validate_socks4_user_id user_id state ≡ true) ↔ (state.username ≡ some user_id)
unfolding validate_socks4_user_id
validate_socks4_user_id_iff user_id state =
    (matches state.username, λ u. rw (u, validate_socks4_user_id) (text_eq_refl user_id))
  where
    matches :
        (expected : Option (List ℕ))
        → (elim expected as (λ _. Bool) [
          | some expected_username ↦ text_eq expected_username user_id
          | none ↦ false
        ])
          ≡ true
        → expected ≡ some user_id
    matches (some expected) h = ap some (text_eq_sound expected user_id h)
    matches none h = cc
