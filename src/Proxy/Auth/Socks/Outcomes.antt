-- ===== src/Proxy/Auth/Socks/Outcomes.antt =====
-- The dialogue of `authenticate_socks5` in proxy/listener.rs with a client that offers a password.
use crabby_proxy.Prelude.{
  ℕ, ◌≡◌, ◌∙◌, Bool, true, false, some, List, [], ◌∷◌, ◌++◌, length, contains,
}
use crabby_proxy.Text.{codes}
use crabby_proxy.Text.Utf8.{from_utf8}
use crabby_proxy.App.{AppState}
use crabby_proxy.Net.{Stream}
use crabby_proxy.Net.Io.{Outcome, done, failed}
use crabby_proxy.Net.Read.Steps.{Delivers, Moves, Moves-trans, read_step, write_step}
use crabby_proxy.Proxy.Auth.Credentials.{AuthError, message, validate_credentials}
use crabby_proxy.Proxy.Auth.Socks.{
  authenticate_socks5, check_password, choose_method, answer_password,
}

abbrev pub verdict : Bool → Outcome AuthError Bool
verdict true = done true
verdict false = failed (message (codes "SOCKS5 authentication failed"))

-- 0 for success.
abbrev pub status_byte : Bool → ℕ
status_byte true = 0
status_byte false = 1

-- The sub-negotiation: version 1, the name and the password, each behind its length.
abbrev pub password_request : List ℕ → List ℕ → List ℕ → List ℕ
password_request user pass rest = 1 ∷ length user ∷ user ++ length pass ∷ pass ++ rest

answer_password_step :
    (v : Bool) (s : Stream) (rest : List ℕ)
    → Delivers s rest
    → (t : Stream) × (answer_password v s ≡ (verdict v, t))
      × Moves s t rest (1 ∷ status_byte v ∷ [])
unfolding answer_password
answer_password_step true s rest h =
    let (t, e, m) = write_step s (1 ∷ 0 ∷ []) rest h in (t, rw e, m)
answer_password_step false s rest h =
    let (t, e, m) = write_step s (1 ∷ 1 ∷ []) rest h in (t, rw e, m)

check_password-request :
    (state : AppState) (s : Stream) (user pass username password rest : List ℕ)
    → Delivers s (1 ∷ length user ∷ user ++ (length pass ∷ pass ++ rest))
    → from_utf8 user ≡ some username
    → from_utf8 pass ≡ some password
    → (t : Stream) × (check_password state s
        ≡ (verdict (validate_credentials username password state), t))
      × Moves s t rest (1 ∷ status_byte (validate_credentials username password state) ∷ [])
unfolding check_password
check_password-request state s user pass username password rest h u p =
    let (t, e, m) = read_step s (1 ∷ length user ∷ []) (user ++ (length pass ∷ pass ++ rest)) h in
    let (t1, e1, m1) = read_step t user (length pass ∷ pass ++ rest) m.delivers in
    let (t2, e2, m2) = read_step t1 (length pass ∷ []) (pass ++ rest) m1.delivers in
    let (t3, e3, m3) = read_step t2 pass rest m2.delivers in
    let v : Bool = validate_credentials username password state in
    let (t4, e4, m4) = answer_password_step v t3 rest m3.delivers in
    (
      t4,
      rw e (rw e1 (rw e2 (rw e3 (rw u (rw p e4))))),
      Moves-trans s t3 t4 _ _ _ _
          (Moves-trans s t2 t3 _ _ _ _
            (Moves-trans s t1 t2 _ _ _ _ (Moves-trans s t t1 _ _ _ _ m m1) m2) m3)
          m4,
    )

method_chosen :
    (required supported : Bool) (state : AppState) (s : Stream)
    → required ≡ true
    → supported ≡ true
    → choose_method required supported state s ≡ choose_method true true state s
method_chosen required supported state s c o = rw (c, o)

-- A client that offers the method 2, and then a name and a password in UTF-8, is told to use that
-- method; then its credentials decide the result and the second reply. All that it sent is read.
pub authenticate_socks5-request :
    (state : AppState) (s : Stream) (methods user pass username password rest : List ℕ)
    → state.require_creds ≡ true
    → contains methods 2 ≡ true
    → Delivers s
        (5 ∷ length methods ∷ methods ++ (1 ∷ length user ∷ user ++ (length pass ∷ pass ++ rest)))
    → from_utf8 user ≡ some username
    → from_utf8 pass ≡ some password
    → (t : Stream) × (authenticate_socks5 state s
        ≡ (verdict (validate_credentials username password state), t))
      × Moves s t rest (5 ∷ 2 ∷ 1 ∷ status_byte (validate_credentials username password state) ∷ [])
unfolding authenticate_socks5
authenticate_socks5-request state s methods user pass username password rest c o h u p =
    let request : List ℕ = 1 ∷ length user ∷ user ++ (length pass ∷ pass ++ rest) in
    let (t, e, m) = read_step s (5 ∷ length methods ∷ []) (methods ++ request) h in
    let (t1, e1, m1) = read_step t methods request m.delivers in
    let (t2, e2, m2) = write_step t1 (5 ∷ 2 ∷ []) request m1.delivers in
    let (t3, e3, m3) =
      check_password-request state t2 user pass username password rest m2.delivers u p in
    let offered : choose_method true true state t1
        ≡ (verdict (validate_credentials username password state), t3) =
      unfold choose_method in rw e2 e3 in
    (
      t3,
      rw e (rw e1 (method_chosen _ _ state t1 c o ∙ offered)),
      Moves-trans s t2 t3 _ _ _ _ (Moves-trans s t1 t2 _ _ _ _ (Moves-trans s t t1 _ _ _ _ m m1) m2)
          m3,
    )
