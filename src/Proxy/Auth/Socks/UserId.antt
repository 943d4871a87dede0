-- ===== src/Proxy/Auth/Socks/UserId.antt =====
-- The outcome of `authenticate_socks4` in proxy/listener.rs.
use crabby_proxy.Prelude.{
  ℕ, ◌≡◌, ◌↔◌, refl, ◌∙◌, Bool, true, false, some, List, [], ◌∷◌, ◌++◌, if◌then◌else◌,
}
use crabby_proxy.Text.{codes}
use crabby_proxy.Text.Utf8.{from_utf8}
use crabby_proxy.App.{AppState}
use crabby_proxy.Net.{Stream}
use crabby_proxy.Net.Io.{Outcome, done, failed, pure, raise, with_err, ◌>>◌}
use crabby_proxy.Net.Read.{read_exact, write_all}
use crabby_proxy.Net.Common.{read_user_id}
use crabby_proxy.Net.Read.Steps.{
  Delivers, Moves, Moves-trans, Moves-refl, read_step, write_step, user_id_step, NoNul,
}
use crabby_proxy.Proxy.Auth.Credentials.{
  AuthError, message, io, validate_socks4_user_id, validate_socks4_user_id_iff,
}
use crabby_proxy.Proxy.Auth.Socks.{authenticate_socks4, check_user_id, or_empty}

abbrev pub socks4_verdict : Bool → Outcome AuthError Bool
socks4_verdict true = done true
socks4_verdict false = failed (message (codes "SOCKS4 authentication failed"))

-- Nothing yet for a user who is known; the request is refused for another.
abbrev pub socks4_answer : Bool → List ℕ
socks4_answer true = []
socks4_answer false = 0 ∷ 91 ∷ 0 ∷ 0 ∷ 0 ∷ 0 ∷ 0 ∷ 0 ∷ []

answer_step :
    (v : Bool) (s : Stream) (rest : List ℕ)
    → Delivers s rest
    → (t : Stream) × ((if v
            then pure {E = AuthError} true
            else (with_err io (write_all (socks4_answer false))
                >> raise (message (codes "SOCKS4 authentication failed"))))
          s
        ≡ (socks4_verdict v, t))
      × Moves s t rest (socks4_answer v)
answer_step true s rest d = (s, refl, Moves-refl s rest d)
answer_step false s rest d =
    let (t, e, m) = write_step s (socks4_answer false) rest d in (t, rw e refl, m)

user_step :
    (state : AppState) (s t : Stream) (user_id : List ℕ)
    → read_user_id s ≡ (done user_id, t)
    → check_user_id state s
      ≡ (if validate_socks4_user_id (or_empty (from_utf8 user_id)) state
            then pure {E = AuthError} true
            else (with_err io (write_all (socks4_answer false))
                >> raise (message (codes "SOCKS4 authentication failed"))))
          t
unfolding check_user_id
user_step state s t user_id e = rw e refl

required_step :
    (state : AppState) (s t : Stream) (a b c d e f g : ℕ)
    → state.require_creds ≡ true
    → read_exact 8 s ≡ (done (4 ∷ a ∷ b ∷ c ∷ d ∷ e ∷ f ∷ g ∷ []), t)
    → authenticate_socks4 state s ≡ check_user_id state t
unfolding authenticate_socks4
required_step state s t a b c d e f g r h = rw h (rw r refl)

-- The result and the reply for a name: let in exactly if it is the name that the proxy was started with.
pub record UserIdChecked (state : AppState) (s : Stream) (username rest : List ℕ) : Type 0 where
  pub let_in : Bool
  pub known : (let_in ≡ true) ↔ (state.username ≡ some username)
  pub after : Stream
  pub answered : authenticate_socks4 state s ≡ (socks4_verdict let_in, after)
  pub told : Moves s after rest (socks4_answer let_in)

-- With credentials required, a SOCKS4 client whose request has the version 4 and a user name in UTF-8 is let in
-- exactly if the name is the one that the proxy was started with, and then nothing is written; any other is
-- told of a failure with the code 91. The whole request is read, and no more.
pub authenticate_socks4-request :
    (state : AppState) (s : Stream) (a b c d e f g : ℕ) (user_id username rest : List ℕ)
    → state.require_creds ≡ true
    → Delivers s (4 ∷ a ∷ b ∷ c ∷ d ∷ e ∷ f ∷ g ∷ user_id ++ 0 ∷ rest)
    → NoNul user_id
    → from_utf8 user_id ≡ some username
    → UserIdChecked state s username rest
unfolding or_empty
authenticate_socks4-request state s a b c d e f g user_id username rest r h n u =
    let head : List ℕ = 4 ∷ a ∷ b ∷ c ∷ d ∷ e ∷ f ∷ g ∷ [] in
    let (t1, e1, m1) = read_step s head (user_id ++ 0 ∷ rest) h in
    let (t2, e2, m2) = user_id_step t1 user_id rest m1.delivers n in
    let (t3, e3, m3) = answer_step (validate_socks4_user_id username state) t2 rest m2.delivers in
    record {
      let_in = validate_socks4_user_id username state;
      known = validate_socks4_user_id_iff username state;
      after = t3;
      answered =
          required_step state s t1 a b c d e f g r e1 ∙ user_step state t1 t2 user_id e2 ∙ rw u e3;
      told = Moves-trans s t2 t3 _ _ _ _ (Moves-trans s t1 t2 _ _ _ _ m1 m2) m3;
    }
