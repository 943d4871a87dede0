-- ===== src/Proxy/Target/Binary/RoundTrip.antt =====
-- What a SOCKS client writes, `parse_socks4_target` and `parse_socks5_target` of proxy/listener.rs
-- read, however the bytes are cut into pieces and delayed.
use crabby_proxy.Prelude.{
  ℕ, suc, ◌+◌, ◌/◌, ◌%◌, ◌≡◌, refl, ap, sym, length-append, ◌∙◌, some, List, [], ◌∷◌, ◌++◌, length,
  take, append_assoc, arith,
}
use crabby_proxy.Text.Utf8.{from_utf8}
use crabby_proxy.Text.Address.{ipv4_to_string, ipv6_to_string}
use crabby_proxy.Net.{Stream}
use crabby_proxy.Net.Io.{done}
use crabby_proxy.Net.Read.{read_exact}
use crabby_proxy.Net.Read.Steps.{
  Delivers, Moves, Moves-trans, read_step, write_step, user_id_step, NoNul,
}
use crabby_proxy.Net.Common.{byte_at}
use crabby_proxy.Proxy.Target.Binary.{parse_socks4_target, parse_socks5_target, read_address}

-- A SOCKS4 CONNECT request (version 4, command 1, the port, four bytes of address, a user name
-- without a zero byte, a zero) names the target that `parse_socks4_target` returns, it reads the
-- request whole and nothing behind it, and writes nothing.
pub parse_socks4_target-request :
    (s : Stream) (port a b c d : ℕ) (user_id rest : List ℕ)
    → Delivers s (4 ∷ 1 ∷ (port / 256) ∷ (port % 256) ∷ a ∷ b ∷ c ∷ d ∷ user_id ++ 0 ∷ rest)
    → NoNul user_id
    → (t : Stream) × (parse_socks4_target s
        ≡ (done (record { host = ipv4_to_string (a ∷ b ∷ c ∷ d ∷ []); port = port }), t))
      × Moves s t rest []
unfolding parse_socks4_target
parse_socks4_target-request s port a b c d user_id rest h n =
    let header : List ℕ = 4 ∷ 1 ∷ (port / 256) ∷ (port % 256) ∷ a ∷ b ∷ c ∷ d ∷ [] in
    let (t, e, m) = read_step s header (user_id ++ 0 ∷ rest) h in
    let (u, e', m') = user_id_step t user_id rest m.delivers n in
    (u, rw e (rw e' (ground arith)), Moves-trans s t u _ _ _ _ m m')

-- The destination of a SOCKS5 request: four bytes, a name in bytes, or sixteen bytes.
pub data Destination : Type 0 where
  ipv4 : ℕ → ℕ → ℕ → ℕ → Destination
  domain ipv6 : List ℕ → Destination

abbrev pub address_type : Destination → ℕ
address_type (ipv4 a b c d) = 1
address_type (domain name) = 3
address_type (ipv6 bs) = 4

-- The address with the port behind it, before `rest`.
abbrev pub address_then : Destination → ℕ → List ℕ → List ℕ
address_then (ipv4 a b c d) port rest = a ∷ b ∷ c ∷ d ∷ (port / 256) ∷ (port % 256) ∷ rest
address_then (domain name) port rest = length name ∷ name ++ (port / 256) ∷ (port % 256) ∷ rest
address_then (ipv6 bs) port rest = bs ++ (port / 256) ∷ (port % 256) ∷ rest

-- The host that a destination stands for. A name is UTF-8, an IPv6 address has sixteen bytes.
abbrev pub StandsFor : Destination → List ℕ → Type 0
StandsFor (ipv4 a b c d) host = host ≡ ipv4_to_string (a ∷ b ∷ c ∷ d ∷ [])
StandsFor (domain name) host = from_utf8 name ≡ some host
StandsFor (ipv6 bs) host = (length bs ≡ 16) × (host ≡ ipv6_to_string bs)

take-length-append : (bs cs : List ℕ) → take (length bs) (bs ++ cs) ≡ bs
take-length-append [] cs = refl
take-length-append (b ∷ bs) cs = rw (take-length-append bs cs)

byte_at-length-append : (bs cs : List ℕ) (i : ℕ) → byte_at (length bs + i) (bs ++ cs) ≡ byte_at i cs
byte_at-length-append [] cs i = ap (λ (k : ℕ). byte_at k cs) (omega arith)
byte_at-length-append (b ∷ bs) cs i =
    let shift : suc (length bs) + i ≡ suc (length bs + i) = omega arith in
    ap (λ (k : ℕ). byte_at k (b ∷ bs ++ cs)) shift ∙ byte_at-length-append bs cs i

read_address-Destination :
    (d : Destination) (host : List ℕ) (port : ℕ) (s : Stream) (rest : List ℕ)
    → StandsFor d host
    → Delivers s (address_then d port rest)
    → (t : Stream) × (read_address (address_type d) s
        ≡ (done (record { host = host; port = port }), t))
      × Moves s t rest []
unfolding read_address
read_address-Destination (ipv4 a b c d) host port s rest w h =
    let bs : List ℕ = a ∷ b ∷ c ∷ d ∷ (port / 256) ∷ (port % 256) ∷ [] in
    let (t, e, m) = read_step s bs rest h in (t, rw e (ground arith), m)
read_address-Destination (domain name) host port s rest w h =
    let (t, e, m) = read_step s (length name ∷ []) (name ++ (port / 256) ∷ (port % 256) ∷ rest) h in
    let (u, e', m') = read_step t name ((port / 256) ∷ (port % 256) ∷ rest) m.delivers in
    let (v, e'', m'') = read_step u ((port / 256) ∷ (port % 256) ∷ []) rest m'.delivers in
    (
      v,
      rw e (rw e' (rw w (rw e'' (ground arith)))),
      Moves-trans s u v _ _ _ _ (Moves-trans s t u _ _ _ _ m m') m'',
    )
read_address-Destination (ipv6 bs) host port s rest w h =
    let tail : List ℕ = (port / 256) ∷ (port % 256) ∷ [] in
    let (t, e, m) = read_step s (bs ++ tail) rest (rw (append_assoc bs tail rest) h) in
    let size : length (bs ++ tail) ≡ 18 = omega (arith, length-append bs tail, w.0) in
    let e18 : read_exact 18 s ≡ (done (bs ++ tail), t) =
      ap (λ (n : ℕ). read_exact n s) (sym size) ∙ e in
    let front : take 16 (bs ++ tail) ≡ bs =
      ap (λ (n : ℕ). take n (bs ++ tail)) (sym w.0) ∙ take-length-append bs tail in
    let high : byte_at 16 (bs ++ tail) ≡ port / 256 =
      ap (λ (n : ℕ). byte_at n (bs ++ tail)) (omega (arith, w.0))
      ∙ byte_at-length-append bs tail 0 in
    let low : byte_at 17 (bs ++ tail) ≡ port % 256 =
      ap (λ (n : ℕ). byte_at n (bs ++ tail)) (omega (arith, w.0))
      ∙ byte_at-length-append bs tail 1 in
    (t, rw e18 (ground (arith, front, high, low, w.1)), m)

-- A SOCKS5 greeting and the CONNECT request behind it, for an IPv4 address, a name in UTF-8 or an
-- IPv6 address, name the target that `parse_socks5_target` returns; it answers the greeting with the method 0
-- and leaves what stands behind the request.
pub parse_socks5_target-request :
    (s : Stream) (methods : List ℕ) (d : Destination) (host : List ℕ) (port : ℕ) (rest : List ℕ)
    → StandsFor d host
    → Delivers s
        (5 ∷ length methods ∷ methods ++ 5 ∷ 1 ∷ 0 ∷ address_type d ∷ address_then d port rest)
    → (t : Stream) × (parse_socks5_target s ≡ (done (record { host = host; port = port }), t))
      × Moves s t rest (5 ∷ 0 ∷ [])
unfolding parse_socks5_target
parse_socks5_target-request s methods d host port rest w h =
    let request : List ℕ = 5 ∷ 1 ∷ 0 ∷ address_type d ∷ [] in
    let (t, e, m) =
      read_step s (5 ∷ length methods ∷ []) (methods ++ (request ++ address_then d port rest)) h in
    let (u, e', m') = read_step t methods (request ++ address_then d port rest) m.delivers in
    let (v, e'', m'') =
      write_step u (5 ∷ 0 ∷ []) (request ++ address_then d port rest) m'.delivers in
    let (x, e3, m3) = read_step v request (address_then d port rest) m''.delivers in
    let (y, e4, m4) = read_address-Destination d host port x rest w m3.delivers in
    (
      y,
      rw e (rw e' (rw e'' (rw e3 e4))),
      Moves-trans s x y _ _ _ _
          (Moves-trans s v x _ _ _ _
            (Moves-trans s u v _ _ _ _ (Moves-trans s t u _ _ _ _ m m') m'') m3)
          m4,
    )
