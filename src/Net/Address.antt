-- ===== src/Net/Address.antt =====
-- `parse::<SocketAddr>` of Rust's standard library.
use crabby_proxy.Prelude.{ℕ, Option, none, some, List, [], ◌∷◌, ltb, ◌==◌, if◌then◌else◌}
use crabby_proxy.Text.Decimal.{digits}
use crabby_proxy.Text.Split.{split, split_once}
use crabby_proxy.Net.{SocketAddr, v4}

infixl 5 ◌>>=◌
abbrev pub ◌>>=◌ : {A B : Type 0} → Option A → (A → Option B) → Option B
none >>= f = none
some a >>= f = f a

-- A part of an IPv4 address: no zero before another digit, and at most 255.
octet : List ℕ → Option ℕ
octet [] = none
octet (c ∷ []) = digits (c ∷ [])
octet (c ∷ d ∷ ds) = if c == b'0' then none else byte (digits (c ∷ d ∷ ds))
  where
    byte : Option ℕ → Option ℕ
    byte none = none
    byte (some n) = if ltb n 256 then some n else none

octets : List (List ℕ) → Option (List ℕ)
unfolding octet
octets [] = some []
octets (p ∷ ps) = do b ← octet p; bs ← octets ps; some (b ∷ bs)

-- Exactly four of them.
parse_ipv4 : List ℕ → Option (List ℕ)
unfolding octets
parse_ipv4 s = elim (split b'.' s) [ a ∷ b ∷ c ∷ d ∷ [] ↦ octets (a ∷ b ∷ c ∷ d ∷ []) | _ ↦ none ]

host_with_port : List ℕ × Option (List ℕ) → Option SocketAddr
unfolding parse_ipv4
host_with_port (host, none) = none
host_with_port (host, some port) = do ip ← parse_ipv4 host; n ← digits port; some (v4 ip n)

-- `parse::<SocketAddr>` of a text that does not begin with "[", so that it has an IPv4 address.
unfoldable pub parse_socket_addr : List ℕ → Option SocketAddr
unfolding host_with_port
parse_socket_addr s = host_with_port (split_once b':' s)
