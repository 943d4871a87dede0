-- ===== src/Proxy/Relay.antt =====
-- proxy/relay.rs: the CONNECT request to another proxy, and the wait for its reply.
pub mod Buffer
pub mod Rounds
pub mod Reply
use crabby_proxy.Prelude.{
  ℕ, zero, suc, ◌+◌, ◌-◌, ◌≡◌, Bool, true, false, Option, none, some, List, [], ◌∷◌, ◌++◌, ltb, leb,
  if◌then◌else◌, length, drop,
}
use crabby_proxy.Text.{codes, text_eq, starts_with}
use crabby_proxy.Text.Decimal.{u16_to_string}
use crabby_proxy.Text.Utf8.{to_utf8}
use crabby_proxy.Net.Io.{Io, elapsed, pure, raise, ◌>>=◌, ◌>>◌}
use crabby_proxy.Error.{ProxyError, bad_gateway, message}
use crabby_proxy.Utils.{crlf, write_to_stream, read_from_stream}
use crabby_proxy.Proxy.Protocol.{ProxyTarget}

unfoldable pub connect_request : ProxyTarget → List ℕ
connect_request target =
    codes "CONNECT "
    ++ to_utf8 target.host
    ++ (b':' ∷ [])
    ++ u16_to_string target.port
    ++ codes " HTTP/1.1"
    ++ crlf
    ++ crlf

-- "\r\n\r\n".
abbrev pub blank_line : List ℕ
blank_line = 13 ∷ 10 ∷ 13 ∷ 10 ∷ []

later : Option ℕ → Option ℕ
later none = none
later (some i) = some (suc i)

-- `buffer.windows(4).position(|window| window == b"\r\n\r\n")`.
unfoldable pub position : List ℕ → Option ℕ
unfolding later
position [] = none
position (b ∷ bs) =
    let rest = later (position bs) in if starts_with (b ∷ bs) blank_line then some 0 else rest

behind : Option ℕ → Option ℕ
behind none = none
behind (some index) = some (index + 4)

-- `partially_read_body_start_index`, once the loop can leave.
unfoldable pub body_start : List ℕ → Option ℕ
unfolding behind
body_start buffer =
    let len = length buffer in
    let found = behind (position buffer) in
    if ltb 4 len
    then if text_eq (drop (len - 4) buffer) blank_line then some len else found
    else none

-- The loop, with the buffer and the index that it leaves with. Running out of fuel is `elapsed`.
unfoldable pub read_reply : ℕ → List ℕ → Io ProxyError (List ℕ × ℕ)
read_reply zero buffer = λ s. (elapsed, s)
read_reply (suc fuel) buffer = do
  tmp ← read_from_stream 256
  elim (body_start (buffer ++ tmp)) [
    | some index ↦ pure (buffer ++ tmp, index)
    | none ↦ read_reply fuel (buffer ++ tmp)
  ]

abbrev pub status_ok : List ℕ
status_ok = codes "HTTP/1.1 200 OK"

abbrev pub invalid_response : ProxyError
invalid_response = bad_gateway (message (codes "invalid response from proxy server"))

unfoldable pub reply_body : List ℕ × ℕ → Io ProxyError (List ℕ)
reply_body (buffer, index) =
    if starts_with buffer status_ok
    then if leb index (length buffer) then pure [] else pure (drop index buffer)
    else raise invalid_response

-- `handShake`, with what the block from the pool holds, the room that the socket has for the request,
-- and the number of rounds to try.
unfoldable pub hand_shake : List ℕ → ℕ → ℕ → ProxyTarget → Io ProxyError (List ℕ)
unfolding reply_body
hand_shake pooled room fuel target = do
  write_to_stream room (pooled ++ connect_request target)
  reply ← read_reply fuel []
  reply_body reply
