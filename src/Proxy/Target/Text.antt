-- ===== src/Proxy/Target/Text.antt =====
-- proxy/listener.rs, the targets that stand as text: `parse_connect_target`, `parse_http_target`,
-- `parse_http_target_from_stream` and `parse_target`.
pub mod RoundTrip
pub mod Line
pub mod Connect
pub mod Request
pub mod Absolute
pub mod Framed
pub mod Schemeless
use crabby_proxy.Prelude.{
  ℕ, zero, suc, Bool, true, false, ◌||◌, Option, none, some, List, [], ◌∷◌, ◌++◌, ltb, ◌==◌,
  if◌then◌else◌, drop, Result, ok, err, map_err, ok_or,
}
use crabby_proxy.Text.{codes, text_eq, starts_with}
use crabby_proxy.Text.Utf8.{from_utf8}
use crabby_proxy.Text.Split.{split, split_once, split_whitespace}
use crabby_proxy.Text.Decimal.{parse_u16, u16_to_string}
use crabby_proxy.Net.{IoError, ErrorKind, unexpected_eof, timed_out}
use crabby_proxy.Net.Io.{Io, elapsed, pure, raise, lift, with_err, timeout, ◌>>=◌, ◌>>◌}
use crabby_proxy.Net.Read.{read, read_exact}
use crabby_proxy.Net.Common.{byte_at, invalid, u16_from_be_bytes, fuel_of}
use crabby_proxy.Proxy.Protocol.{ProxyTarget}

-- A host and a port, as `parse_connect_target` and `parse_target` make them of the pieces between colons; `wrong` is the error for another number of
-- pieces, `bad_port` that for a port which is no number of 16 bits.
pub host_and_port : IoError → IoError → List (List ℕ) → Result ProxyTarget IoError
host_and_port wrong bad_port (host ∷ port ∷ []) = elim (parse_u16 port) [
  | none ↦ err bad_port
  | some p ↦ ok (record { host = host; port = p })
]
host_and_port wrong bad_port _ = err wrong

unfoldable pub parse_connect_target : List ℕ → Result ProxyTarget IoError
unfolding host_and_port
parse_connect_target url =
    host_and_port (invalid (codes "Invalid CONNECT target")) (invalid (codes "Invalid port"))
      (split b':' url)

-- `parts[1].parse().unwrap_or(80)` if there is such a part, and 80 if not.
port_or_80 : List (List ℕ) → ℕ
port_or_80 [] = 80
port_or_80 (port ∷ rest) = elim (parse_u16 port) [ none ↦ 80 | some p ↦ p ]

-- `split` yields at least one piece, so `parts[0]` is there.
authority : List (List ℕ) → ProxyTarget
unfolding port_or_80
authority [] = record { host = []; port = 80 }
authority (host ∷ rest) = record { host = host; port = port_or_80 rest }

unfoldable pub parse_http_target : List ℕ → Result ProxyTarget IoError
unfolding authority
parse_http_target url =
    if starts_with url (codes "http://")
    then ok (authority (split b':' (split_once b'/' (drop 7 url)).0))
    else err (invalid (codes "Invalid HTTP URL"))

-- The line ends in the buffer, or the next read goes on with it.
line_end : (List ℕ → Io IoError (List ℕ)) → List ℕ → List ℕ × Option (List ℕ) → Io IoError (List ℕ)
line_end go_on line (front, some dropped) = pure (line ++ front ++ 10 ∷ [])
line_end go_on line (front, none) = go_on (line ++ front)

-- The rounds of `BufReader::read_line`: the buffer takes up to 8192 bytes at a time, and what it
-- holds behind the line is dropped with it. Running out of fuel would be `elapsed`.
pub read_line_bytes : ℕ → List ℕ → Io IoError (List ℕ)
unfolding line_end
read_line_bytes zero line = λ s. (elapsed, s)
read_line_bytes (suc fuel) line = do
  chunk ← read 8192
  elim chunk [
    | [] ↦ pure line
    | c ∷ cs ↦ line_end (read_line_bytes fuel) line (split_once 10 (c ∷ cs))
  ]

unfoldable pub read_line : Io IoError (List ℕ)
unfolding read_line_bytes
read_line = do
  line ← λ s. read_line_bytes (fuel_of s) [] s
  lift (ok_or (from_utf8 line) (invalid (codes "stream did not contain valid UTF-8")))

unfoldable pub parse_request_line : List (List ℕ) → Result ProxyTarget IoError
parse_request_line (method ∷ url ∷ rest) =
    if text_eq method (codes "CONNECT") then parse_connect_target url else parse_http_target url
parse_request_line _ = err (invalid (codes "Invalid HTTP request"))

unfoldable pub parse_http_target_from_stream : Io IoError ProxyTarget
parse_http_target_from_stream = do
  request_line ← read_line
  lift (parse_request_line (split_whitespace request_line))

-- An early end is reported in words of its own.
eof_as : List ℕ → IoError → IoError
eof_as message e = elim e.kind [
  | unexpected_eof ↦ record { kind = unexpected_eof; message = message }
  | _ ↦ e
]

-- What `parse_target` makes of its text.
abbrev parse_framed_target : List ℕ → Result ProxyTarget IoError
parse_framed_target target_str =
    host_and_port (invalid (codes "Invalid target format (expected host:port)"))
      (invalid (codes "Invalid port number")) (split b':' target_str)

-- The `async` block inside the timeout of `parse_target`.
unfoldable pub read_target : Io IoError ProxyTarget
unfolding eof_as
read_target = do
  length_buf ← with_err (eof_as (codes "Client disconnected before sending length")) (read_exact 2)
  let length = u16_from_be_bytes (byte_at 0 length_buf) (byte_at 1 length_buf)
  if length == 0 || ltb 1024 length then raise (invalid (codes "Invalid target length")) else do
    target_buf ←
        with_err
          (eof_as (
            codes "Client disconnected while sending target data (expected "
            ++ u16_to_string length
            ++ codes " bytes)"))
          (read_exact length)
    target_str ← lift (ok_or (from_utf8 target_buf) (invalid (codes "Invalid UTF-8 in target")))
    lift (parse_framed_target target_str)

-- The `??` behind the timeout.
flatten : Option (Result ProxyTarget IoError) → Result ProxyTarget IoError
flatten none = err (record { kind = timed_out; message = codes "Timeout reading target" })
flatten (some r) = r

unfoldable pub parse_target : Io IoError ProxyTarget
unfolding flatten
parse_target = do r ← timeout {E = IoError} 5000 read_target; lift (flatten r)
