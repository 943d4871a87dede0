-- ===== src/Net/Common.antt =====
-- What several parts of the program share in reading a stream.
use crabby_proxy.Prelude.{ℕ, suc, zero, ◌+◌, ◌*◌, List, [], ◌∷◌, ◌++◌, length, ◌==◌, true, false}
use crabby_proxy.Net.{
  IoError, invalid_data, Event, arrive, pause, fail, Stream, StreamKind, plain, tls,
}
use crabby_proxy.Net.Io.{Io, elapsed, pure, ◌>>=◌, ◌>>◌}
use crabby_proxy.Net.Read.{peek, read, read_exact, peer_addr}

-- `buf[i]`; the buffers of the source are longer than the index.
abbrev pub byte_at : ℕ → List ℕ → ℕ
byte_at i [] = 0
byte_at zero (b ∷ bs) = b
byte_at (suc i) (b ∷ bs) = byte_at i bs

abbrev pub invalid : List ℕ → IoError
invalid message = record { kind = invalid_data; message = message }

-- `u16::from_be_bytes`.
abbrev pub u16_from_be_bytes : ℕ → ℕ → ℕ
u16_from_be_bytes hi lo = hi * 256 + lo

unfoldable pub bytes_from : List Event → ℕ
bytes_from [] = 0
bytes_from (arrive bs ∷ es) = length bs + bytes_from es
bytes_from (pause t ∷ es) = bytes_from es
bytes_from (fail e ∷ es) = bytes_from es

-- All bytes that a stream can still yield: no loop that takes one in each round goes on longer.
unfoldable pub fuel_of : Stream → ℕ
unfolding bytes_from
fuel_of s = suc (length s.ready + bytes_from s.incoming)

unfoldable pub peek_or_read_as : StreamKind → ℕ → Io IoError (List ℕ)
peek_or_read_as plain n = peek n
peek_or_read_as tls n = do peer_addr; read n

-- "For TLS streams, we need to read instead of peek."
unfoldable pub peek_or_read : ℕ → Io IoError (List ℕ)
unfolding peek_or_read_as
peek_or_read n s = peek_or_read_as s.kind n s

-- `loop { read_exact one byte; if it is 0 break; push it }`. Running out of fuel would be
-- `elapsed`.
unfoldable pub until_nul : ℕ → List ℕ → Io IoError (List ℕ)
until_nul zero user_id = λ s. (elapsed, s)
until_nul (suc fuel) user_id = do
  b ← read_exact 1
  elim (byte_at 0 b == 0) [ true ↦ pure user_id | false ↦ until_nul fuel (user_id ++ b) ]

unfoldable pub read_user_id : Io IoError (List ℕ)
unfolding until_nul
read_user_id s = until_nul (fuel_of s) [] s
