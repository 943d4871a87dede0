-- ===== src/Net/Read.antt =====
-- `peek`, `read`, `read_exact`, `write`, `write_all` and `shutdown` of a stream.
pub mod Delivery
pub mod Steps
pub mod Peek
pub mod Ready
pub mod Soon
pub mod Settled
pub mod Chunk
pub mod Untimed
use crabby_proxy.Prelude.{
  ℕ, ◌-◌, ◌≡◌, ◌≤◌, ◌+◌, refl, true, Option, none, some, List, [], ◌∷◌, ◌++◌, ltb, leb,
  if◌then◌else◌, length, take, drop, Result, ok, err, arith, length-append,
}
use crabby_proxy.Text.{codes}
use crabby_proxy.Net.{
  IoError, unexpected_eof, SocketAddr, Event, arrive, pause, fail, Fate, taken, broken, Stream,
}
use crabby_proxy.Net.Io.{Io, Outcome, done, failed, elapsed, as_result}

-- `io::Error::new(kind, message)` of a read that meets the end.
abbrev pub early_eof : IoError
early_eof = record { kind = unexpected_eof; message = codes "early eof" }

-- Between two calls all that is to come before the next pause or failure arrives.
pub settle : List ℕ → List Event → List ℕ × List Event
settle ready (arrive bs ∷ es) = settle (ready ++ bs) es
settle ready es = (ready, es)

-- What waiting comes to: bytes, the end, a failure, or the end of the time.
pub data Arrival : Type 0 where
  bytes : List ℕ → List Event → Option ℕ → Arrival
  closed : Option ℕ → Arrival
  lost : IoError → List Event → Option ℕ → Arrival
  late : List Event → Arrival

-- Wait until at least `n` bytes are ready.
pub await : ℕ → Option ℕ → List ℕ → List Event → Arrival
await n d ready [] = if leb n (length ready) then bytes ready [] d else closed d
await n d ready (arrive bs ∷ es) =
    let more = await n d (ready ++ bs) es in
    if leb n (length ready) then bytes ready (arrive bs ∷ es) d else more
await n d ready (fail e ∷ es) =
    if leb n (length ready) then bytes ready (fail e ∷ es) d else lost e es d
await n none ready (pause t ∷ es) =
    let more = await n none ready es in
    if leb n (length ready) then bytes ready (pause t ∷ es) none else more
await n (some d) ready (pause t ∷ es) =
    let more = await n (some (d - t)) ready es in
    if leb n (length ready)
    then bytes ready (pause t ∷ es) (some d)
    else if ltb t d
    then more
    else late (pause (t - d) ∷ es)

-- The stream with new contents, after which more may arrive.
restock : List ℕ → List Event → Option ℕ → Stream → Stream
unfolding settle
restock ready es d s =
    let (ready', es') = settle ready es in record s { ready = ready'; incoming = es'; deadline = d }

-- Bytes that a call had taken when it failed or was dropped are gone.
starved : Arrival → Stream → Stream
unfolding restock
starved (lost e es d) s = restock [] es d s
starved (late es) s = record s { ready = []; incoming = es; deadline = some 0 }
starved _ s = record s { ready = []; incoming = [] }

peek_outcome : ℕ → Arrival → Outcome IoError (List ℕ)
peek_outcome n (bytes ready es d) = done (take n ready)
peek_outcome n (closed d) = done []
peek_outcome n (lost e es d) = failed e
peek_outcome n (late es) = elapsed

pub peek_stream : Arrival → Stream → Stream
unfolding restock starved
peek_stream (bytes ready es d) s = restock ready es d s
peek_stream a s = starved a s

-- Up to `n` bytes, at least one unless the stream has ended; they stay in the stream.
unfoldable pub peek : ℕ → Io IoError (List ℕ)
unfolding peek_outcome peek_stream await
peek n s = let a = await 1 s.deadline s.ready s.incoming in (peek_outcome n a, peek_stream a s)

pub read_stream : ℕ → Arrival → Stream → Stream
unfolding restock starved
read_stream n (bytes ready es d) s = restock (drop n ready) es d s
read_stream n a s = starved a s

-- Up to `n` bytes, at least one unless the stream has ended.
unfoldable pub read : ℕ → Io IoError (List ℕ)
unfolding peek_outcome read_stream await
read n s = let a = await 1 s.deadline s.ready s.incoming in (peek_outcome n a, read_stream n a s)

exact_outcome : ℕ → Arrival → Outcome IoError (List ℕ)
exact_outcome n (bytes ready es d) = done (take n ready)
exact_outcome n (closed d) = failed early_eof
exact_outcome n (lost e es d) = failed e
exact_outcome n (late es) = elapsed

-- `n` bytes.
unfoldable pub read_exact : ℕ → Io IoError (List ℕ)
unfolding exact_outcome read_stream await
read_exact n s =
    let a = await n s.deadline s.ready s.incoming in (exact_outcome n a, read_stream n a s)

-- The bytes that get through before the write fails stay written.
pub write_fate : List ℕ → List Fate → Stream → Outcome IoError (Unit {0}) × Stream
write_fate bs [] s = (done tt, record s { sent = s.sent ++ bs })
write_fate bs (taken ∷ fs) s = (done tt, record s { sent = s.sent ++ bs; fates = fs })
write_fate bs (broken k e ∷ fs) s = (failed e, record s { sent = s.sent ++ take k bs; fates = fs })

unfoldable pub write_all : List ℕ → Io IoError (Unit {0})
unfolding write_fate
write_all bs s = write_fate bs s.fates s

-- One `write` takes some of the bytes, as many as the socket has room for, or fails with none taken.
pub write_some_fate : List ℕ → List Fate → Stream → Outcome IoError ℕ × Stream
write_some_fate bs [] s = (done (length bs), record s { sent = s.sent ++ bs })
write_some_fate bs (taken ∷ fs) s = (done (length bs), record s { sent = s.sent ++ bs; fates = fs })
write_some_fate bs (broken k e ∷ fs) s = (failed e, record s { fates = fs })

unfoldable pub write : ℕ → List ℕ → Io IoError ℕ
unfolding write_some_fate
write room bs s = write_some_fate (take room bs) s.fates s

pub shut_fate : List Fate → Stream → Outcome IoError (Unit {0}) × Stream
shut_fate [] s = (done tt, record s { is_shut = true })
shut_fate (taken ∷ fs) s = (done tt, record s { is_shut = true; fates = fs })
shut_fate (broken k e ∷ fs) s = (failed e, record s { fates = fs })

unfoldable pub shutdown : Io IoError (Unit {0})
unfolding shut_fate
shutdown s = shut_fate s.fates s

-- `stream.get_ref().0.peer_addr()?`.
abbrev pub peer_addr : Io IoError SocketAddr
peer_addr s = elim s.peer_addr [ ok a ↦ (done a, s) | err e ↦ (failed e, s) ]
