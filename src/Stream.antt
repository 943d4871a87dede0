-- ===== src/Stream.antt =====
-- stream.rs: `TunnelStream` with its relay, and the tunnel of two relays. The source of a relay is
-- the read half of one stream, its sink the write half of another.
pub mod Poll
pub mod Relay
pub mod Due
pub mod Join
pub mod Async
use crabby_proxy.Prelude.{
  ℕ, zero, suc, ◌+◌, ◌%◌, ◌^◌, Bool, true, false, Option, none, some, List, [], ◌∷◌, length,
}
use crabby_proxy.Net.{IoError, Stream}
use crabby_proxy.Net.Io.{Outcome, done, failed, elapsed}
use crabby_proxy.Net.Read.{read, write_all, shutdown}
use crabby_proxy.Net.Common.{fuel_of}

-- A relay that runs on with its count of bytes, has ended, or has failed.
pub data Status : Type 0 where
  running finished : ℕ → Status
  broken : IoError → Status

pub record TunnelStream : Type 0 where
  pub source : Stream
  pub sink : Stream
  pub status : Status

-- `TunnelStream::new`, with the count of the relay to come.
unfoldable pub new : Stream → Stream → TunnelStream
new source sink = record { source = source; sink = sink; status = running 0 }

-- `self.write.shutdown().await?; Ok(total)`.
pub close_sink : ℕ → TunnelStream → Outcome IoError (Unit {0}) × Stream → TunnelStream
close_sink total t (done u, sink) = record t { sink = sink; status = finished total }
close_sink total t (failed e, sink) = record t { sink = sink; status = broken e }
close_sink total t (elapsed, sink) = record t { sink = sink }

-- `total += n as u64`, behind `write_all`.
pub wrote : ℕ → ℕ → TunnelStream → Outcome IoError (Unit {0}) × Stream → TunnelStream
wrote total n t (done u, sink) = record t { sink = sink; status = running ((total + n) % 2 ^ 64) }
wrote total n t (failed e, sink) = record t { sink = sink; status = broken e }
wrote total n t (elapsed, sink) = record t { sink = sink }

-- Behind the read of a buffer of bytes.
pub pass_on : ℕ → TunnelStream → Outcome IoError (List ℕ) × Stream → TunnelStream
unfolding close_sink wrote
pass_on total t (done [], source) =
    close_sink total (record t { source = source }) (shutdown t.sink)
pass_on total t (done (b ∷ bs), source) =
    wrote total (length (b ∷ bs)) (record t { source = source }) (write_all (b ∷ bs) t.sink)
pass_on total t (failed e, source) = record t { source = source; status = broken e }
pass_on total t (elapsed, source) = record t { source = source }

pub round_of : ℕ → Status → TunnelStream → TunnelStream
unfolding pass_on
round_of size (running total) t = pass_on total t (read size t.source)
round_of size (finished total) t = t
round_of size (broken e) t = t

-- One round of the loop of a relay with a buffer of `size` bytes; nothing, once the relay is over.
unfoldable pub round : ℕ → TunnelStream → TunnelStream
unfolding round_of
round size t = round_of size t.status t

unfoldable pub rounds : ℕ → ℕ → TunnelStream → TunnelStream
rounds size zero t = t
rounds size (suc n) t = rounds size n (round size t)

-- `relay_with_logging`, and `relay_with_tunnel_stream`, which calls it: every round but the last
-- takes a byte.
unfoldable pub relay_with_logging : TunnelStream → TunnelStream
relay_with_logging t = rounds 1024 (fuel_of t.source) t

-- `create_bidirectional_tunnel`: each relay reads from one stream and writes to the other.
pub record Tunnel : Type 0 where
  pub first : TunnelStream
  pub second : TunnelStream

unfoldable pub bidirectional : Stream → Stream → Tunnel
unfolding new
bidirectional stream1 stream2 = record { first = new stream1 stream2; second = new stream2 stream1 }

-- `try_join!` runs rounds of the two relays in some order, until both have ended or one has failed.
abbrev pub joined : Status → Status → Option (Outcome IoError (ℕ × ℕ))
joined (broken e) s = some (failed e)
joined s (broken e) = some (failed e)
joined (finished a) (finished b) = some (done (a, b))
joined _ _ = none

unfoldable pub join_rounds : ℕ → List Bool → Tunnel → Tunnel
join_rounds size [] t = t
join_rounds size (which ∷ schedule) t = elim (joined t.first.status t.second.status) [
  | some over ↦ t
  | none ↦ elim which [
    | true ↦ join_rounds size schedule (record t { first = round size t.first })
    | false ↦ join_rounds size schedule (record t { second = round size t.second })
  ]
]

unfoldable pub try_join : List Bool → Tunnel → Tunnel
try_join schedule t = join_rounds 1024 schedule t
