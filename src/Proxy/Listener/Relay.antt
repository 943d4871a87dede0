-- ===== src/Proxy/Listener/Relay.antt =====
-- proxy/listener.rs, `relay_with_tunnel_stream`: it does what `relay_with_logging` of stream.rs does.
use crabby_proxy.Prelude.{ℕ, zero, suc, ◌+◌, ◌%◌, ◌^◌, ◌≡◌, refl, none, ◌∷◌, length}
use crabby_proxy.Net.{IoError, Stream}
use crabby_proxy.Net.Io.{Outcome, done, failed, elapsed}
use crabby_proxy.Net.Common.{fuel_of}
use crabby_proxy.Stream.Async.{tunnel_read, tunnel_write_all, tunnel_shutdown}
use crabby_proxy.Stream.{
  Status, running, finished, TunnelStream, new, round, rounds, relay_with_logging,
}
use crabby_proxy.Net.Read.Untimed.{
  at_end, some_bytes, fault, read-Untimed, all_taken, refused, shutdown-Wrote, write_all-Wrote,
}
use crabby_proxy.Stream.Relay.{at, rounds-finished}
use crabby_proxy.Stream.Due.{rounds-broken}
use crabby_proxy.Proxy.Listener.{relay_with_tunnel_stream, relay_loop, turn, after_read}

-- The result that a status stands for.
abbrev pub outcome_of : Status → Outcome IoError ℕ
outcome_of (running total) = elapsed
outcome_of (finished total) = done total
outcome_of (Status.broken e) = failed e

-- A result and the streams that go with it.
pub record Agree (end : Outcome IoError ℕ × TunnelStream) (t : TunnelStream) : Type 0 where
  pub outcome : end.0 ≡ outcome_of t.status
  pub source : end.1.source ≡ t.source
  pub sink : end.1.sink ≡ t.sink

Agree-over :
    (fuel : ℕ) (r : Outcome IoError ℕ) (u t : TunnelStream)
    → rounds 1024 fuel t ≡ t
    → r ≡ outcome_of t.status
    → u.source ≡ t.source
    → u.sink ≡ t.sink
    → Agree (r, u) (rounds 1024 fuel t)
Agree-over fuel r u t over o e f = rw over (record { outcome = o; source = e; sink = f })

relay_loop-Agree :
    (fuel total : ℕ) (source sink : Stream) (status : Status)
    → source.deadline ≡ none
    → Agree
        (relay_loop fuel total (record { source = source; sink = sink; status = status }))
        (rounds 1024 fuel (at total source sink))
unfolding relay_loop turn after_read rounds round at tunnel_read tunnel_write_all tunnel_shutdown
relay_loop-Agree zero total source sink status idle = record {
  outcome = refl;
  source = refl;
  sink = refl;
}
relay_loop-Agree (suc fuel) total source sink status idle = elim (read-Untimed 1024 source idle) [
  | at_end s r d ↦ elim (shutdown-Wrote sink) [
    | all_taken k w ↦
        rw (r, w) (Agree-over fuel _ _ _ (rounds-finished 1024 fuel total _ refl) refl refl refl)
    | refused e k w ↦
        rw (r, w) (Agree-over fuel _ _ _ (rounds-broken 1024 fuel e _ refl) refl refl refl)
  ]
  | some_bytes b bs s r d ↦ elim (write_all-Wrote (b ∷ bs) sink) [
    | all_taken k w ↦
        rw (r, w) (relay_loop-Agree fuel ((total + length (b ∷ bs)) % 2 ^ 64) s k status d)
    | refused e k w ↦
        rw (r, w) (Agree-over fuel _ _ _ (rounds-broken 1024 fuel e _ refl) refl refl refl)
  ]
  | fault x s r ↦ rw r (Agree-over fuel _ _ _ (rounds-broken 1024 fuel x _ refl) refl refl refl)
]

-- The listener's `relay_with_tunnel_stream` and `relay_with_logging`, on the same source and the same sink
-- and with no `timeout` around them, come to the same result, error or count, and leave the source and the
-- sink alike, whatever the source delivers and wherever a read or a write fails.
pub relay_with_tunnel_stream-Agree :
    (source sink : Stream)
    → source.deadline ≡ none
    → Agree (relay_with_tunnel_stream (new source sink)) (relay_with_logging (new source sink))
unfolding relay_with_tunnel_stream relay_with_logging new at
relay_with_tunnel_stream-Agree source sink idle =
    relay_loop-Agree (fuel_of source) 0 source sink (running 0) idle
