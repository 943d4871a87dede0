-- ===== src/Tests/Polls.antt =====
-- stream.rs: a `TunnelStream` that is polled both ways.
use crabby_proxy.Prelude.{ℕ, List, [], ◌∷◌, ◌++◌, length, ◌⊎◌, inl, inr, ok}
use crabby_proxy.Stream.Poll.{pending, ready, AsyncRead, AsyncWrite}
use crabby_proxy.Stream.Poll.Tunnel.{TunnelStream, tunnel_reader, tunnel_writer}
use crabby_proxy.Stream.Poll.Calls.{
  ReadCall, WriteCall, write, flush, shutdown, call_either, run_calls,
}
use crabby_proxy.Stream.Poll.Order.{Separate, run_calls-Separate}

-- It hands out its bytes, all at once.
abbrev reader : AsyncRead (List ℕ)
reader = record {
  poll_read = λ cx buf bytes. (ready (ok tt), record buf { filled = buf.filled ++ bytes }, []);
}

-- It keeps what is written, and is never done with flushing it.
abbrev writer : AsyncWrite (List ℕ)
writer = record {
  poll_write = λ cx bs kept. (ready (ok (length bs)), kept ++ bs);
  poll_flush = λ cx kept. (pending, kept);
  poll_shutdown = λ cx kept. (ready (ok tt), kept);
}

abbrev polled : TunnelStream (List ℕ) (List ℕ)
polled = record { read = 1 ∷ 2 ∷ []; write = [] }

abbrev calls : List (ReadCall ⊎ WriteCall)
calls =
    inr (write 0 (7 ∷ []))
    ∷ inl (record { context = 0; buf = record { filled = []; capacity = 8 } })
    ∷ inr (flush 0)
    ∷ inr (write 0 (8 ∷ 9 ∷ []))
    ∷ inl (record { context = 0; buf = record { filled = 1 ∷ []; capacity = 8 } })
    ∷ inr (shutdown 0)
    ∷ []

run_calls-Separate_example :
    Separate reader writer calls polled
      (run_calls (call_either (tunnel_reader reader) (tunnel_writer writer)) calls polled)
run_calls-Separate_example = run_calls-Separate reader writer calls polled
