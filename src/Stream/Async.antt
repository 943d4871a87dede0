-- ===== src/Stream/Async.antt =====
-- stream.rs: `TunnelStream` as a stream of its own, which reads from its source and writes to its sink.
use crabby_proxy.Prelude.{ℕ, List}
use crabby_proxy.Net.{IoError, Stream}
use crabby_proxy.Net.Io.{Outcome}
use crabby_proxy.Net.Read.{read, write_all, shutdown}
use crabby_proxy.Stream.{TunnelStream}

module _ {A : Type 0} where
  abbrev pub with_source :
      TunnelStream → Outcome IoError A × Stream → Outcome IoError A × TunnelStream
  with_source t (r, source) = (r, record t { source = source })

  abbrev pub with_sink :
      TunnelStream → Outcome IoError A × Stream → Outcome IoError A × TunnelStream
  with_sink t (r, sink) = (r, record t { sink = sink })

-- By `poll_read`.
unfoldable pub tunnel_read : ℕ → TunnelStream → Outcome IoError (List ℕ) × TunnelStream
tunnel_read size t = with_source t (read size t.source)

-- By `poll_write`.
unfoldable pub tunnel_write_all : List ℕ → TunnelStream → Outcome IoError (Unit {0}) × TunnelStream
tunnel_write_all bs t = with_sink t (write_all bs t.sink)

-- By `poll_shutdown`.
unfoldable pub tunnel_shutdown : TunnelStream → Outcome IoError (Unit {0}) × TunnelStream
tunnel_shutdown t = with_sink t (shutdown t.sink)
