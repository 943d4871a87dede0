-- ===== src/Stream/Poll/Tunnel.antt =====
-- stream.rs, `TunnelStream`: a reader and a writer taken for one stream.
use crabby_proxy.Prelude.{ℕ, List, Result}
use crabby_proxy.Net.{IoError}
use crabby_proxy.Stream.Poll.{Poll, Context, ReadBuf, AsyncRead, AsyncWrite}

pub record TunnelStream {ℓ κ} (R : Type ℓ) (W : Type κ) : Type (ℓ ⊔ κ) where
  pub read : R
  pub write : W

module _ {ℓ κ} {R : Type ℓ} {W : Type κ} where
  abbrev with_write {η} : {X : Type η} → TunnelStream R W → X × W → X × TunnelStream R W
  with_write t (x, write) = (x, record t { write = write })

  module _ (reader : AsyncRead R) where
    poll_read :
        Context
        → ReadBuf
        → TunnelStream R W
        → Poll (Result (Unit {0}) IoError) × ReadBuf × TunnelStream R W
    poll_read cx buf t =
        let (answer, buf', read) = reader.poll_read cx buf t.read in
        (answer, buf', record t { read = read })

    unfoldable pub tunnel_reader : AsyncRead (TunnelStream R W)
    unfolding poll_read
    tunnel_reader = record { poll_read = poll_read }

  module _ (writer : AsyncWrite W) where
    poll_write : Context → List ℕ → TunnelStream R W → Poll (Result ℕ IoError) × TunnelStream R W
    poll_write cx buf t = with_write t (writer.poll_write cx buf t.write)

    poll_flush : Context → TunnelStream R W → Poll (Result (Unit {0}) IoError) × TunnelStream R W
    poll_flush cx t = with_write t (writer.poll_flush cx t.write)

    poll_shutdown : Context → TunnelStream R W → Poll (Result (Unit {0}) IoError) × TunnelStream R W
    poll_shutdown cx t = with_write t (writer.poll_shutdown cx t.write)

    unfoldable pub tunnel_writer : AsyncWrite (TunnelStream R W)
    unfolding poll_write poll_flush poll_shutdown
    tunnel_writer = record {
      poll_write = poll_write;
      poll_flush = poll_flush;
      poll_shutdown = poll_shutdown;
    }
