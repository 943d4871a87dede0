-- ===== src/Stream/Poll/Client.antt =====
-- stream.rs, `ClientStream`: a connection over plain TCP, or one over TLS.
use crabby_proxy.Prelude.{ℕ, List, Result}
use crabby_proxy.Net.{IoError}
use crabby_proxy.Stream.Poll.{Poll, Context, ReadBuf, AsyncRead, AsyncWrite}

pub data ClientStream {ℓ κ} (A : Type ℓ) (B : Type κ) : Type (ℓ ⊔ κ) where
  plain : A → ClientStream A B
  tls : B → ClientStream A B

module _ {ℓ κ} {A : Type ℓ} {B : Type κ} where
  -- What a call leaves, with the same kind of stream around it.
  abbrev with_plain {η} : {X : Type η} → X × A → X × ClientStream A B
  with_plain (x, stream) = (x, plain stream)

  abbrev with_tls {η} : {X : Type η} → X × B → X × ClientStream A B
  with_tls (x, stream) = (x, tls stream)

  module _ (tcp_read : AsyncRead A) (tls_read : AsyncRead B) where
    poll_read :
        Context
        → ReadBuf
        → ClientStream A B
        → Poll (Result (Unit {0}) IoError) × ReadBuf × ClientStream A B
    poll_read cx buf (plain stream) =
        let (answer, buf', stream') = tcp_read.poll_read cx buf stream in
        (answer, buf', plain stream')
    poll_read cx buf (tls stream) =
        let (answer, buf', stream') = tls_read.poll_read cx buf stream in
        (answer, buf', tls stream')

    unfoldable pub client_reader : AsyncRead (ClientStream A B)
    unfolding poll_read
    client_reader = record { poll_read = poll_read }

  module _ (tcp_write : AsyncWrite A) (tls_write : AsyncWrite B) where
    poll_write : Context → List ℕ → ClientStream A B → Poll (Result ℕ IoError) × ClientStream A B
    poll_write cx buf (plain stream) = with_plain (tcp_write.poll_write cx buf stream)
    poll_write cx buf (tls stream) = with_tls (tls_write.poll_write cx buf stream)

    poll_flush : Context → ClientStream A B → Poll (Result (Unit {0}) IoError) × ClientStream A B
    poll_flush cx (plain stream) = with_plain (tcp_write.poll_flush cx stream)
    poll_flush cx (tls stream) = with_tls (tls_write.poll_flush cx stream)

    poll_shutdown : Context → ClientStream A B → Poll (Result (Unit {0}) IoError) × ClientStream A B
    poll_shutdown cx (plain stream) = with_plain (tcp_write.poll_shutdown cx stream)
    poll_shutdown cx (tls stream) = with_tls (tls_write.poll_shutdown cx stream)

    unfoldable pub client_writer : AsyncWrite (ClientStream A B)
    unfolding poll_write poll_flush poll_shutdown
    client_writer = record {
      poll_write = poll_write;
      poll_flush = poll_flush;
      poll_shutdown = poll_shutdown;
    }
