-- ===== src/Stream/Poll.antt =====
-- stream.rs: the traits `AsyncRead` and `AsyncWrite` of tokio, which the streams implement.
pub mod Client
pub mod Tunnel
pub mod Calls
pub mod Order
use crabby_proxy.Prelude.{ℕ, List, Result}
use crabby_proxy.Net.{IoError}

pub data Poll {ℓ} (A : Type ℓ) : Type ℓ where
  pending : Poll A
  ready : A → Poll A

-- The context of a task, named by a number: whom to wake.
abbrev pub Context : Type 0
Context = ℕ

-- The bytes that a buffer holds, and how many it can hold.
pub record ReadBuf : Type 0 where
  pub filled : List ℕ
  pub capacity : ℕ

pub record AsyncRead {ℓ} (R : Type ℓ) : Type ℓ where
  pub poll_read : Context → ReadBuf → R → Poll (Result (Unit {0}) IoError) × ReadBuf × R

pub record AsyncWrite {ℓ} (W : Type ℓ) : Type ℓ where
  pub poll_write : Context → List ℕ → W → Poll (Result ℕ IoError) × W
  pub poll_flush : Context → W → Poll (Result (Unit {0}) IoError) × W
  pub poll_shutdown : Context → W → Poll (Result (Unit {0}) IoError) × W
