-- ===== src/Net.antt =====
-- The sockets of the operating system as tokio hands them to the proxy, and its `async` code. A
-- stream holds the bytes that have arrived, what is still to come and what has been written. What
-- is to come is a finite history, chosen by the peer and the network: the peer closes at its end.
pub mod Io
pub mod Read
pub mod Common
pub mod Address
use crabby_proxy.Prelude.{ℕ, Bool, List, Option, Result}

-- `io::ErrorKind`, as far as the program tells kinds apart.
pub data ErrorKind : Type 0 where
  unexpected_eof invalid_data timed_out other : ErrorKind

pub record IoError : Type 0 where
  pub kind : ErrorKind
  pub message : List ℕ

-- An address with its port: four bytes, or sixteen.
pub data SocketAddr : Type 0 where
  v4 v6 : List ℕ → ℕ → SocketAddr

-- Bytes that arrive, a number of milliseconds in which nothing does, or a failure.
pub data Event : Type 0 where
  arrive : List ℕ → Event
  pause : ℕ → Event
  fail : IoError → Event

-- What becomes of one `write_all`: all is taken, or an error after some bytes.
pub data Fate : Type 0 where
  taken : Fate
  broken : ℕ → IoError → Fate

-- `ClientStream` of stream.rs: a TCP connection, or the plain text of a TLS session over one.
pub data StreamKind : Type 0 where
  plain tls : StreamKind

pub record Stream : Type 0 where
  pub kind : StreamKind
  pub peer_addr : Result SocketAddr IoError
  pub ready : List ℕ
  pub incoming : List Event
  pub sent : List ℕ
  pub fates : List Fate
  pub is_shut : Bool
  -- The milliseconds that are left of the `timeout` around the running code, if there is one.
  pub deadline : Option ℕ

-- What `accept` of a listener returns, time after time, until the process ends.
abbrev pub Accepts : Type 0
Accepts = List (Result (Stream × SocketAddr) IoError)
