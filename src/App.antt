-- ===== src/App.antt =====
-- app_state.rs: what all connections share. The channel `notify_tx` is named by a number.
use crabby_proxy.Prelude.{ℕ, Bool, Option, List, Result}
use crabby_proxy.Net.{IoError, Stream}
use crabby_proxy.Connection.Manager.{ConnectionManager}
use crabby_proxy.Connection.Manager

-- The TLS handshake of the library: the session over a connection, or an error.
abbrev pub TlsAcceptor : Type 0
TlsAcceptor = Stream → Result Stream IoError

pub record AppState : Type 0 where
  pub connections : ConnectionManager
  pub notify_tx : ℕ
  pub require_creds : Bool
  pub username : Option (List ℕ)
  pub password : Option (List ℕ)
  pub tls_acceptor : Option TlsAcceptor

-- `AppState::new`.
unfoldable pub new_state :
    ℕ → Bool → Option (List ℕ) → Option (List ℕ) → Option TlsAcceptor → AppState
new_state notify_tx require_creds username password tls_acceptor = record {
  connections = Manager.new;
  notify_tx = notify_tx;
  require_creds = require_creds;
  username = username;
  password = password;
  tls_acceptor = tls_acceptor;
}
