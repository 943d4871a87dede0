-- ===== src/Connection/Types.antt =====
-- The data types of connection.rs. A `Uuid` (128 bits), an `Instant` and the two ends of a
-- `oneshot` channel are numbers that name them.
use crabby_proxy.Prelude.{ℕ, Option, List}
use crabby_proxy.Proxy.Protocol.{ProxyProtocol, ProxyTarget}
use crabby_proxy.Net.{SocketAddr}

pub data ConnectionState : Type 0 where
  pending approved rejected active closed : ConnectionState

pub data DbType : Type 0 where
  postgres my_sql redis mongo_db : DbType
  custom : List ℕ → DbType

-- The kinds of local service that a reverse tunnel exposes.
pub data ServiceType : Type 0 where
  database : DbType → ServiceType
  web_service ssh_service : ServiceType
  custom : List ℕ → ServiceType

pub data ConnectionType : Type 0 where
  forward : ProxyTarget → ProxyProtocol → ConnectionType
  reverse_tunnel : ServiceType → Option ℕ → ConnectionType

pub data ConnectionApproval : Type 0 where
  approved : ConnectionApproval
  approved_with_port : ℕ → ConnectionApproval
  rejected : List ℕ → ConnectionApproval

pub data ConnectionError : Type 0 where
  not_found invalid_state : ConnectionError

pub record ConnectionRequest : Type 0 where
  pub id : ℕ
  pub client_addr : SocketAddr
  pub connection_type : ConnectionType
  pub state : ConnectionState
  pub decision_tx : Option ℕ
