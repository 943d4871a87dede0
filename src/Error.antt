-- ===== src/Error.antt =====
-- error.rs, with the errors of `anyhow` that the program makes.
use crabby_proxy.Prelude.{List, ℕ, Result}
use crabby_proxy.Net.{IoError, SocketAddr}

-- `anyhow!(message)`, or an error with a context: its text, and the address that ends the text.
pub data AnyError : Type 0 where
  message : List ℕ → AnyError
  context : List ℕ → Result SocketAddr IoError → IoError → AnyError

pub data ProxyError : Type 0 where
  connection_refused ipv6_not_supported internal_error bad_request : ProxyError
  timeout payload_too_large : ProxyError
  bad_gateway disconnected : AnyError → ProxyError
