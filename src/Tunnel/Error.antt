-- ===== src/Tunnel/Error.antt =====
-- tunnel/error.rs, and the `Display` of `PortAllocError` in tunnel/port_allocator.rs, which the
-- conversion of the last kind of error calls.
use crabby_proxy.Prelude.{ℕ, List, ◌++◌}
use crabby_proxy.Text.{codes}
use crabby_proxy.Text.Decimal.{u16_to_string}
use crabby_proxy.Tunnel.PortAllocator.{PortAllocError}

pub data TunnelError : Type 0 where
  bind_error : ℕ → List ℕ → TunnelError
  client_connection_error : List ℕ → List ℕ → TunnelError
  allocation_error : List ℕ → TunnelError
  port_in_use : ℕ → TunnelError
  port_out_of_range : ℕ → ℕ → ℕ → TunnelError
  no_ports_available : ℕ → ℕ → TunnelError
  tunnel_not_found : ℕ → TunnelError
  port_release_error : ℕ → List ℕ → TunnelError
  data_transfer_error : List ℕ → TunnelError
  io_error : List ℕ → TunnelError
  operation_failed : List ℕ → TunnelError

-- `Display` of a `PortAllocError`.
unfoldable pub alloc_error_to_string : PortAllocError → List ℕ
alloc_error_to_string (PortAllocError.port_out_of_range port lo hi) =
    codes "Port "
    ++ u16_to_string port
    ++ codes " is out of allowed range ("
    ++ u16_to_string lo
    ++ codes "-"
    ++ u16_to_string hi
    ++ codes ")"
alloc_error_to_string (PortAllocError.port_unavailable port) =
    codes "Port " ++ u16_to_string port ++ codes " is already allocated"
alloc_error_to_string (PortAllocError.no_ports_available lo hi) =
    codes "No available ports in the range " ++ u16_to_string lo ++ codes "-" ++ u16_to_string hi
alloc_error_to_string (PortAllocError.port_not_allocated port) =
    codes "Port " ++ u16_to_string port ++ codes " is not currently allocated"

-- `From<PortAllocError> for TunnelError`.
unfoldable pub from_alloc_error : PortAllocError → TunnelError
from_alloc_error (PortAllocError.port_out_of_range port lo hi) = port_out_of_range port lo hi
from_alloc_error (PortAllocError.port_unavailable port) = port_in_use port
from_alloc_error (PortAllocError.no_ports_available lo hi) = no_ports_available lo hi
from_alloc_error e = allocation_error (alloc_error_to_string e)
