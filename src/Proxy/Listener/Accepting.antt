-- ===== src/Proxy/Listener/Accepting.antt =====
-- proxy/listener.rs, `run_proxy_server`, and tunnel/manager.rs, `tunnel_listener_task`: a failed `accept`.
use crabby_proxy.Prelude.{
  ℕ, ◌≡◌, refl, sym, ap, Option, none, some, List, [], ◌∷◌, ◌++◌, map, Result, ok, err,
}
use crabby_proxy.Text.{codes}
use crabby_proxy.Text.Decimal.{u16_to_string}
use crabby_proxy.Net.{IoError, SocketAddr, Stream, Accepts}
use crabby_proxy.App.{AppState}
use crabby_proxy.Proxy.Listener.{ClientTask, accept_clients, run_proxy_server}
use crabby_proxy.Tunnel.Listener.{ConnectionTask, accept_connections, tunnel_listener_task}

-- Connections that were accepted without an error in between.
abbrev pub accepted : List (Stream × SocketAddr) → Accepts
accepted [] = []
accepted (c ∷ cs) = ok c ∷ accepted cs

abbrev pub client_task : AppState → Stream × SocketAddr → ClientTask
client_task state (stream, addr) = record {
  client_stream = stream;
  client_addr = addr;
  state = state;
}

abbrev pub connection_task : SocketAddr → Stream × SocketAddr → ConnectionTask
connection_task target_addr (stream, addr) = record { inbound = stream; target_addr = target_addr }

accept_clients-error :
    (state : AppState) (before : List (Stream × SocketAddr)) (e : IoError) (after : Accepts)
    → accept_clients state (accepted before ++ err e ∷ after) ≡ map (client_task state) before
unfolding accept_clients
accept_clients-error state [] e after = refl
accept_clients-error state (c ∷ cs) e after =
    ap (λ tasks. client_task state c ∷ tasks) (accept_clients-error state cs e after)

accept_connections-accepted :
    (target_addr : SocketAddr) (cs : List (Stream × SocketAddr))
    → accept_connections target_addr (accepted cs) ≡ map (connection_task target_addr) cs
unfolding accept_connections
accept_connections-accepted target_addr [] = refl
accept_connections-accepted target_addr (c ∷ cs) =
    ap (λ tasks. connection_task target_addr c ∷ tasks) (accept_connections-accepted target_addr cs)

accept_connections-error :
    (target_addr : SocketAddr) (before after : List (Stream × SocketAddr)) (e : IoError)
    → accept_connections target_addr (accepted before ++ err e ∷ accepted after)
      ≡ map (connection_task target_addr) (before ++ after)
unfolding accept_connections
accept_connections-error target_addr [] after e = accept_connections-accepted target_addr after
accept_connections-error target_addr (c ∷ cs) after e =
    ap (λ tasks. connection_task target_addr c ∷ tasks)
      (accept_connections-error target_addr cs after e)

-- When one `accept` fails between two runs of accepted connections, a listener of a tunnel spawns a task
-- for each connection before and after it, with the tunnel's target; the proxy's listener spawns a task for
-- each connection before it, with the shared state, and then ends.
pub accept_error-run_proxy_server :
    (bind : SocketAddr → Result Accepts IoError) (bind_tunnel : List ℕ → Result Accepts IoError)
    (state : AppState) (addr target_addr : SocketAddr) (port : ℕ)
    (before after : List (Stream × SocketAddr)) (e : IoError)
    → bind addr ≡ ok (accepted before ++ err e ∷ accepted after)
    → bind_tunnel (codes "0.0.0.0:" ++ u16_to_string port)
      ≡ ok (accepted before ++ err e ∷ accepted after)
    → (run_proxy_server bind state addr ≡ some (map (client_task state) before))
      × (tunnel_listener_task bind_tunnel port target_addr
          ≡ map (connection_task target_addr) (before ++ after))
unfolding run_proxy_server tunnel_listener_task
accept_error-run_proxy_server bind bind_tunnel state addr target_addr port before after e b c = (
  rw (run_proxy_server, b) (ap some (accept_clients-error state before e (accepted after))),
  rw (tunnel_listener_task, c) (accept_connections-error target_addr before after e),
)

first_state : AppState → List ClientTask → AppState
first_state state [] = state
first_state state (task ∷ tasks) = task.state

-- Every task has the state that all share.
accept_clients-state :
    (state : AppState) (accepts : Accepts) (before after : List ClientTask) (task : ClientTask)
    → accept_clients state accepts ≡ before ++ task ∷ after
    → task.state ≡ state
unfolding accept_clients first_state
accept_clients-state state [] [] after task e = cc
accept_clients-state state [] (x ∷ before) after task e = cc
accept_clients-state state (err x ∷ accepts) [] after task e = cc
accept_clients-state state (err x ∷ accepts) (y ∷ before) after task e = cc
accept_clients-state state (ok (s, a) ∷ accepts) [] after task e = sym (ap (first_state state) e)
accept_clients-state state (ok (s, a) ∷ accepts) (y ∷ before) after task e =
    accept_clients-state state accepts before after task cc

bound-state :
    (state : AppState) (bound : Result Accepts IoError) (before after : List ClientTask)
    (task : ClientTask)
    → some (before ++ task ∷ after) ≡ (elim bound as (λ _. Option (List ClientTask)) [
      | ok accepts ↦ some (accept_clients state accepts)
      | err e ↦ none
    ])
    → task.state ≡ state
bound-state state (ok accepts) before after task e =
    accept_clients-state state accepts before after task cc
bound-state state (err x) before after task e = cc

pub run_proxy_server-state :
    (bind : SocketAddr → Result Accepts IoError) (state : AppState) (addr : SocketAddr)
    (before after : List ClientTask) (task : ClientTask)
    → run_proxy_server bind state addr ≡ some (before ++ task ∷ after)
    → task.state ≡ state
unfolding run_proxy_server
run_proxy_server-state bind state addr before after task e =
    bound-state state (bind addr) before after task (sym e)
