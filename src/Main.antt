-- ===== src/Main.antt =====
-- main.rs: the arguments of the command line, and the start of the proxy.
pub mod Start
pub mod Serving
use crabby_proxy.Prelude.{
  ℕ, ◌^◌, Bool, true, false, not, ◌&&◌, ◌||◌, Option, none, some, is_some, List, ◌++◌, ltb, Result,
  ok, err,
}
use crabby_proxy.Text.{codes}
use crabby_proxy.Text.Decimal.{u32_to_string}
use crabby_proxy.Net.{IoError, SocketAddr, Accepts}
use crabby_proxy.Net.Address.{parse_socket_addr}
use crabby_proxy.App.{AppState, TlsAcceptor, new_state}
use crabby_proxy.Utils.Tls.{TlsLibrary, LoadError, create_tls_acceptor}
use crabby_proxy.Proxy.Listener.{ClientTask, run_proxy_server}

pub record Args : Type 0 where
  pub no_creds : Bool
  pub username : Option (List ℕ)
  pub password : Option (List ℕ)
  pub proxy_port : ℕ
  pub tls_certificate : Option (List ℕ)
  pub tls_private_key : Option (List ℕ)

-- What `clap` accepts, by the attributes of the fields: a user name and a password are
-- `required_unless_present` `no_creds`, a private key `requires` a certificate, and the port is a `u32`.
unfoldable pub is_accepted : Args → Bool
is_accepted args =
    (args.no_creds || is_some args.username)
    && (args.no_creds || is_some args.password)
    && (not (is_some args.tls_private_key) || is_some args.tls_certificate)
    && ltb args.proxy_port (2 ^ 32)

-- How `main` ends: the arguments are refused, an `unwrap` panics, or the task of the proxy runs, with
-- the tasks that it spawns.
pub data Run : Type 0 where
  usage panicked : Run
  ran : AppState → SocketAddr → Option (List ClientTask) → Run

-- `if let (Some(cert_path), Some(key_path)) = ...`; the error is the one that `unwrap` meets.
pub tls_acceptor_of :
    TlsLibrary → Option (List ℕ) → Option (List ℕ) → Result (Option TlsAcceptor) LoadError
tls_acceptor_of lib (some cert_path) (some key_path) =
    elim (create_tls_acceptor lib cert_path key_path) [
      | ok acceptor ↦ ok (some acceptor)
      | err e ↦ err e
    ]
tls_acceptor_of lib (some cert_path) none = ok none
tls_acceptor_of lib none key = ok none

-- The text that `addr.parse()` reads.
unfoldable pub listen_addr : ℕ → List ℕ
listen_addr proxy_port = codes "0.0.0.0:" ++ u32_to_string proxy_port

module _ (bind : SocketAddr → Result Accepts IoError) (notify_tx : ℕ) (args : Args) where
  -- With the acceptor, before the address is parsed.
  serve_at : Option TlsAcceptor → Option SocketAddr → Run
  serve_at tls_acceptor none = panicked
  serve_at tls_acceptor (some addr) = ran state addr (run_proxy_server bind state addr)
    where
      state : AppState
      state = new_state notify_tx (not args.no_creds) args.username args.password tls_acceptor

  start : Result (Option TlsAcceptor) LoadError → Run
  unfolding serve_at
  start (err e) = panicked
  start (ok tls_acceptor) = serve_at tls_acceptor (parse_socket_addr (listen_addr args.proxy_port))

unfoldable pub main : TlsLibrary → (SocketAddr → Result Accepts IoError) → ℕ → Args → Run
unfolding start tls_acceptor_of
main lib bind notify_tx args = elim (is_accepted args) [
  | false ↦ usage
  | true ↦ start bind notify_tx args (tls_acceptor_of lib args.tls_certificate args.tls_private_key)
]
