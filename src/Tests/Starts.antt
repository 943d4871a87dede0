-- ===== src/Tests/Starts.antt =====
-- main.rs: a proxy with credentials and a certificate, but no key.
use crabby_proxy.Prelude.{◌≡◌, refl, false, none, some, [], ◌∷◌, Result, ok, err}
use crabby_proxy.Text.{codes}
use crabby_proxy.Net.{SocketAddr, IoError, Accepts, v4, other}
use crabby_proxy.Utils.Tls.{TlsLibrary, create_tls_acceptor}
use crabby_proxy.Utils.Tls.Load.{Acceptor, create_tls_acceptor-Acceptor}
use crabby_proxy.Main.{Args, main, ran, is_accepted, listen_addr}
use crabby_proxy.Main.Start.{Explained, main-Explained}
use crabby_proxy.Main.Serving.{Guarded, main-Guarded}
use crabby_proxy.App.{new_state}
use crabby_proxy.Text.Decimal.{u32_to_string, digits}
use crabby_proxy.Text.Split.{split, split_once}
use crabby_proxy.Net.Address.{parse_socket_addr}
use crabby_proxy.Proxy.Listener.{ClientTask, run_proxy_server}
use crabby_proxy.Tests.Clients.{guarded, server, connect, decode, browser, browser_target}

abbrev args : Args
args = record {
  no_creds = false;
  username = some (b'u' ∷ []);
  password = some (b'p' ∷ []);
  proxy_port = 8080;
  tls_certificate = some (codes "cert.pem");
  tls_private_key = none;
}

-- Every file holds one certificate and one key.
abbrev files : TlsLibrary
files = record {
  open_file = λ path. ok [];
  certs = λ contents. ok (1 ∷ []) ∷ [];
  pkcs8_private_keys = λ contents. ok (2 ∷ []) ∷ [];
  rsa_private_keys = λ contents. [];
  with_single_cert = λ certs key. ok (λ stream. ok stream);
}

abbrev bind : SocketAddr → Result Accepts IoError
bind addr = ok []

main-Explained_example : Explained files bind args (main files bind 0 args)
main-Explained_example = main-Explained files bind args 0

-- The browser connects, and then a connection fails.
abbrev bind_browser : SocketAddr → Result Accepts IoError
bind_browser addr = ok (ok (browser, addr) ∷ err (record { kind = other; message = [] }) ∷ [])

abbrev address : SocketAddr
address = v4 (0 ∷ 0 ∷ 0 ∷ 0 ∷ []) 8080

abbrev task : ClientTask
task = record { client_stream = browser; client_addr = address; state = guarded }

browser_run : main files bind_browser 0 args ≡ ran guarded address (some (task ∷ []))
unfolding main listen_addr parse_socket_addr new_state is_accepted run_proxy_server u32_to_string
    digits split split_once
browser_run = refl

main-Guarded_example : Guarded decode args task
main-Guarded_example =
    main-Guarded files bind_browser args 0 guarded address [] [] task decode connect [] server
      browser_run refl browser_target

create_tls_acceptor-Acceptor_example :
    Acceptor files
      (codes "cert.pem")
      (codes "key.pem")
      (create_tls_acceptor files (codes "cert.pem") (codes "key.pem"))
create_tls_acceptor-Acceptor_example =
    create_tls_acceptor-Acceptor files (codes "cert.pem") (codes "key.pem")
