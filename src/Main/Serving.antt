-- ===== src/Main/Serving.antt =====
-- main.rs, proxy/listener.rs: the clients that a started proxy serves.
use crabby_proxy.Prelude.{
  ℕ, ◌≡◌, inl, inr, sym, ap, ◌∙◌, subst, not, Bool, true, false, Option, some, List, ◌∷◌, ◌++◌,
  Result,
}
use crabby_proxy.App.{AppState}
use crabby_proxy.Net.{IoError, SocketAddr, Stream, Accepts}
use crabby_proxy.Utils.Tls.{TlsLibrary}
use crabby_proxy.Proxy.Listener.{ClientTask}
use crabby_proxy.Proxy.Listener.Accepting.{run_proxy_server-state}
use crabby_proxy.Proxy.Detect.{detect_client_protocol}
use crabby_proxy.Proxy.Client.{Connector, handle_client}
use crabby_proxy.Proxy.Client.Gate.{Authenticated, target_needs_auth}
use crabby_proxy.Main.{Args, ran, main}
use crabby_proxy.Main.Start.{Explained, Configured, main-Explained}

-- The task authenticates with credentials that the proxy was started with.
pub record Guarded (decode : List ℕ → Option (List ℕ)) (args : Args) (task : ClientTask)
    : Type 0 where
  pub username : List ℕ
  pub password : List ℕ
  pub given_username : args.username ≡ some username
  pub given_password : args.password ≡ some password
  pub state_username : task.state.username ≡ some username
  pub state_password : task.state.password ≡ some password
  pub passed : Authenticated decode task.state (detect_client_protocol task.client_stream)

handle_client-Guarded :
    (lib : TlsLibrary) (bind : SocketAddr → Result Accepts IoError) (args : Args) (state : AppState)
    (addr : SocketAddr) (before after : List ClientTask) (task : ClientTask)
    (decode : List ℕ → Option (List ℕ)) (connect : Connector) (schedule : List Bool) (t : Stream)
    → Configured lib bind args state addr (some (before ++ task ∷ after))
    → args.no_creds ≡ false
    → (handle_client decode connect schedule task.state task.client_stream).target ≡ some t
    → Guarded decode args task
handle_client-Guarded lib bind args state addr before after task decode connect schedule t c due
      reached =
    let shared : task.state ≡ state =
      run_proxy_server-state bind state addr before after task (sym c.served) in
    let required : task.state.require_creds ≡ true =
      ap (λ x. x.require_creds) shared ∙ c.require_creds ∙ ap not due in
    elim c.credentials [
      | inl free ↦ let never : true ≡ false = sym free ∙ due in absurd (cc)
      | inr (u, p, eu, ep) ↦ record {
        username = u;
        password = p;
        given_username = sym c.username ∙ eu;
        given_password = sym c.password ∙ ep;
        state_username = ap (λ x. x.username) shared ∙ eu;
        state_password = ap (λ x. x.password) shared ∙ ep;
        passed =
            target_needs_auth decode connect schedule task.state task.client_stream t required
              reached;
      }
    ]

-- When `main` runs without the argument `no_creds`, a client whose connection it serves is connected to a
-- target only after its stream has passed the authentication of the protocol that was detected, in a state
-- whose user name and password are those of the arguments.
pub main-Guarded :
    (lib : TlsLibrary) (bind : SocketAddr → Result Accepts IoError) (args : Args) (notify_tx : ℕ)
    (state : AppState) (addr : SocketAddr) (before after : List ClientTask) (task : ClientTask)
    (decode : List ℕ → Option (List ℕ)) (connect : Connector) (schedule : List Bool) (t : Stream)
    → main lib bind notify_tx args ≡ ran state addr (some (before ++ task ∷ after))
    → args.no_creds ≡ false
    → (handle_client decode connect schedule task.state task.client_stream).target ≡ some t
    → Guarded decode args task
main-Guarded lib bind args notify_tx state addr before after task decode connect schedule t e due
      reached =
    handle_client-Guarded lib bind args state addr before after task decode connect schedule t
      (subst (λ r. Explained lib bind args r) e (main-Explained lib bind args notify_tx)) due
      reached
