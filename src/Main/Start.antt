-- ===== src/Main/Start.antt =====
-- main.rs: when the proxy starts, and with what.
use crabby_proxy.Prelude.{
  ℕ, ◌^◌, ◌≤◌, ◌<◌, ◌≡◌, ◌⊎◌, inl, inr, refl, sym, ap, ◌∙◌, subst, Bool, Bool-cases, Option-cases,
  true, false, not, Option, none, some, is_some, List, [], ◌∷◌, ltb, if◌then◌else◌, Result, ok, err,
  arith,
}
use crabby_proxy.Text.Decimal.{digits}
use crabby_proxy.Text.Decimal.Overflow.{digits-u32_to_string}
use crabby_proxy.Text.Split.{split, split_once}
use crabby_proxy.Net.{IoError, SocketAddr, v4, Accepts}
use crabby_proxy.Net.Address.{parse_socket_addr, ◌>>=◌}
use crabby_proxy.App.{AppState, TlsAcceptor, new_state}
use crabby_proxy.Utils.Tls.{TlsLibrary, LoadError, create_tls_acceptor}
use crabby_proxy.Proxy.Listener.{ClientTask, run_proxy_server}
use crabby_proxy.Main.{
  Args, Run, usage, panicked, ran, is_accepted, listen_addr, serve_at, start, tls_acceptor_of, main,
}

abbrev pub any_addr : ℕ → SocketAddr
any_addr port = v4 (0 ∷ 0 ∷ 0 ∷ 0 ∷ []) port

parse_listen_addr :
    (port : ℕ)
    → port < 2 ^ 32
    → parse_socket_addr (listen_addr port) ≡ (if ltb port 65536 then some (any_addr port) else none)
unfolding parse_socket_addr listen_addr split_once split digits
parse_listen_addr port h =
    ap (λ o. o >>= λ n. some (any_addr n)) (digits-u32_to_string port h) ∙ in_range (ltb port 65536)
  where
    in_range :
        (b : Bool)
        → ((if b then some port else none) >>= λ n. some (any_addr n))
          ≡ (if b then some (any_addr port) else none)
    in_range true = refl
    in_range false = refl

module _ (lib : TlsLibrary) (bind : SocketAddr → Result Accepts IoError) (args : Args) where
  -- The TLS that the arguments ask for: none without a key, and with a key the acceptor that the
  -- certificate and the key make.
  abbrev pub TlsOf : Option (List ℕ) → Option (List ℕ) → Option TlsAcceptor → Type 0
  TlsOf cert none acceptor = acceptor ≡ none
  TlsOf none (some key) acceptor = ⊥
  TlsOf (some cert) (some key) none = ⊥
  TlsOf (some cert) (some key) (some acceptor) = create_tls_acceptor lib cert key ≡ ok acceptor

  -- The certificate and the key that the arguments name make no acceptor.
  pub record TlsFails : Type 0 where
    pub cert_path : List ℕ
    pub key_path : List ℕ
    pub error : LoadError
    pub certificate : args.tls_certificate ≡ some cert_path
    pub private_key : args.tls_private_key ≡ some key_path
    pub fails : create_tls_acceptor lib cert_path key_path ≡ err error

  -- The state, the address and the tasks that the proxy starts with.
  pub record Configured (state : AppState) (addr : SocketAddr) (tasks : Option (List ClientTask))
      : Type 0 where
    pub address : addr ≡ any_addr args.proxy_port
    pub in_range : args.proxy_port < 65536
    pub served : tasks ≡ run_proxy_server bind state addr
    pub require_creds : state.require_creds ≡ not args.no_creds
    pub username : state.username ≡ args.username
    pub password : state.password ≡ args.password
    pub credentials :
        (args.no_creds ≡ true)
        ⊎ ((username password : List ℕ) × (state.username ≡ some username)
            × (state.password ≡ some password))
    pub tls : TlsOf args.tls_certificate args.tls_private_key state.tls_acceptor

  abbrev pub Explained : Run → Type 0
  Explained usage = is_accepted args ≡ false
  Explained panicked = (65536 ≤ args.proxy_port) ⊎ TlsFails
  Explained (ran state addr tasks) = Configured state addr tasks

  -- What the attributes of the arguments grant.
  record Granted : Type 0 where
    below : args.proxy_port < 2 ^ 32
    credentials :
        (args.no_creds ≡ true)
        ⊎ ((username password : List ℕ) × (args.username ≡ some username)
            × (args.password ≡ some password))
    with_certificate : is_some args.tls_private_key ≡ true → is_some args.tls_certificate ≡ true

  is_accepted-Granted : is_accepted args ≡ true → Granted
  unfolding is_accepted
  is_accepted-Granted h = record {
    below = ground (arith, h);
    credentials = elim (Bool-cases args.no_creds) [
      | inl free ↦ inl free
      | inr due ↦ elim (Option-cases args.username) [
        | inl e ↦ absurd (ground (arith, h, due, e))
        | inr (u, e) ↦ elim (Option-cases args.password) [
          | inl f ↦ absurd (ground (arith, h, due, f))
          | inr (p, f) ↦ inr (u, p, e, f)
        ]
      ]
    ];
    with_certificate = λ k. ground (arith, h, k);
  }

  serve_at-Explained :
      (notify_tx : ℕ) (acceptor : Option TlsAcceptor)
      → Granted
      → TlsOf args.tls_certificate args.tls_private_key acceptor
      → Explained
          (serve_at bind notify_tx args acceptor (parse_socket_addr (listen_addr args.proxy_port)))
  unfolding serve_at new_state
  serve_at-Explained notify_tx acceptor g t = elim (Bool-cases (ltb args.proxy_port 65536)) [
    | inl fits ↦
        let parsed : parse_socket_addr (listen_addr args.proxy_port)
            ≡ some (any_addr args.proxy_port) =
          parse_listen_addr args.proxy_port g.below
          ∙ ap (λ b. if b then some (any_addr args.proxy_port) else none) fits in
        subst (λ a. Explained (serve_at bind notify_tx args acceptor a)) (sym parsed)
          (record {
            address = refl;
            in_range = ground (arith, fits);
            served = refl;
            require_creds = refl;
            username = refl;
            password = refl;
            credentials = g.credentials;
            tls = t;
          })
    | inr large ↦
        let parsed : parse_socket_addr (listen_addr args.proxy_port) ≡ none =
          parse_listen_addr args.proxy_port g.below
          ∙ ap (λ b. if b then some (any_addr args.proxy_port) else none) large in
        subst (λ a. Explained (serve_at bind notify_tx args acceptor a)) (sym parsed)
          (inl (ground (arith, large)))
  ]

  -- How a certificate and a key choose the acceptor.
  data TlsChoice (cert key : Option (List ℕ)) : Type 0 where
    chosen :
        (acceptor : Option TlsAcceptor)
        → tls_acceptor_of lib cert key ≡ ok acceptor
        → TlsOf cert key acceptor
        → TlsChoice cert key
    unusable :
        (c k : List ℕ) (e : LoadError)
        → cert ≡ some c
        → key ≡ some k
        → create_tls_acceptor lib c k ≡ err e
        → tls_acceptor_of lib cert key ≡ err e
        → TlsChoice cert key

  choose_tls :
      (c k : List ℕ) (r : Result TlsAcceptor LoadError)
      → create_tls_acceptor lib c k ≡ r
      → TlsChoice (some c) (some k)
  unfolding tls_acceptor_of
  choose_tls c k (ok acceptor) e = chosen (some acceptor) (rw (tls_acceptor_of, e) refl) e
  choose_tls c k (err x) e = unusable c k x refl refl e (rw (tls_acceptor_of, e) refl)

  tls_choice :
      (cert key : Option (List ℕ)) → (is_some key ≡ true → is_some cert ≡ true) → TlsChoice cert key
  unfolding tls_acceptor_of
  tls_choice none none h = chosen none refl refl
  tls_choice (some c) none h = chosen none refl refl
  tls_choice none (some k) h = absurd (let x = h refl in cc)
  tls_choice (some c) (some k) h = choose_tls c k _ refl

  started :
      (notify_tx : ℕ)
      → Granted
      → Explained (
          start bind notify_tx args (tls_acceptor_of lib args.tls_certificate args.tls_private_key))
  unfolding start
  started notify_tx g =
      elim (tls_choice args.tls_certificate args.tls_private_key g.with_certificate) [
        | chosen acceptor e t ↦
            subst (λ r. Explained (start bind notify_tx args r)) (sym e)
              (serve_at-Explained notify_tx acceptor g t)
        | unusable c k x ec ek fails e ↦
            subst (λ r. Explained (start bind notify_tx args r)) (sym e)
              (inr (record {
                cert_path = c;
                key_path = k;
                error = x;
                certificate = ec;
                private_key = ek;
                fails = fails;
              }))
      ]

  -- Whatever the arguments, the files and the listener: `main` ends with the usage only if the arguments
  -- lack what their attributes demand. It panics only if the port is above 65535, or if a certificate and a
  -- key are given of which no acceptor can be made. Otherwise the proxy starts, at port `proxy_port`
  -- (below 65536) of all addresses. Its state has the user name and the password of the arguments, both
  -- there whenever it demands credentials; it demands them unless `no_creds` is given. Its acceptor is that
  -- of the certificate and the key if a key is given; without a key there is none, with a certificate or not.
  pub main-Explained : (notify_tx : ℕ) → Explained (main lib bind notify_tx args)
  unfolding main
  main-Explained notify_tx = elim (Bool-cases (is_accepted args)) [
    | inr lacking ↦ subst (λ b. Explained (from_test b)) (sym lacking) lacking
    | inl granted ↦
        subst (λ b. Explained (from_test b)) (sym granted)
          (started notify_tx (is_accepted-Granted granted))
  ]
    where
      from_test : Bool → Run
      from_test b = elim b [
        | false ↦ usage
        | true ↦
            start bind notify_tx args
              (tls_acceptor_of lib args.tls_certificate args.tls_private_key)
      ]
