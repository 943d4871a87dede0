-- ===== src/Utils/Tls.antt =====
-- utils.rs: certificates and keys from files, and the acceptor of TLS connections that is built of them.
pub mod Load
use crabby_proxy.Prelude.{ℕ, List, [], ◌∷◌, Result, ok, err}
use crabby_proxy.Text.{codes}
use crabby_proxy.Net.{IoError}
use crabby_proxy.App.{TlsAcceptor}

-- `PrivateKeyDer`.
pub data PrivateKey : Type 0 where
  pkcs1 pkcs8 : List ℕ → PrivateKey

-- `Box<dyn Error>`: an error of the files, of `rustls`, or a text.
pub data LoadError : Type 0 where
  io : IoError → LoadError
  rustls : List ℕ → LoadError
  text : List ℕ → LoadError

-- What the program uses of the file system, of `rustls_pemfile` and of `rustls`.
pub record TlsLibrary : Type 0 where
  -- The contents of the file at a path.
  pub open_file : List ℕ → Result (List ℕ) IoError
  -- The items that the iterators yield over the contents of a file.
  pub certs : List ℕ → List (Result (List ℕ) IoError)
  pub pkcs8_private_keys : List ℕ → List (Result (List ℕ) IoError)
  pub rsa_private_keys : List ℕ → List (Result (List ℕ) IoError)
  -- `ServerConfig` for any client, and the acceptor over it.
  pub with_single_cert : List (List ℕ) → PrivateKey → Result TlsAcceptor (List ℕ)

-- `collect::<Result<_, _>>()`: the first error, if there is one.
pub collect : List (Result (List ℕ) IoError) → Result (List (List ℕ)) IoError
collect [] = ok []
collect (err e ∷ items) = err e
collect (ok item ∷ items) = elim (collect items) [ ok rest ↦ ok (item ∷ rest) | err e ↦ err e ]

module _ (lib : TlsLibrary) where
  unfoldable pub load_certs : List ℕ → Result (List (List ℕ)) LoadError
  unfolding collect
  load_certs path = elim (lib.open_file path) [
    | err e ↦ err (io e)
    | ok contents ↦ elim (collect (lib.certs contents)) [ ok certs ↦ ok certs | err e ↦ err (io e) ]
  ]

  -- "Try RSA".
  rsa_key : List (Result (List ℕ) IoError) → Result PrivateKey LoadError
  rsa_key [] = err (text (codes "No usable private key found"))
  rsa_key (ok key ∷ keys) = ok (pkcs1 key)
  rsa_key (err e ∷ keys) = err (io e)

  -- "Try PKCS8".
  first_key : List (Result (List ℕ) IoError) → List ℕ → Result PrivateKey LoadError
  unfolding rsa_key
  first_key [] path = elim (lib.open_file path) [
    | err e ↦ err (io e)
    | ok contents ↦ rsa_key (lib.rsa_private_keys contents)
  ]
  first_key (ok key ∷ keys) path = ok (pkcs8 key)
  first_key (err e ∷ keys) path = err (io e)

  unfoldable pub load_private_key : List ℕ → Result PrivateKey LoadError
  unfolding first_key
  load_private_key path = elim (lib.open_file path) [
    | err e ↦ err (io e)
    | ok contents ↦ first_key (lib.pkcs8_private_keys contents) path
  ]

  -- With the certificates, before the key is read.
  with_certs : List ℕ → Result (List (List ℕ)) LoadError → Result TlsAcceptor LoadError
  unfolding load_private_key
  with_certs key_path (err e) = err e
  with_certs key_path (ok certs) = elim (load_private_key key_path) [
    | err e ↦ err e
    | ok key ↦ elim (lib.with_single_cert certs key) [
      | ok acceptor ↦ ok acceptor
      | err e ↦ err (rustls e)
    ]
  ]

  unfoldable pub create_tls_acceptor : List ℕ → List ℕ → Result TlsAcceptor LoadError
  unfolding with_certs load_certs
  create_tls_acceptor cert_path key_path = with_certs key_path (load_certs cert_path)
