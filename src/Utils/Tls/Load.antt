-- ===== src/Utils/Tls/Load.antt =====
-- utils.rs, `create_tls_acceptor`: what it makes of the files, and why it fails.
use crabby_proxy.Prelude.{ℕ, ◌≡◌, refl, List, [], ◌∷◌, ◌++◌, Result, ok, err}
use crabby_proxy.Text.{codes}
use crabby_proxy.Net.{IoError}
use crabby_proxy.App.{TlsAcceptor}
use crabby_proxy.Utils.Tls.{
  PrivateKey, pkcs1, pkcs8, LoadError, io, rustls, text, TlsLibrary, collect, load_certs, rsa_key,
  first_key, load_private_key, with_certs, create_tls_acceptor,
}

abbrev pub certificates : List (List ℕ) → List (Result (List ℕ) IoError)
certificates [] = []
certificates (c ∷ cs) = ok c ∷ certificates cs

-- What an iterator yields, and what is collected of it.
data Collected : List (Result (List ℕ) IoError) → Result (List (List ℕ)) IoError → Type 0 where
  all : (cs : List (List ℕ)) → Collected (certificates cs) (ok cs)
  first :
      (cs : List (List ℕ)) (e : IoError) (rest : List (Result (List ℕ) IoError))
      → Collected (certificates cs ++ err e ∷ rest) (err e)

collect-Collected : (items : List (Result (List ℕ) IoError)) → Collected items (collect items)
unfolding collect
collect-Collected [] = all []
collect-Collected (err e ∷ items) = first [] e items
collect-Collected (ok item ∷ items) = behind (collect-Collected items)
  where
    behind :
        {its : List (Result (List ℕ) IoError)} {r : Result (List (List ℕ)) IoError}
        → Collected its r
        → Collected (ok item ∷ its) (elim r as (λ _. Result (List (List ℕ)) IoError) [
          | ok rest ↦ ok (item ∷ rest)
          | err e ↦ err e
        ])
    behind (all cs) = all (item ∷ cs)
    behind (first cs e rest) = first (item ∷ cs) e rest

module _ (lib : TlsLibrary) where
  -- The certificates of a file.
  pub data Certs (path : List ℕ) : Result (List (List ℕ)) LoadError → Type 0 where
    loaded :
        (contents : List ℕ) (cs : List (List ℕ))
        → lib.open_file path ≡ ok contents
        → lib.certs contents ≡ certificates cs
        → Certs path (ok cs)
    no_file : (e : IoError) → lib.open_file path ≡ err e → Certs path (err (io e))
    bad_item :
        (contents : List ℕ) (cs : List (List ℕ)) (e : IoError)
        (rest : List (Result (List ℕ) IoError))
        → lib.open_file path ≡ ok contents
        → lib.certs contents ≡ certificates cs ++ err e ∷ rest
        → Certs path (err (io e))

  -- The key of a file: its first PKCS8 key, or without one its first RSA key.
  pub data Key (path : List ℕ) : Result PrivateKey LoadError → Type 0 where
    pkcs8_key :
        (contents key : List ℕ) (rest : List (Result (List ℕ) IoError))
        → lib.open_file path ≡ ok contents
        → lib.pkcs8_private_keys contents ≡ ok key ∷ rest
        → Key path (ok (pkcs8 key))
    pkcs1_key :
        (contents key : List ℕ) (rest : List (Result (List ℕ) IoError))
        → lib.open_file path ≡ ok contents
        → lib.pkcs8_private_keys contents ≡ []
        → lib.rsa_private_keys contents ≡ ok key ∷ rest
        → Key path (ok (pkcs1 key))
    no_file : (e : IoError) → lib.open_file path ≡ err e → Key path (err (io e))
    bad_pkcs8 :
        (contents : List ℕ) (e : IoError) (rest : List (Result (List ℕ) IoError))
        → lib.open_file path ≡ ok contents
        → lib.pkcs8_private_keys contents ≡ err e ∷ rest
        → Key path (err (io e))
    bad_rsa :
        (contents : List ℕ) (e : IoError) (rest : List (Result (List ℕ) IoError))
        → lib.open_file path ≡ ok contents
        → lib.pkcs8_private_keys contents ≡ []
        → lib.rsa_private_keys contents ≡ err e ∷ rest
        → Key path (err (io e))
    no_key :
        (contents : List ℕ)
        → lib.open_file path ≡ ok contents
        → lib.pkcs8_private_keys contents ≡ []
        → lib.rsa_private_keys contents ≡ []
        → Key path (err (text (codes "No usable private key found")))

  -- An acceptor, or the first of the failures.
  pub data Acceptor (cert_path key_path : List ℕ) : Result TlsAcceptor LoadError → Type 0 where
    built :
        (cs : List (List ℕ)) (key : PrivateKey) (acceptor : TlsAcceptor)
        → Certs cert_path (ok cs)
        → Key key_path (ok key)
        → lib.with_single_cert cs key ≡ ok acceptor
        → Acceptor cert_path key_path (ok acceptor)
    no_certs : (e : LoadError) → Certs cert_path (err e) → Acceptor cert_path key_path (err e)
    no_usable_key :
        (cs : List (List ℕ)) (e : LoadError)
        → Certs cert_path (ok cs)
        → Key key_path (err e)
        → Acceptor cert_path key_path (err e)
    refused :
        (cs : List (List ℕ)) (key : PrivateKey) (e : List ℕ)
        → Certs cert_path (ok cs)
        → Key key_path (ok key)
        → lib.with_single_cert cs key ≡ err e
        → Acceptor cert_path key_path (err (rustls e))

  module _ (path : List ℕ) where
    load_certs-Certs : Certs path (load_certs lib path)
    unfolding load_certs
    load_certs-Certs = opened _ refl
      where
        gathered :
            {items : List (Result (List ℕ) IoError)} {r : Result (List (List ℕ)) IoError}
            (contents : List ℕ)
            → lib.open_file path ≡ ok contents
            → lib.certs contents ≡ items
            → Collected items r
            → Certs path (elim r as (λ _. Result (List (List ℕ)) LoadError) [
              | ok certs ↦ ok certs
              | err e ↦ err (io e)
            ])
        gathered contents e c (all cs) = loaded contents cs e c
        gathered contents e c (first cs x rest) = bad_item contents cs x rest e c

        opened :
            (r : Result (List ℕ) IoError)
            → lib.open_file path ≡ r
            → Certs path (load_certs lib path)
        opened (err x) e = rw (load_certs, e) (no_file x e)
        opened (ok contents) e =
            rw (load_certs, e) (gathered contents e refl (collect-Collected (lib.certs contents)))

    load_private_key-Key : Key path (load_private_key lib path)
    unfolding load_private_key first_key rsa_key
    load_private_key-Key = opened _ refl
      where
        try_rsa :
            (contents : List ℕ) (keys : List (Result (List ℕ) IoError))
            → lib.open_file path ≡ ok contents
            → lib.pkcs8_private_keys contents ≡ []
            → lib.rsa_private_keys contents ≡ keys
            → Key path (rsa_key lib keys)
        try_rsa contents [] e p r = no_key contents e p r
        try_rsa contents (ok key ∷ rest) e p r = pkcs1_key contents key rest e p r
        try_rsa contents (err x ∷ rest) e p r = bad_rsa contents x rest e p r

        try_pkcs8 :
            (contents : List ℕ) (keys : List (Result (List ℕ) IoError))
            → lib.open_file path ≡ ok contents
            → lib.pkcs8_private_keys contents ≡ keys
            → Key path (first_key lib keys path)
        try_pkcs8 contents [] e p = rw (first_key, e) (try_rsa contents _ e p refl)
        try_pkcs8 contents (ok key ∷ rest) e p = pkcs8_key contents key rest e p
        try_pkcs8 contents (err x ∷ rest) e p = bad_pkcs8 contents x rest e p

        opened :
            (r : Result (List ℕ) IoError)
            → lib.open_file path ≡ r
            → Key path (load_private_key lib path)
        opened (err x) e = rw (load_private_key, e) (no_file x e)
        opened (ok contents) e = rw (load_private_key, e) (try_pkcs8 contents _ e refl)

  -- Whatever the files: `create_tls_acceptor` gives the acceptor of all the certificates of the first file,
  -- and of the first PKCS8 key of the second, or without one of its first RSA key. It fails
  -- only if a file cannot be opened, an item among the certificates or the first item of the keys is wrong,
  -- the second file has no key of these kinds, or `with_single_cert` refuses them. Its error is then that of
  -- the first such step.
  pub create_tls_acceptor-Acceptor :
      (cert_path key_path : List ℕ)
      → Acceptor cert_path key_path (create_tls_acceptor lib cert_path key_path)
  unfolding create_tls_acceptor with_certs
  create_tls_acceptor-Acceptor cert_path key_path = with_loaded _ (load_certs-Certs cert_path)
    where
      with_key :
          (cs : List (List ℕ)) (r : Result PrivateKey LoadError)
          → Certs cert_path (ok cs)
          → Key key_path r
          → load_private_key lib key_path ≡ r
          → Acceptor cert_path key_path (with_certs lib key_path (ok cs))
      with_key cs (err x) c k e = rw (with_certs, e) (no_usable_key cs x c k)
      with_key cs (ok key) c k e = rw (with_certs, e) (configured _ refl)
        where
          configured :
              (r : Result TlsAcceptor (List ℕ))
              → lib.with_single_cert cs key ≡ r
              → Acceptor cert_path key_path
                  (elim (lib.with_single_cert cs key) as (λ _. Result TlsAcceptor LoadError) [
                    | ok acceptor ↦ ok acceptor
                    | err e ↦ err (rustls e)
                  ])
          configured (ok acceptor) f = rw f (built cs key acceptor c k f)
          configured (err x) f = rw f (refused cs key x c k f)

      with_loaded :
          (r : Result (List (List ℕ)) LoadError)
          → Certs cert_path r
          → Acceptor cert_path key_path (with_certs lib key_path r)
      with_loaded (err x) c = no_certs x c
      with_loaded (ok cs) c = with_key cs _ c (load_private_key-Key key_path) refl
