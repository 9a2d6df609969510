-- ===== src/Tls.antt =====
-- src/tls.rs: the acceptor that can be exchanged while the proxy runs. Files, the parsers of PEM
-- and the TLS library are parameters.
pub mod Reload
use dgsw_class_pg_proxy.Prelude.{String, Bool, true, false, Option, none, some, List, [], ◌∷◌}
use dgsw_class_pg_proxy.Prelude.Text.{Bytes}
use dgsw_class_pg_proxy.Config.{TlsConfig}

pub record TlsLib : Type 1 where
  pub Cert : Type 0
  pub Key : Type 0
  pub Acceptor : Type 0
  pub parse_certs : Bytes → Option (List Cert)
  pub parse_keys : Bytes → Option (List Key)
  -- `with_single_cert`.
  pub with_single_cert : List Cert → Key → Option Acceptor

-- One for each context that `build_acceptor` gives an error, and the failure of `openssl`.
pub data TlsError : Type 0 where
  no_cert_file no_key_file bad_cert bad_key no_key bad_config no_openssl : TlsError

pub data Result {ℓ} (A : Type ℓ) : Type ℓ where
  ok : A → Result A
  err : TlsError → Result A

infixl 5 ◌>>=◌
abbrev pub ◌>>=◌ {ℓ κ} : {A : Type ℓ} {B : Type κ} → Result A → (A → Result B) → Result B
ok a >>= f = f a
err e >>= f = err e

-- `context`.
abbrev pub or_fail {ℓ} : {A : Type ℓ} → Option A → TlsError → Result A
or_fail none e = err e
or_fail (some a) e = ok a

abbrev first {ℓ} : {A : Type ℓ} → List A → Option A
first [] = none
first (a ∷ as') = some a

module _ (lib : TlsLib) where
  open lib use {Acceptor, parse_certs, parse_keys, with_single_cert}

  pub record HotTlsAcceptor : Type 0 where
    pub inner : Acceptor
    pub cfg : TlsConfig

  -- `open` answers a file's bytes.
  unfoldable pub build_acceptor : (String → Option Bytes) → TlsConfig → Result Acceptor
  build_acceptor open_file cfg = do
    cert_file ← or_fail (open_file cfg.cert) no_cert_file
    key_file ← or_fail (open_file cfg.key) no_key_file
    certs ← or_fail (parse_certs cert_file) bad_cert
    keys ← or_fail (parse_keys key_file) bad_key
    key ← or_fail (first keys) no_key
    or_fail (with_single_cert certs key) bad_config

  unfoldable pub new_acceptor : (String → Option Bytes) → TlsConfig → Result HotTlsAcceptor
  new_acceptor open_file cfg = do
    acceptor ← build_acceptor open_file cfg
    ok (record { inner = acceptor; cfg = cfg })

  abbrev pub get : HotTlsAcceptor → Acceptor
  get a = a.inner

  unfoldable pub reload :
      (String → Option Bytes) → HotTlsAcceptor → Result (Unit {0}) × HotTlsAcceptor
  reload open_file a = elim (build_acceptor open_file a.cfg) [
    | ok acceptor ↦ (ok tt, record a { inner = acceptor })
    | err e ↦ (err e, a)
  ]

-- The run of `openssl` is a parameter: whether it succeeded, `none` where it could not be started.
unfoldable pub generate_self_signed_cert :
    (String → String → Option Bool) → String → String → Result (Unit {0})
generate_self_signed_cert openssl cert_path key_path = elim (openssl cert_path key_path) [
  | none ↦ err no_openssl
  | some success ↦ elim success [ true ↦ ok tt | false ↦ err no_openssl ]
]
