-- ===== src/Auth/Oidc/Client.antt =====
-- The caches of `OidcProviderClient` in app/app/infrastructure/security/oidc.py.
use tpl_backend.Base.{
  ℕ, Text, ◌+◌, ◌*◌, Bool, not, ◌&&◌, Option, none, some, ltb, if◌then◌else◌, Result, ok, err,
}
use tpl_backend.Auth.Errors.{Failure}
use tpl_backend.Settings.{Settings}
use tpl_backend.Auth.Oidc.{OidcMetadata, Exchange, Jose, fetch_metadata, fetch_key_set}

-- The state of a client.
pub record Client (K : Type 0) : Type 0 where
  pub metadata : Option OidcMetadata
  pub metadata_loaded_at : ℕ
  pub key_set : Option K
  pub keys_loaded_at : ℕ

-- `now - loaded_at < seconds`
unfoldable pub is_fresh : ℕ → ℕ → ℕ → Bool
is_fresh now loaded_at lifetime = ltb now (loaded_at + lifetime * 1000000)

-- What an operation of the client returns or raises, and the client afterwards.
abbrev pub Outcome : Type 0 → Type 0 → Type 0
Outcome K A = Result Failure A × Client K

abbrev pub and_then :
    {K : Type 0} {A : Type 0} {B : Type 0}
    → Outcome K A
    → (A → Client K → Outcome K B)
    → Outcome K B
and_then (err e, c) rest = (err e, c)
and_then (ok a, c) rest = rest a c

module _ (is_netloc : Text → Bool) (settings : Settings) where
  unfoldable pub keep_metadata :
      {K : Type 0} → ℕ → Result Failure OidcMetadata → Client K → Outcome K OidcMetadata
  keep_metadata now (err e) c = (err e, c)
  keep_metadata now (ok m) c = (ok m, record c { metadata = some m; metadata_loaded_at = now })

  -- The cached document that `get_metadata` returns, if it does.
  unfoldable pub cached_metadata : {K : Type 0} → Bool → ℕ → Client K → Option OidcMetadata
  unfolding is_fresh
  cached_metadata force now c =
      if not force && is_fresh now c.metadata_loaded_at settings.auth_discovery_cache_seconds
      then c.metadata
      else none

  unfoldable pub get_metadata : {K : Type 0} → Bool → Exchange → Client K → Outcome K OidcMetadata
  unfolding cached_metadata keep_metadata fetch_metadata
  get_metadata force x c = elim (cached_metadata force x.now c) [
    | some m ↦ (ok m, c)
    | none ↦ keep_metadata x.now (fetch_metadata is_netloc settings x) c
  ]

  unfoldable pub keep_keys : {K : Type 0} → ℕ → Result Failure K → Client K → Outcome K K
  keep_keys now (err e) c = (err e, c)
  keep_keys now (ok k) c = (ok k, record c { key_set = some k; keys_loaded_at = now })

  unfoldable pub cached_keys : {K : Type 0} → Bool → ℕ → Client K → Option K
  unfolding is_fresh
  cached_keys force now c =
      if not force && is_fresh now c.keys_loaded_at settings.auth_jwks_cache_seconds
      then c.key_set
      else none

  -- `_get_key_set`
  unfoldable pub get_key_set :
      (jose : Jose)
      → OidcMetadata
      → Bool
      → Exchange
      → Client jose.KeySet
      → Outcome jose.KeySet jose.KeySet
  unfolding cached_keys keep_keys fetch_key_set
  get_key_set jose metadata force x c = elim (cached_keys force x.now c) [
    | some k ↦ (ok k, c)
    | none ↦ keep_keys x.now (fetch_key_set is_netloc settings jose x metadata) c
  ]
