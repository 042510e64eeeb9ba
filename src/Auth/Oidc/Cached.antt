-- ===== src/Auth/Oidc/Cached.antt =====
-- How app/app/infrastructure/security/oidc.py goes on when keys change or the provider is down.
use tpl_backend.Base.{◌≡◌, refl, Bool, true, false, some, List, Text, ok}
use tpl_backend.Base.Json.{Json, obj, Fields}
use tpl_backend.Settings.{Settings}
use tpl_backend.Settings.Checks.{auth_allowed_algorithm_list}
use tpl_backend.Auth.Oidc.{OidcMetadata, Exchange, Jose, Reply, got, caught, fetch_key_set}
use tpl_backend.Auth.Oidc.Client.{Client, cached_keys, keep_keys, get_key_set}
use tpl_backend.Auth.Oidc.Tokens.{claims_of, attempt_with, last_attempt, retry, decode_signed_token}

module _ (is_netloc : Text → Bool) (settings : Settings) (jose : Jose) where
  module _ (m : OidcMetadata) (c : Client jose.KeySet) where
    cached-get_key_set :
        (x : Exchange) (keys : jose.KeySet)
        → cached_keys is_netloc settings false x.now c ≡ some keys
        → get_key_set is_netloc settings jose m false x c ≡ (ok keys, c)
    unfolding get_key_set
    cached-get_key_set x keys h = rw (h, get_key_set) refl

    fetched-get_key_set :
        (x : Exchange) (keys : jose.KeySet)
        → fetch_key_set is_netloc settings jose x m ≡ ok keys
        → get_key_set is_netloc settings jose m true x c
          ≡ (ok keys, record c { key_set = some keys; keys_loaded_at = x.now })
    unfolding get_key_set cached_keys keep_keys
    fetched-get_key_set x keys h = rw (get_key_set, h) refl

  decode-attempt_with :
      (encoded : Text) (keys : jose.KeySet) (algorithms : List Text) (o : Reply Json)
      → auth_allowed_algorithm_list settings ≡ ok algorithms
      → jose.decode encoded keys algorithms ≡ o
      → attempt_with is_netloc settings jose encoded (ok keys) ≡ claims_of o
  unfolding attempt_with
  decode-attempt_with encoded keys algorithms o h k = rw (h, attempt_with, k) refl

  -- A token of a key that the cached keys do not have yet is accepted when the provider publishes the
  -- key: the keys are fetched once more, and kept with the time of that fetch.
  pub decode_signed_token_rotated :
      (encoded : Text) (m : OidcMetadata) (x x' : Exchange) (c : Client jose.KeySet)
      (old new : jose.KeySet) (algorithms : List Text) (claims : Fields)
      → cached_keys is_netloc settings false x.now c ≡ some old
      → auth_allowed_algorithm_list settings ≡ ok algorithms
      → jose.decode encoded old algorithms ≡ caught
      → fetch_key_set is_netloc settings jose x' m ≡ ok new
      → jose.decode encoded new algorithms ≡ got (obj claims)
      → decode_signed_token is_netloc settings jose encoded m x x' c
        ≡ (ok claims, record c { key_set = some new; keys_loaded_at = x'.now })
  unfolding decode_signed_token retry last_attempt
  decode_signed_token_rotated encoded m x x' c old new algorithms claims cached allowed stale
        fetched signed =
      rw
        (
          cached-get_key_set m c x old cached,
          decode-attempt_with encoded old algorithms caught allowed stale,
          fetched-get_key_set m c x' new fetched,
          decode-attempt_with encoded new algorithms (got (obj claims)) allowed signed,
        )
        refl
