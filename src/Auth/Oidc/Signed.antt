-- ===== src/Auth/Oidc/Signed.antt =====
-- The signature of a token in app/app/infrastructure/security/oidc.py: `_get_key_set` and
-- `_decode_signed_token`.
use tpl_backend.Base.{
  if◌then◌else◌, ℕ, ◌≡◌, ◌⊎◌, refl, sym, ap, ◌∙◌, inl, inr, Bool, true, false, Option, none, some,
  List, Text, Option-cases, Result-cases, Result, ok, err, ok-injective,
}
use tpl_backend.Base.Json.{Json, obj, Fields}
use tpl_backend.Auth.Errors.{Failure, raised, crashed, library_error}
use tpl_backend.Settings.{Settings}
use tpl_backend.Settings.Checks.{auth_allowed_algorithm_list}
use tpl_backend.Auth.Oidc.{Reply, got, caught, leaked, OidcMetadata, Exchange, Jose, fetch_key_set}
use tpl_backend.Auth.Oidc.Client.{Client, keep_keys, get_key_set, cached_keys}
use tpl_backend.Auth.Oidc.Tokens.{
  Attempt, decoded, refused, escaped, claims_of, attempt_with, retry, last_attempt,
  decode_signed_token,
}

kept_if :
    {A : Type 0} {a : A} (b : Bool) (o : Option A) → (if b then o else none) ≡ some a → o ≡ some a
kept_if true o h = h
kept_if false o h = cc

claims_of-decoded :
    (o : Reply Json) (claims : Fields) → claims_of o ≡ decoded claims → o ≡ got (obj claims)
claims_of-decoded caught claims h = cc
claims_of-decoded leaked claims h = cc
claims_of-decoded (got (obj fs)) claims h = cc
claims_of-decoded (got _) claims h = cc

module _ (is_netloc : Text → Bool) (settings : Settings) (jose : Jose) where
  -- The signature was checked, with an allowed algorithm, against keys that the client had cached or
  -- has fetched from the provider's key address.
  pub record IsSigned (encoded : Text) (m : OidcMetadata) (c : Client jose.KeySet) (x x' : Exchange)
      (claims : Fields) : Type 0 where
    pub keys : jose.KeySet
    pub algorithms : List Text
    pub allowed : auth_allowed_algorithm_list settings ≡ ok algorithms
    pub checked : jose.decode encoded keys algorithms ≡ got (obj claims)
    pub source :
        (c.key_set ≡ some keys)
        ⊎ ((fetch_key_set is_netloc settings jose x m ≡ ok keys)
            ⊎ (fetch_key_set is_netloc settings jose x' m ≡ ok keys))

  attempt-checked :
      (encoded : Text) (r : Result Failure jose.KeySet) (claims : Fields)
      → attempt_with is_netloc settings jose encoded r ≡ decoded claims
      → (keys : jose.KeySet) × (algorithms : List Text) × (r ≡ ok keys)
        × (auth_allowed_algorithm_list settings ≡ ok algorithms)
        × (jose.decode encoded keys algorithms ≡ got (obj claims))
  unfolding attempt_with
  attempt-checked encoded (err crashed) claims h = cc
  attempt-checked encoded (err library_error) claims h = cc
  attempt-checked encoded (err (raised e)) claims h = cc
  attempt-checked encoded (ok keys) claims h =
      elim (Result-cases (auth_allowed_algorithm_list settings)) [
        | inl (algorithms, e) ↦
            let h' : claims_of (jose.decode encoded keys algorithms) ≡ decoded claims =
              rw (e, attempt_with) at h in
            (keys, algorithms, refl, e, claims_of-decoded _ claims h')
        | inr (f, e) ↦ let no : refused ≡ decoded claims = rw (e, attempt_with) at h in cc
      ]

  keep_keys-ok :
      (now : ℕ) (r : Result Failure jose.KeySet) (c : Client jose.KeySet)
      → (keep_keys is_netloc settings now r c).0 ≡ r
  unfolding keep_keys
  keep_keys-ok now (err e) c = refl
  keep_keys-ok now (ok k) c = refl

  get_key_set-source :
      (m : OidcMetadata) (force : Bool) (x : Exchange) (c : Client jose.KeySet) (keys : jose.KeySet)
      → (get_key_set is_netloc settings jose m force x c).0 ≡ ok keys
      → (cached_keys is_netloc settings force x.now c ≡ some keys)
        ⊎ (fetch_key_set is_netloc settings jose x m ≡ ok keys)
  unfolding get_key_set
  get_key_set-source m force x c keys h =
      elim (Option-cases (cached_keys is_netloc settings force x.now c)) [
        | inl e ↦ inr (
            sym (keep_keys-ok x.now (fetch_key_set is_netloc settings jose x m) c)
            ∙ rw (e, get_key_set) at h)
        | inr (k, e) ↦
            let same : ◌≡◌ {A = Result Failure jose.KeySet} (ok k) (ok keys) =
              rw (e, get_key_set) at h in
            inl (e ∙ ap (λ q. some q) (ok-injective same))
      ]

  cached_keys-kept :
      (force : Bool) (now : ℕ) (c : Client jose.KeySet) (keys : jose.KeySet)
      → cached_keys is_netloc settings force now c ≡ some keys
      → c.key_set ≡ some keys
  unfolding cached_keys
  cached_keys-kept force now c keys h = kept_if _ c.key_set h

  -- The keys of a call that does not raise.
  keys-source :
      (m : OidcMetadata) (force : Bool) (x : Exchange) (c : Client jose.KeySet) (keys : jose.KeySet)
      → (get_key_set is_netloc settings jose m force x c).0 ≡ ok keys
      → (c.key_set ≡ some keys) ⊎ (fetch_key_set is_netloc settings jose x m ≡ ok keys)
  keys-source m force x c keys h = elim (get_key_set-source m force x c keys h) [
    | inl e ↦ inl (cached_keys-kept force x.now c keys e)
    | inr e ↦ inr e
  ]

  -- With `force_refresh` the keys are those just fetched.
  forced-source :
      (m : OidcMetadata) (x : Exchange) (c : Client jose.KeySet) (keys : jose.KeySet)
      → (get_key_set is_netloc settings jose m true x c).0 ≡ ok keys
      → fetch_key_set is_netloc settings jose x m ≡ ok keys
  unfolding cached_keys
  forced-source m x c keys h = elim (get_key_set-source m true x c keys h) [
    | inl e ↦ cc
    | inr e ↦ e
  ]

  last_attempt-decoded :
      (a : Attempt) (claims : Fields)
      → last_attempt is_netloc settings jose a ≡ ok claims
      → a ≡ decoded claims
  unfolding last_attempt
  last_attempt-decoded (decoded fs) claims h =
      let same = ok-injective {E = Failure} h in rw same refl
  last_attempt-decoded refused claims h = cc
  last_attempt-decoded (escaped e) claims h = cc

  retry-IsSigned :
      (encoded : Text) (m : OidcMetadata) (x x' : Exchange) (c c' : Client jose.KeySet)
      (a : Attempt) (claims : Fields)
      → attempt_with is_netloc settings jose encoded
          (get_key_set is_netloc settings jose m false x c).0
        ≡ a
      → (retry is_netloc settings jose encoded m x' a c').0 ≡ ok claims
      → IsSigned encoded m c x x' claims
  unfolding retry
  retry-IsSigned encoded m x x' c c' (decoded fs) claims first h =
      let same : fs ≡ claims = ok-injective {E = Failure} h in
      let (keys, algorithms, found, allowed, checked) =
        attempt-checked encoded _ claims (first ∙ ap (λ q. decoded q) same) in
      record {
        keys = keys;
        algorithms = algorithms;
        allowed = allowed;
        checked = checked;
        source = elim (keys-source m false x c keys found) [ inl e ↦ inl e | inr e ↦ inr (inl e) ];
      }
  retry-IsSigned encoded m x x' c c' (escaped e) claims first h = cc
  retry-IsSigned encoded m x x' c c' refused claims first h =
      let (keys, algorithms, found, allowed, checked) =
        attempt-checked encoded _ claims (last_attempt-decoded _ claims h) in
      record {
        keys = keys;
        algorithms = algorithms;
        allowed = allowed;
        checked = checked;
        source = inr (inr (forced-source m x' c' keys found));
      }

  pub decode_signed_token-IsSigned :
      (encoded : Text) (m : OidcMetadata) (x x' : Exchange) (c : Client jose.KeySet)
      (claims : Fields)
      → (decode_signed_token is_netloc settings jose encoded m x x' c).0 ≡ ok claims
      → IsSigned encoded m c x x' claims
  unfolding decode_signed_token
  decode_signed_token-IsSigned encoded m x x' c claims h =
      retry-IsSigned encoded m x x' c _ _ claims refl h
