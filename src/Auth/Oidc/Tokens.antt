-- ===== src/Auth/Oidc/Tokens.antt =====
-- The tokens of `OidcProviderClient` in app/app/infrastructure/security/oidc.py.
use tpl_backend.Base.{
  ℕ, ◌==◌, Bool, true, false, not, Option, none, some, List, [], ◌∷◌, Text, codes, text_eq,
  contains, strip, is_empty, Result, ok, err, ◌>>=◌, ◌>>◌, require, or_raise,
}
use tpl_backend.Base.Json.{Json, str, arr, obj, nil, cons, Fields, get}
use tpl_backend.Auth.Errors.{Failure, crashed, library_error, unauthorized_error}
use tpl_backend.Auth.Profile.{Profile}
use tpl_backend.Auth.ServiceIdentity.{texts}
use tpl_backend.Settings.{Settings, text_or}
use tpl_backend.Settings.Checks.{auth_allowed_algorithm_list}
use tpl_backend.Auth.Oidc.{
  OidcMetadata, Pairs, Exchange, Registry, Jose, Reply, got, leaked, reply_or, unavailable,
  token_invalid, identity_token_invalid, nonempty_text, object_or, accept_json, backchannel_target,
}
use tpl_backend.Auth.Oidc.Client.{Client, Outcome, and_then, get_metadata, get_key_set}

-- One round of `_decode_signed_token`: the claims, an exception that it catches, or one that it does
-- not.
pub data Attempt : Type 0 where
  decoded : Fields → Attempt
  refused : Attempt
  escaped : Failure → Attempt

-- `isinstance(token.claims, dict)`
abbrev pub claims_of : Reply Json → Attempt
claims_of (got (obj claims)) = decoded claims
claims_of leaked = escaped library_error
claims_of _ = refused

-- `claims.get(name) == text`
unfoldable pub is_text : Option Json → Text → Bool
unfolding text_eq
is_text (some (str s)) t = text_eq s t
is_text _ t = false

-- An audience that is the client's identifier, or the list of it alone.
unfoldable pub is_own_audience : Option Json → Text → Bool
unfolding text_eq
is_own_audience (some (str s)) id = text_eq s id
is_own_audience (some (arr (cons (str s) nil))) id = text_eq s id
is_own_audience _ id = false

-- The audiences of a workload token.
unfoldable pub audiences : Option Json → List Text
unfolding texts
audiences (some (str s)) = s ∷ []
audiences (some (arr vs)) = elim (texts vs) [ none ↦ [] | some ts ↦ ts ]
audiences _ = []

unfoldable pub is_subject : Option Json → Bool
unfolding strip
is_subject (some (str s)) = not (is_empty (strip s))
is_subject _ = false

abbrev pub instants : List Text
instants = codes "sub" ∷ codes "aud" ∷ codes "exp" ∷ codes "iat" ∷ []

module _ (is_netloc : Text → Bool) (settings : Settings) (jose : Jose) where
  unfoldable pub identity_registry : Text → Text → Registry
  identity_registry issuer nonce = record {
    leeway = settings.auth_clock_skew_seconds;
    essential = codes "iss" ∷ codes "nonce" ∷ instants;
    values = (codes "iss", issuer) ∷ (codes "nonce", nonce) ∷ [];
  }

  unfoldable pub access_registry : Text → Registry
  access_registry issuer = record {
    leeway = settings.auth_clock_skew_seconds;
    essential = codes "iss" ∷ instants;
    values = (codes "iss", issuer) ∷ [];
  }

  -- A `ValueError` of the settings or of an address is caught, an `AppException` is not.
  unfoldable pub attempt_with : Text → Result Failure jose.KeySet → Attempt
  unfolding auth_allowed_algorithm_list
  attempt_with encoded (err crashed) = refused
  attempt_with encoded (err e) = escaped e
  attempt_with encoded (ok keys) = elim (auth_allowed_algorithm_list settings) [
    | err e ↦ refused
    | ok algorithms ↦ claims_of (jose.decode encoded keys algorithms)
  ]

  abbrev pub Session : Type 0 → Type 0
  Session A = Outcome jose.KeySet A

  -- The round with `refresh` true, after a first one that was refused.
  unfoldable pub last_attempt : Attempt → Result Failure Fields
  last_attempt (decoded claims) = ok claims
  last_attempt (escaped e) = err e
  last_attempt refused = err identity_token_invalid

  unfoldable pub retry :
      Text → OidcMetadata → Exchange → Attempt → Client jose.KeySet → Session Fields
  unfolding last_attempt attempt_with get_key_set
  retry encoded metadata x (decoded claims) c = (ok claims, c)
  retry encoded metadata x (escaped e) c = (err e, c)
  retry encoded metadata x refused c =
      let keys = get_key_set is_netloc settings jose metadata true x c in
      (last_attempt (attempt_with encoded keys.0), keys.1)

  -- `_decode_signed_token`; the two exchanges are those of its rounds.
  unfoldable pub decode_signed_token :
      Text → OidcMetadata → Exchange → Exchange → Client jose.KeySet → Session Fields
  unfolding attempt_with get_key_set retry
  decode_signed_token encoded metadata x x' c =
      let keys = get_key_set is_netloc settings jose metadata false x c in
      retry encoded metadata x' (attempt_with encoded keys.0) keys.1

  -- The checks of `verify_id_token` on decoded claims; `clock` is in seconds.
  unfoldable pub check_identity : Text → OidcMetadata → Text → ℕ → Fields → Result Failure Fields
  unfolding is_text is_own_audience is_subject identity_registry get
  check_identity client_id metadata nonce clock claims = do
    require (is_text (get (codes "iss") claims) metadata.issuer) (
        unauthorized_error (codes "The identity token issuer is invalid") (codes "issuer_mismatch"))
    require (is_own_audience (get (codes "aud") claims) client_id) (
        unauthorized_error (codes "The identity token audience is invalid")
          (codes "audience_mismatch"))
    require (jose.validate (identity_registry metadata.issuer nonce) clock claims)
        identity_token_invalid
    require (is_subject (get (codes "sub") claims)) identity_token_invalid
    ok claims

  -- What a verification meets: the exchanges of `get_metadata` and of the two rounds, and the clock of
  -- the registry.
  pub record Moment : Type 0 where
    pub discovery : Exchange
    pub first : Exchange
    pub second : Exchange
    pub clock : ℕ

  -- `metadata or await self.get_metadata()`
  unfoldable pub metadata_or :
      Option OidcMetadata → Exchange → Client jose.KeySet → Session OidcMetadata
  unfolding get_metadata
  metadata_or (some m) x c = (ok m, c)
  metadata_or none x c = get_metadata is_netloc settings false x c

  unfoldable pub verify_id_token :
      Text → Text → Text → Option OidcMetadata → Moment → Client jose.KeySet → Session Fields
  unfolding metadata_or decode_signed_token check_identity
  verify_id_token client_id encoded nonce metadata t c =
      and_then (metadata_or metadata t.discovery c) λ m c₁.
        and_then (decode_signed_token encoded m t.first t.second c₁)
          λ claims c₂. (check_identity client_id m nonce t.clock claims, c₂)

  unfoldable pub check_access : Text → OidcMetadata → ℕ → Fields → Result Failure Fields
  unfolding audiences access_registry text_eq get
  check_access audience metadata clock claims = do
    require (contains (audiences (get (codes "aud") claims)) audience) (
        unauthorized_error (codes "The service identity audience is invalid")
          (codes "audience_mismatch"))
    require (jose.validate (access_registry metadata.issuer) clock claims)
        (token_invalid (codes "The service identity token is invalid"))
    ok claims

  unfoldable pub verify_access_token :
      Text → Text → Option OidcMetadata → Moment → Client jose.KeySet → Session Fields
  unfolding metadata_or decode_signed_token check_access
  verify_access_token encoded audience metadata t c =
      and_then (metadata_or metadata t.discovery c) λ m c₁.
        and_then (decode_signed_token encoded m t.first t.second c₁)
          λ claims c₂. (check_access audience m t.clock claims, c₂)

  -- The token endpoint: the value of a field of its answer, with the answer.
  unfoldable pub request_token :
      OidcMetadata → Exchange → Pairs → Text → Failure → Failure → Result Failure (Text × Fields)
  unfolding backchannel_target get
  request_token metadata x form name rejected invalid = do
    target ← backchannel_target is_netloc settings metadata.token_endpoint (codes "token_endpoint")
    response ←
        reply_or (x.post target.0 form (accept_json ∷ target.1))
          (unavailable (codes "OIDC token endpoint unavailable"))
    require (response.status_code == 200) rejected
    payload ← or_raise response.json invalid
    answer ← object_or payload invalid
    value ← or_raise (get name answer) invalid
    token ← nonempty_text value invalid
    ok (token, answer)

  unfoldable pub exchange_authorization_code :
      Profile → Text → Text → Text → Exchange → Moment → Client jose.KeySet → Session Fields
  unfolding get_metadata request_token verify_id_token
  exchange_authorization_code profile code code_verifier nonce x t c =
      and_then (get_metadata is_netloc settings false t.discovery c) λ m c₁.
        and_then
          (
            request_token m x
                ((codes "grant_type", codes "authorization_code")
                  ∷ (codes "client_id", profile.client_id)
                  ∷ (codes "client_secret", profile.client_secret)
                  ∷ (codes "code", code)
                  ∷ (codes "redirect_uri", profile.redirect_uri)
                  ∷ (codes "code_verifier", code_verifier)
                  ∷ [])
                (codes "id_token") identity_token_invalid identity_token_invalid,
            c₁,
          )
          λ found c₂. verify_id_token profile.client_id found.0 nonce (some m) t c₂

  unfoldable pub exchange_client_credentials :
      Profile
      → Text
      → Option Text
      → Option Text
      → Exchange
      → Exchange
      → Client jose.KeySet
      → Session Fields
  unfolding get_metadata request_token text_or
  exchange_client_credentials profile scope client_id client_secret d x c =
      and_then (get_metadata is_netloc settings false d c) λ m c₁.
        and_then
          (
            request_token m x
                ((codes "grant_type", codes "client_credentials")
                  ∷ (codes "client_id", text_or client_id profile.client_id)
                  ∷ (codes "client_secret", text_or client_secret profile.client_secret)
                  ∷ (codes "scope", scope)
                  ∷ [])
                (codes "access_token") (token_invalid (codes "The service identity was rejected"))
                (token_invalid (codes "The service identity token is invalid")),
            c₁,
          )
          λ found c₂. (ok found.1, c₂)
