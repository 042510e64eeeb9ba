-- ===== src/Auth/Oidc/Tests.antt =====
-- A provider with one key, and tokens that it signed.
use tpl_backend.Base.{
  ℕ, ◌≡◌, ◌≢◌, ◌⊎◌, inl, inr, ap, ◌∙◌, ◌≤◌, ◌+◌, refl, Bool, true, false, ◌&&◌, Option, none, some,
  [], ◌∷◌, Text, codes, text_eq, all, leb, ◌==◌, if◌then◌else◌, All-in, all-true, and_true, ok,
  arith, Raises,
}
use tpl_backend.Base.Json.{Json, str, int, obj, Fields, end, field, get}
use tpl_backend.Settings.{Settings, SurfaceSettings}
use tpl_backend.Settings.Checks.{auth_allowed_algorithm_list}
use tpl_backend.Auth.Oidc.{
  Reply, got, caught, leaked, OidcMetadata, Response, Pairs, Exchange, Jose, fetch_key_set,
}
use tpl_backend.Auth.Oidc.Client.{Client, cached_keys}
use tpl_backend.Auth.Oidc.Tokens.{
  is_text, Moment, decode_signed_token, verify_id_token, verify_access_token,
}
use tpl_backend.Auth.Oidc.Cached.{decode_signed_token_rotated}
use tpl_backend.Auth.Oidc.Outages.{is_refusal, IsSteady, Decodes, verify_id_token-Raises}
use tpl_backend.Auth.Oidc.Verified.{
  IsRegistry, is_text-get, IsVerified, IsVerifiedAccess, verify_id_token-IsVerified,
  verify_access_token-IsVerified,
}

abbrev no_surface : SurfaceSettings
no_surface = record {
  casdoor_organizations = [];
  casdoor_client_id = codes "c";
  casdoor_client_secret = codes "z";
  casdoor_redirect_uri = [];
  casdoor_application = [];
  auth_policy_version = [];
  auth_role_allowlist = [];
  auth_scope_allowlist = [];
  frontend_base_url = [];
  frontend_allowed_origins = none;
  auth_default_return_to = [];
  auth_allowed_return_paths = [];
}

abbrev settings : Settings
settings = record {
  env = codes "live";
  deployment_id = codes "d";
  app_slug = codes "tpl";
  casdoor_endpoint = codes "https://p";
  casdoor_discovery_url = none;
  casdoor_backchannel_endpoint = some (codes "http://in:80");
  casdoor_verify_ssl = true;
  admin_surface = no_surface;
  web_surface = no_surface;
  web_frontend_default_locale = codes "en";
  auth_discovery_cache_seconds = 300;
  auth_jwks_cache_seconds = 300;
  auth_clock_skew_seconds = 30;
  auth_allowed_algorithms = codes "RS256";
  session_cookie_secure = none;
  allowed_hosts = codes "a.b";
  reference_interaction_enabled = false;
  downstream_base_url = [];
  downstream_client_id = [];
  downstream_client_secret = [];
  downstream_scope = [];
  downstream_allowed_path_prefixes = [];
  downstream_verify_ssl = true;
}

abbrev any_netloc : Text → Bool
any_netloc _ = true

abbrev metadata : OidcMetadata
metadata = record {
  issuer = codes "https://p";
  authorization_endpoint = codes "https://p/auth";
  token_endpoint = codes "https://p/token";
  jwks_uri = codes "https://p/keys";
  end_session_endpoint = none;
}

abbrev document : Fields
document = field (codes "issuer") (str (codes "https://p")) (
    field (codes "authorization_endpoint") (str (codes "https://p/auth")) (
      field (codes "token_endpoint") (str (codes "https://p/token"))
        (field (codes "jwks_uri") (str (codes "https://p/keys")) end)))

-- The provider answers its discovery document inside the cluster, and its keys with a number.
abbrev answer : Text → Pairs → Reply Response
answer url headers =
    if text_eq url (codes "http://in:80/keys")
    then got (record { status_code = 200; json = some (int 2) })
    else if text_eq url (codes "http://in:80/.well-known/openid-configuration")
    then got (record { status_code = 200; json = some (obj document) })
    else caught

abbrev exchange : Exchange
exchange = record { now = 5; get = answer; post = λ _ _ _. caught }

abbrev claims : Fields
claims = field (codes "iss") (str (codes "https://p")) (
    field (codes "aud") (str (codes "c")) (
      field (codes "sub") (str (codes "u"))
        (field (codes "nonce") (str (codes "n")) (field (codes "exp") (int 9) end))))

unfoldable has_time : Option Json → ℕ → ℕ → Bool
has_time (some (int e)) clock leeway = leb clock (e + leeway)
has_time _ clock leeway = false

abbrev response_json : Reply Response → Option Json
response_json (got r) = r.json
response_json _ = none

-- Keys are numbers, and the second one signed the token. An empty document raises a `KeyError`.
abbrev jose : Jose
jose = record {
  KeySet = ℕ;
  import_key_set = λ v. elim v [ int n ↦ got n | obj end ↦ leaked | _ ↦ caught ];
  decode = λ _ key _. if key == 2 then got (obj claims) else caught;
  validate = λ r clock fs.
      all (λ q. is_text (get q.0 fs) q.1) r.values
      && has_time (get (codes "exp") fs) clock r.leeway;
}

has_time-leeway :
    (o : Option Json) (clock leeway e : ℕ)
    → has_time o clock leeway ≡ true
    → o ≡ some (int e)
    → clock ≤ e + leeway
unfolding has_time
has_time-leeway o clock leeway e h k =
    let h' : has_time (some (int e)) clock leeway ≡ true = rw k at h in ground arith

jose-IsRegistry : IsRegistry jose
jose-IsRegistry = record {
  valued = λ r clock fs name value h m.
      let (values, rest) = and_true (all (λ q. is_text (get q.0 fs) q.1) r.values) _ h in
      is_text-get (get name fs) value (
        All-in (λ q. is_text (get q.0 fs) q.1 ≡ true) r.values (name, value)
          (all-true _ r.values values) m);
  unexpired = λ r clock fs e h k.
      let (values, rest) = and_true (all (λ q. is_text (get q.0 fs) q.1) r.values) _ h in
      has_time-leeway _ clock r.leeway e rest k;
}

-- The client still has the first key.
abbrev before_rotation : Client ℕ
before_rotation = record {
  metadata = none;
  metadata_loaded_at = 0;
  key_set = some 1;
  keys_loaded_at = 0;
}

abbrev moment : Moment any_netloc settings jose
moment = record { discovery = exchange; first = exchange; second = exchange; clock = 20 }

abbrev after_rotation : Client ℕ
after_rotation = record before_rotation { key_set = some 2; keys_loaded_at = 5 }

decode_signed_token_rotated_example :
    decode_signed_token any_netloc settings jose
      (codes "t")
      metadata
      exchange
      exchange
      before_rotation
    ≡ (ok claims, after_rotation)
unfolding text_eq cached_keys fetch_key_set auth_allowed_algorithm_list
decode_signed_token_rotated_example =
    decode_signed_token_rotated any_netloc settings jose (codes "t") metadata exchange exchange
      before_rotation 1 2 (codes "RS256" ∷ []) claims refl refl refl refl refl

verify_id_token-IsVerified_example :
    IsVerified any_netloc settings jose jose-IsRegistry
      (codes "c")
      (codes "t")
      (codes "n")
      none
      moment
      before_rotation
      claims
unfolding text_eq verify_id_token has_time
verify_id_token-IsVerified_example =
    verify_id_token-IsVerified any_netloc settings jose jose-IsRegistry (codes "c") (codes "t")
      (codes "n") none moment before_rotation claims refl

-- The two documents of the provider.
answer-documents :
    (keys discovery : Bool) (r : Response) (v : Json)
    → (if keys
        then got (record { status_code = 200; json = some (int 2) })
        else if discovery
        then got (record { status_code = 200; json = some (obj document) })
        else caught)
      ≡ got r
    → r.json ≡ some v
    → (v ≡ int 2) ⊎ (v ≡ obj document)
answer-documents true d r v h k =
    let same : ◌≡◌ {A = Option Json} (some (int 2)) (some v) = ap response_json h ∙ k in
    inl (cc (same))
answer-documents false true r v h k =
    let same : ◌≡◌ {A = Option Json} (some (obj document)) (some v) = ap response_json h ∙ k in
    inr (cc (same))
answer-documents false false r v h k = cc

documents-keyed :
    (v : Json) → (v ≡ int 2) ⊎ (v ≡ obj document) → ◌≢◌ {A = Reply ℕ} (jose.import_key_set v) leaked
documents-keyed v (inl e) k = let k' : ◌≡◌ {A = Reply ℕ} (got 2) leaked = rw e at k in cc
documents-keyed v (inr e) k = let k' : ◌≡◌ {A = Reply ℕ} caught leaked = rw e at k in cc

answer-sent :
    (keys discovery : Bool) (a b : Response)
    → ◌≢◌ {A = Reply Response} (if keys then got a else if discovery then got b else caught) leaked
answer-sent true d a b h = cc
answer-sent false true a b h = cc
answer-sent false false a b h = cc

steady : IsSteady jose exchange
steady = record {
  sent = λ url headers.
      answer-sent (text_eq url (codes "http://in:80/keys"))
        (text_eq url (codes "http://in:80/.well-known/openid-configuration"))
        (record { status_code = 200; json = some (int 2) })
        (record { status_code = 200; json = some (obj document) });
  keyed = λ url headers r v h k. documents-keyed v (
      answer-documents (text_eq url (codes "http://in:80/keys"))
        (text_eq url (codes "http://in:80/.well-known/openid-configuration")) r v h k);
}

decodes_key :
    (second : Bool) → ◌≢◌ {A = Reply Json} (if second then got (obj claims) else caught) leaked
decodes_key true h = cc
decodes_key false h = cc

decodes : Decodes any_netloc settings jose (codes "t")
unfolding Decodes
decodes keys algorithms = decodes_key (keys == 2)

verify_id_token-Raises_example :
    Raises is_refusal
      (verify_id_token any_netloc settings jose
        (codes "c")
        (codes "t")
        (codes "m")
        (some metadata)
        moment
        before_rotation).0
verify_id_token-Raises_example =
    verify_id_token-Raises any_netloc settings jose (codes "c") (codes "t") (codes "m") metadata
      moment before_rotation steady steady decodes

verify_access_token-IsVerified_example :
    IsVerifiedAccess any_netloc settings jose jose-IsRegistry
      (codes "t")
      (codes "c")
      (some metadata)
      moment
      before_rotation
      claims
unfolding text_eq verify_access_token has_time is_text
verify_access_token-IsVerified_example =
    verify_access_token-IsVerified any_netloc settings jose jose-IsRegistry (codes "t") (codes "c")
      (some metadata) moment before_rotation claims refl
