-- ===== src/Auth/Oidc.antt =====
-- app/app/infrastructure/security/oidc.py: `OidcProviderClient`. The network, `KeySet.import_key_set`,
-- `jwt.decode` and `JWTClaimsRegistry.validate` are parameters. Instants of the monotonic clock are
-- microseconds.
pub mod Client
pub mod Tokens
pub mod Urls
pub mod Cached
pub mod Outages
pub mod Signed
pub mod Verified
mod Tests
use tpl_backend.Base.{
  ℕ, ◌+◌, ◌*◌, ◌++◌, Bool, true, false, not, ◌&&◌, ◌||◌, Option, none, some, List, [], ◌∷◌, map,
  Text, codes, text_eq, contains, is_empty, lower, ltb, ◌==◌, if◌then◌else◌, drop_last_while,
  Result, ok, err, ◌>>=◌, ◌>>◌, require, or_raise,
}
use tpl_backend.Base.Json.{Json, null, str, arr, obj, Items, nil, cons, Fields, get, get_or_null}
use tpl_backend.Base.Url.{SplitResult, urlsplit, urlunsplit, hostname, port, port_eq, has_userinfo}
use tpl_backend.Auth.Errors.{
  Failure, raised, crashed, library_error, unauthorized_error, service_unavailable_error,
}
use tpl_backend.Auth.Profile.{Profile}
use tpl_backend.Settings.{
  Settings, is_production, is_http_scheme, is_root_path, casdoor_discovery_endpoint, text_or,
  is_bad,
}

pub record OidcMetadata : Type 0 where
  pub issuer : Text
  pub authorization_endpoint : Text
  pub token_endpoint : Text
  pub jwks_uri : Text
  pub end_session_endpoint : Option Text

-- What `response.json()` gives; none is its `ValueError`.
pub record Response : Type 0 where
  pub status_code : ℕ
  pub json : Option Json

abbrev pub Pairs : Type 0
Pairs = List (Text × Text)

-- What a call of a library gives: a value, an exception that the client catches there, or another one.
pub data Reply (A : Type 0) : Type 0 where
  got : A → Reply A
  caught leaked : Reply A

abbrev pub reply_or : {A : Type 0} → Reply A → Failure → Result Failure A
reply_or (got a) e = ok a
reply_or caught e = err e
reply_or leaked e = err library_error

-- The clock when a call starts, and what the network answers during it; the client catches
-- `httpx.HTTPError`.
pub record Exchange : Type 0 where
  pub now : ℕ
  pub get : Text → Pairs → Reply Response
  pub post : Text → Pairs → Pairs → Reply Response

-- The arguments of a `JWTClaimsRegistry`: the claims that must be there, and those with a value.
pub record Registry : Type 0 where
  pub leeway : ℕ
  pub essential : List Text
  pub values : Pairs

-- The library for keys and tokens. `validate` reads the clock, in seconds, for the instants of
-- a token. The client catches `JoseError`, `ValueError` and `TypeError`.
pub record Jose : Type 1 where
  pub KeySet : Type 0
  pub import_key_set : Json → Reply KeySet
  pub decode : Text → KeySet → List Text → Reply Json
  pub validate : Registry → ℕ → Fields → Bool

abbrev pub unavailable : Text → Failure
unavailable msg = service_unavailable_error msg (codes "provider_unavailable")

abbrev pub token_invalid : Text → Failure
token_invalid msg = unauthorized_error msg (codes "token_invalid")

abbrev pub identity_token_invalid : Failure
identity_token_invalid = token_invalid (codes "The identity token is invalid")

-- The `ValueError` of `urlsplit`, which nothing here turns into an `AppException`.
abbrev pub split_or_crash : Option SplitResult → Result Failure SplitResult
split_or_crash none = err crashed
split_or_crash (some u) = ok u

abbrev pub nonempty_text : Json → Failure → Result Failure Text
nonempty_text (str (c ∷ s)) e = ok (c ∷ s)
nonempty_text _ e = err e

abbrev pub object_or : Json → Failure → Result Failure Fields
object_or (obj fs) e = ok fs
object_or _ e = err e

abbrev pub accept_json : Text × Text
accept_json = (codes "Accept", codes "application/json")

module _ (is_netloc : Text → Bool) (settings : Settings) where
  -- `_validate_provider_url`
  unfoldable pub validate_provider_url : Json → Text → Result Failure Text
  unfolding urlsplit is_http_scheme hostname has_userinfo is_production port port_eq text_eq lower
  validate_provider_url v field = do
    value ← nonempty_text v (unavailable (codes "OIDC metadata missing " ++ field))
    parsed ← split_or_crash (urlsplit is_netloc value)
    endpoint ← split_or_crash (urlsplit is_netloc settings.casdoor_endpoint)
    let invalid = unavailable (codes "OIDC metadata invalid " ++ field)
    let cross_origin = unavailable (codes "OIDC metadata cross-origin " ++ field)
    require (is_http_scheme parsed.scheme && not (is_empty (hostname parsed))) invalid
    require (not (has_userinfo parsed) && is_empty parsed.fragment) invalid
    require (not (is_production settings && not (text_eq parsed.scheme (codes "https"))))
        (unavailable (codes "OIDC metadata requires HTTPS"))
    require
        (not (is_empty (hostname endpoint))
          && text_eq (map lower (hostname parsed)) (map lower (hostname endpoint)))
        cross_origin
    require (not (is_bad (port parsed) || is_bad (port endpoint))) crashed
    require (port_eq (port parsed) (port endpoint)) cross_origin
    ok value

  -- The address of the provider inside the cluster, with the public host as a header.
  unfoldable pub route_of : Text → Text → Result Failure (Text × Pairs)
  unfolding urlsplit urlunsplit is_http_scheme hostname has_userinfo is_root_path
  route_of configured public_url = do
    backchannel ← split_or_crash (urlsplit is_netloc configured)
    require
        (is_http_scheme backchannel.scheme
          && not (is_empty (hostname backchannel))
          && not (has_userinfo backchannel)
          && is_root_path backchannel.path
          && is_empty backchannel.query
          && is_empty backchannel.fragment)
        (unavailable (codes "OIDC backchannel endpoint invalid"))
    parsed ← split_or_crash (urlsplit is_netloc public_url)
    endpoint ← split_or_crash (urlsplit is_netloc settings.casdoor_endpoint)
    ok (
      urlunsplit backchannel.scheme backchannel.netloc parsed.path parsed.query,
      (codes "Host", endpoint.netloc) ∷ [],
    )

  -- `_backchannel_target`
  unfoldable pub backchannel_target : Text → Text → Result Failure (Text × Pairs)
  unfolding validate_provider_url route_of text_or
  backchannel_target public_url field = do
    url ← validate_provider_url (str public_url) field
    let configured = text_or settings.casdoor_backchannel_endpoint []
    if is_empty configured then ok (url, []) else route_of configured url

  -- An optional address; `None` and a missing key are the same.
  unfoldable optional_url : Json → Result Failure (Option Text)
  unfolding validate_provider_url
  optional_url null = ok none
  optional_url v = validate_provider_url v (codes "end_session_endpoint") >>= λ url. ok (some url)

  -- `OidcMetadata(…)` of the decoded discovery document.
  unfoldable pub metadata_of : Fields → Result Failure OidcMetadata
  unfolding validate_provider_url get_or_null optional_url
  metadata_of payload = do
    issuer ← validate_provider_url (get_or_null (codes "issuer") payload) (codes "issuer")
    authorization ←
        validate_provider_url (get_or_null (codes "authorization_endpoint") payload)
          (codes "authorization_endpoint")
    token ←
        validate_provider_url (get_or_null (codes "token_endpoint") payload)
          (codes "token_endpoint")
    jwks ← validate_provider_url (get_or_null (codes "jwks_uri") payload) (codes "jwks_uri")
    end_session ← optional_url (get_or_null (codes "end_session_endpoint") payload)
    ok (record {
      issuer = issuer;
      authorization_endpoint = authorization;
      token_endpoint = token;
      jwks_uri = jwks;
      end_session_endpoint = end_session;
    })

  -- The request of the discovery document.
  unfoldable pub fetch_metadata : Exchange → Result Failure OidcMetadata
  unfolding casdoor_discovery_endpoint backchannel_target metadata_of
  fetch_metadata x = do
    let down = unavailable (codes "OIDC discovery unavailable")
    let discovery_url = casdoor_discovery_endpoint settings
    require (not (is_empty discovery_url)) (unavailable (codes "OIDC discovery is not configured"))
    target ← backchannel_target discovery_url (codes "discovery")
    response ← reply_or (x.get target.0 (accept_json ∷ target.1)) down
    require (response.status_code == 200) down
    payload ← or_raise response.json (unavailable (codes "OIDC discovery returned invalid JSON"))
    document ← object_or payload (unavailable (codes "OIDC discovery returned invalid document"))
    metadata_of document

  module _ (jose : Jose) where
    -- The request of the provider's keys.
    unfoldable pub fetch_key_set : Exchange → OidcMetadata → Result Failure jose.KeySet
    unfolding backchannel_target
    fetch_key_set x metadata = do
      let down = unavailable (codes "OIDC JWKS unavailable")
      let bad = unavailable (codes "OIDC JWKS invalid")
      target ← backchannel_target metadata.jwks_uri (codes "jwks_uri")
      response ← reply_or (x.get target.0 (accept_json ∷ target.1)) down
      require (response.status_code == 200) down
      payload ← or_raise response.json bad
      reply_or (jose.import_key_set payload) bad
