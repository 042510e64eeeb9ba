-- ===== src/Settings.antt =====
-- app/core/config.py: the settings of the two browser surfaces, and the profile made of them. A field
-- `admin_…` or `web_…` stands in the record of its surface.
pub mod Checks
pub mod Profiles
pub mod Keys
pub mod Production
pub mod Identity
pub mod Sample
mod Tests
use tpl_backend.Base.{
  ℕ, ◌++◌, Bool, true, false, not, ◌&&◌, ◌||◌, Option, none, some, List, [], ◌∷◌, any, all, Text,
  codes, text_eq, contains, is_empty, strip, drop_last_while, leb, ◌==◌, if◌then◌else◌, Result, ok,
  err, ◌>>=◌, ◌>>◌, require, traverse,
}
use tpl_backend.Base.Url.{
  SplitResult, urlsplit, hostname, Port, no_port, bad_port, port_number, port, port_text,
  has_userinfo,
}
use tpl_backend.Auth.Errors.{Failure}
use tpl_backend.Auth.Principal.{Surface, admin, web, internal, sorted_set}
use tpl_backend.Auth.Profile.{Profile, split_csv, is_relative_path, url_path, is_under}

-- The `ValueError`s, without the names of fields in their messages.
pub data SettingsError : Type 0 where
  url_invalid wildcard_origin invalid_port not_an_origin unsafe_path no_origins return_not_allowed :
      SettingsError
  no_deployment_id invalid_app_slug wildcard_hosts no_hosts unverified_tls insecure_cookie :
      SettingsError
  reference_enabled insecure_origins invalid_locale no_algorithms symmetric_algorithm :
      SettingsError
  invalid_organization several_organizations discovery_path discovery_origin insecure_provider :
      SettingsError
  identity_missing redirect_path redirect_origin base_not_allowed insecure_redirect : SettingsError
  downstream_missing downstream_local no_path_prefixes unverified_downstream : SettingsError

pub record SurfaceSettings : Type 0 where
  pub casdoor_organizations : Text
  pub casdoor_client_id : Text
  pub casdoor_client_secret : Text
  pub casdoor_redirect_uri : Text
  pub casdoor_application : Text
  pub auth_policy_version : Text
  pub auth_role_allowlist : Text
  pub auth_scope_allowlist : Text
  pub frontend_base_url : Text
  pub frontend_allowed_origins : Option Text
  pub auth_default_return_to : Text
  pub auth_allowed_return_paths : Text

pub record Settings : Type 0 where
  pub env : Text
  pub deployment_id : Text
  pub app_slug : Text
  pub casdoor_endpoint : Text
  pub casdoor_discovery_url : Option Text
  pub casdoor_backchannel_endpoint : Option Text
  pub casdoor_verify_ssl : Bool
  pub admin_surface : SurfaceSettings
  pub web_surface : SurfaceSettings
  pub web_frontend_default_locale : Text
  pub auth_discovery_cache_seconds : ℕ
  pub auth_jwks_cache_seconds : ℕ
  pub auth_clock_skew_seconds : ℕ
  pub auth_allowed_algorithms : Text
  pub session_cookie_secure : Option Bool
  pub allowed_hosts : Text
  pub reference_interaction_enabled : Bool
  pub downstream_base_url : Text
  pub downstream_client_id : Text
  pub downstream_client_secret : Text
  pub downstream_scope : Text
  pub downstream_allowed_path_prefixes : Text
  pub downstream_verify_ssl : Bool

-- `getattr(self, f"{prefix}_…")`. A browser surface is the admin's or the web's.
unfoldable pub surface_settings : Settings → Surface → SurfaceSettings
surface_settings s admin = s.admin_surface
surface_settings s _ = s.web_surface

unfoldable pub surface_text : Surface → Text
surface_text admin = codes "admin"
surface_text web = codes "web"
surface_text internal = codes "internal"

-- `value or default`
unfoldable pub text_or : Option Text → Text → Text
text_or none d = d
text_or (some []) d = d
text_or (some (c ∷ s)) d = c ∷ s

unfoldable pub is_production : Settings → Bool
is_production s = not (contains (codes "development" ∷ codes "test" ∷ []) s.env)

unfoldable pub casdoor_discovery_endpoint : Settings → Text
unfolding text_or drop_last_while
casdoor_discovery_endpoint s = text_or s.casdoor_discovery_url (
    if is_empty s.casdoor_endpoint
    then []
    else drop_last_while (λ c. c == b'/') s.casdoor_endpoint
      ++ codes "/.well-known/openid-configuration")

unfoldable pub is_http_scheme : Text → Bool
is_http_scheme scheme = contains (codes "http" ∷ codes "https" ∷ []) scheme

-- `f"{parsed.scheme}://{parsed.hostname}{port}"`
unfoldable pub origin_text : SplitResult → Text
unfolding hostname port_text port
origin_text u = u.scheme ++ codes "://" ++ hostname u ++ port_text (port u)

unfoldable pub is_root_path : Text → Bool
is_root_path path = is_empty path || text_eq path (codes "/")

-- The test of `_strict_origin` on the parts of the address.
unfoldable pub is_origin : SplitResult → Bool
unfolding is_http_scheme hostname has_userinfo is_root_path
is_origin u =
    is_http_scheme u.scheme
    && not (is_empty (hostname u))
    && not (has_userinfo u)
    && is_root_path u.path
    && is_empty u.query
    && is_empty u.fragment

abbrev pub is_bad : Port → Bool
is_bad bad_port = true
is_bad _ = false

abbrev pub or_invalid : Option SplitResult → SettingsError → Result SettingsError SplitResult
or_invalid none e = err e
or_invalid (some u) e = ok u

-- `_validate_relative_path`
unfoldable pub validate_relative_path : Text → Result SettingsError Text
unfolding is_relative_path
validate_relative_path value = do require (is_relative_path value) unsafe_path; ok value

-- `dict.fromkeys`: each once, where it came first.
unfoldable pub unique_from : List Text → List Text → List Text
unfolding text_eq
unique_from seen [] = []
unique_from seen (t ∷ ts) =
    let fresh = unique_from (t ∷ seen) ts in
    let rest = unique_from seen ts in if contains seen t then rest else t ∷ fresh

-- `urlsplit` raises in `_path_is_allowed`.
abbrev pub path_or_invalid : Result Failure Text → Result SettingsError Text
path_or_invalid (err e) = err url_invalid
path_or_invalid (ok path) = ok path

abbrev pub has_some : List Text → Bool
has_some [] = false
has_some (_ ∷ _) = true

-- The `BrowserSurfaceProfile(…)` of a surface.
unfoldable pub profile_of : Settings → Surface → Text → List Text → Text → List Text → Profile
unfolding surface_settings surface_text sorted_set split_csv
profile_of s surface base origins return_to allowed =
    let c = surface_settings s surface in
    let name = surface_text surface in
    record {
      surface = surface;
      client_id = c.casdoor_client_id;
      client_secret = c.casdoor_client_secret;
      redirect_uri = c.casdoor_redirect_uri;
      application = c.casdoor_application;
      frontend_base_url = base;
      frontend_origins = origins;
      policy_version = c.auth_policy_version;
      role_allowlist = sorted_set (split_csv c.auth_role_allowlist);
      scope_allowlist = sorted_set (split_csv c.auth_scope_allowlist);
      default_return_to = return_to;
      allowed_return_paths = allowed;
      required_scopes = elim surface [ admin ↦ (s.app_slug ++ codes ":admin") ∷ [] | _ ↦ [] ];
      session_cookie_name = codes "sunmoonai_" ++ s.app_slug ++ codes "_" ++ name ++ codes "_sid";
      transaction_cookie_name =
          codes "sunmoonai_" ++ s.app_slug ++ codes "_" ++ name ++ codes "_oidc_tx";
      session_key_prefix = s.app_slug ++ (codes ":auth:" ++ name ++ codes ":session:");
      transaction_key_prefix = s.app_slug ++ (codes ":auth:" ++ name ++ codes ":oidc:");
    }

module _ (is_netloc : Text → Bool) where
  -- `_strict_origin`, which turns the `ValueError` of `urlsplit` into its own.
  unfoldable pub strict_origin : Text → Result SettingsError Text
  unfolding urlsplit port is_origin origin_text text_eq
  strict_origin value = do
    require (not (text_eq value (codes "*"))) wildcard_origin
    parsed ← or_invalid (urlsplit is_netloc value) invalid_port
    require (not (is_bad (port parsed))) invalid_port
    require (is_origin parsed) not_an_origin
    ok (origin_text parsed)

  -- The paths to which a login may return, with the default among them.
  unfoldable pub return_paths : SurfaceSettings → Result SettingsError (List Text)
  unfolding validate_relative_path split_csv traverse url_path is_under
  return_paths c = do
    allowed ← traverse validate_relative_path (split_csv c.auth_allowed_return_paths)
    require (has_some allowed) return_not_allowed
    path ← path_or_invalid (url_path is_netloc c.auth_default_return_to)
    require (any (is_under path) allowed) return_not_allowed
    ok allowed

  unfoldable pub browser_profile : Settings → Surface → Result SettingsError Profile
  unfolding surface_settings strict_origin text_or unique_from split_csv traverse return_paths
      profile_of validate_relative_path
  browser_profile s surface = do
    let c = surface_settings s surface
    base ← strict_origin c.frontend_base_url
    origins ← traverse strict_origin (split_csv (text_or c.frontend_allowed_origins base))
    require (has_some (unique_from [] origins)) no_origins
    return_to ← validate_relative_path c.auth_default_return_to
    allowed ← return_paths c
    ok (profile_of s surface base (unique_from [] origins) return_to allowed)
