-- ===== src/Settings/Checks.antt =====
-- The validations of app/core/config.py that a process runs when it starts.
use tpl_backend.Base.{
  ◌++◌, Bool, true, false, not, ◌&&◌, ◌||◌, Option, none, some, List, [], ◌∷◌, any, all, map,
  length, Text, codes, text_eq, contains, is_empty, strip, drop_last_while, leb, ◌==◌,
  if◌then◌else◌, or_default, Result, ok, ◌>>=◌, ◌>>◌, require, traverse,
}
use tpl_backend.Base.Url.{SplitResult, urlsplit, hostname, port, has_userinfo}
use tpl_backend.Auth.Principal.{Surface, admin, web, sorted_set}
use tpl_backend.Auth.Profile.{Profile, split_csv}
use tpl_backend.CrossApp.{is_lower, is_digit, is_letter}
use tpl_backend.Settings.{
  SettingsError, url_invalid, wildcard_hosts, no_hosts, no_deployment_id, invalid_app_slug,
  unverified_tls, insecure_cookie, reference_enabled, insecure_origins, invalid_locale,
  no_algorithms, symmetric_algorithm, invalid_organization, several_organizations, discovery_path,
  discovery_origin, insecure_provider, identity_missing, redirect_path, redirect_origin,
  base_not_allowed, insecure_redirect, downstream_missing, downstream_local, no_path_prefixes,
  unverified_downstream, Settings, surface_settings, surface_text, is_production,
  casdoor_discovery_endpoint, is_http_scheme, origin_text, is_bad, or_invalid, has_some,
  validate_relative_path, strict_origin, browser_profile,
}

-- `auth_cookie_secure`
unfoldable pub auth_cookie_secure : Settings → Bool
unfolding is_production
auth_cookie_secure s = or_default s.session_cookie_secure (is_production s)

abbrev pub asymmetric : List Text
asymmetric =
    codes "RS256"
    ∷ codes "RS384"
    ∷ codes "RS512"
    ∷ codes "ES256"
    ∷ codes "ES384"
    ∷ codes "ES512"
    ∷ []

unfoldable pub auth_allowed_algorithm_list : Settings → Result SettingsError (List Text)
unfolding split_csv text_eq
auth_allowed_algorithm_list s = do
  let values = split_csv s.auth_allowed_algorithms
  require (has_some values) no_algorithms
  require (all (contains asymmetric) values) symmetric_algorithm
  ok values

unfoldable pub is_slug : Text → Bool
is_slug s = not (is_empty s) && all (λ c. is_lower c || is_digit c || c == b'-') s

unfoldable pub is_locale : Text → Bool
is_locale s = not (is_empty s) && all (λ c. is_letter c || is_digit c || c == b'-') s

abbrev pub is_false : Option Bool → Bool
is_false (some false) = true
is_false _ = false

-- `[A-Za-z0-9][A-Za-z0-9_-]{0,99}`
unfoldable pub is_organization : Text → Bool
is_organization [] = false
is_organization (c ∷ s) =
    (is_letter c || is_digit c)
    && all (λ d. is_letter d || is_digit d || d == b'_' || d == b'-') s
    && leb (length s) 99

unfoldable pub allowed_organizations : Settings → Surface → List Text
unfolding surface_settings sorted_set split_csv
allowed_organizations s surface =
    sorted_set (split_csv (surface_settings s surface).casdoor_organizations)

abbrev pub is_admin : Surface → Bool
is_admin admin = true
is_admin _ = false

-- One round of the loop over the organizations.
unfoldable pub check_organizations : Settings → List Surface → Result SettingsError (Unit {0})
unfolding allowed_organizations is_organization
check_organizations s [] = ok tt
check_organizations s (surface ∷ rest) = do
  let names = allowed_organizations s surface
  require (has_some names && all is_organization names) invalid_organization
  require (not (is_admin surface) || length names == 1) several_organizations
  check_organizations s rest

-- `(surface,) if surface is not None else ("admin", "web")`
abbrev pub surfaces_of : Option Surface → List Surface
surfaces_of none = admin ∷ web ∷ []
surfaces_of (some surface) = surface ∷ []

unfoldable pub is_blank : Text → Bool
unfolding strip
is_blank s = is_empty (strip s)

-- An address on a path, with nothing but a host and a port before it.
unfoldable pub is_plain_url : Text → SplitResult → Bool
unfolding is_http_scheme hostname has_userinfo text_eq
is_plain_url path u =
    is_http_scheme u.scheme
    && not (is_empty (hostname u))
    && not (has_userinfo u)
    && is_empty u.query
    && is_empty u.fragment
    && text_eq u.path path

abbrev pub is_https : SplitResult → Bool
is_https u = text_eq u.scheme (codes "https")

unfoldable pub downstream_allowed_path_prefix_list : Settings → Result SettingsError (List Text)
unfolding traverse validate_relative_path split_csv drop_last_while
downstream_allowed_path_prefix_list s = do
  paths ← traverse validate_relative_path (split_csv s.downstream_allowed_path_prefixes)
  ok (map (drop_last_while (λ c. c == b'/')) paths)

unfoldable pub callback_path : Surface → Text
unfolding surface_text
callback_path surface = codes "/api/auth/" ++ surface_text surface ++ codes "/callback"

-- The first part of `validate_base_security`, about the process.
unfoldable pub check_process : Settings → Result SettingsError (Unit {0})
unfolding is_blank is_slug split_csv is_production text_eq
check_process s = do
  require (not (is_blank s.deployment_id)) no_deployment_id
  require (is_slug s.app_slug) invalid_app_slug
  require (not (contains (split_csv s.allowed_hosts) (codes "*") && is_production s)) wildcard_hosts
  require (has_some (split_csv s.allowed_hosts)) no_hosts
  require (not (is_production s && not s.casdoor_verify_ssl)) unverified_tls
  require (not (is_production s && is_false s.session_cookie_secure)) insecure_cookie
  require (not (is_production s && s.reference_interaction_enabled)) reference_enabled

module _ (is_netloc : Text → Bool) where
  -- `urlsplit(origin).scheme != "https"`, which production refuses.
  unfoldable pub require_https : SettingsError → Text → Result SettingsError (Unit {0})
  unfolding urlsplit text_eq
  require_https refusal origin = do
    parsed ← or_invalid (urlsplit is_netloc origin) url_invalid
    require (is_https parsed) refusal

  unfoldable pub check_origins : List Text → Result SettingsError (Unit {0})
  unfolding require_https
  check_origins [] = ok tt
  check_origins (origin ∷ origins) = do require_https insecure_origins origin; check_origins origins

  unfoldable pub check_surfaces : Settings → List Surface → Result SettingsError (Unit {0})
  unfolding browser_profile check_origins is_production
  check_surfaces s [] = ok tt
  check_surfaces s (surface ∷ surfaces) = do
    profile ← browser_profile is_netloc s surface
    if is_production s then check_origins profile.frontend_origins else ok tt
    check_surfaces s surfaces

  unfoldable pub validate_base_security : Settings → Result SettingsError (Unit {0})
  unfolding check_process check_surfaces is_locale auth_allowed_algorithm_list
  validate_base_security s = do
    check_process s
    check_surfaces s (surfaces_of none)
    require (is_locale s.web_frontend_default_locale) invalid_locale
    algorithms ← auth_allowed_algorithm_list s
    ok tt

  -- The provider: the discovery document stands on its origin.
  unfoldable pub check_provider : Settings → Result SettingsError Text
  unfolding strict_origin urlsplit require_https casdoor_discovery_endpoint is_plain_url origin_text
      port is_production text_eq
  check_provider s = do
    provider ← strict_origin is_netloc s.casdoor_endpoint
    discovery ← or_invalid (urlsplit is_netloc (casdoor_discovery_endpoint s)) url_invalid
    require (is_plain_url (codes "/.well-known/openid-configuration") discovery) discovery_path
    require (not (is_bad (port discovery))) url_invalid
    require (text_eq (origin_text discovery) provider) discovery_origin
    if is_production s then require_https insecure_provider provider else ok tt
    ok provider

  -- The callback of a surface stands on the origin of its frontend.
  unfoldable pub check_redirect : Settings → Surface → Profile → Result SettingsError (Unit {0})
  unfolding is_blank urlsplit is_plain_url callback_path origin_text port is_production text_eq
  check_redirect s surface profile = do
    require
        (not (
          any is_blank (
            profile.client_id ∷ profile.client_secret ∷ profile.redirect_uri
            ∷ profile.frontend_base_url ∷ [])))
        identity_missing
    redirect ← or_invalid (urlsplit is_netloc profile.redirect_uri) url_invalid
    require (is_plain_url (callback_path surface) redirect) redirect_path
    require (not (is_bad (port redirect))) url_invalid
    require (text_eq (origin_text redirect) profile.frontend_base_url) redirect_origin
    require (contains profile.frontend_origins profile.frontend_base_url) base_not_allowed
    require (not (is_production s && not (is_https redirect))) insecure_redirect

  unfoldable pub check_identities : Settings → List Surface → Result SettingsError (Unit {0})
  unfolding browser_profile check_redirect
  check_identities s [] = ok tt
  check_identities s (surface ∷ surfaces) = do
    profile ← browser_profile is_netloc s surface
    check_redirect s surface profile
    check_identities s surfaces

  unfoldable pub require_browser_identity :
      Settings → Option Surface → Result SettingsError (Unit {0})
  unfolding check_organizations check_provider check_identities
  require_browser_identity s surface = do
    check_organizations s (surfaces_of surface)
    provider ← check_provider s
    check_identities s (surfaces_of surface)

  unfoldable pub require_downstream_identity : Settings → Result SettingsError (Unit {0})
  unfolding is_blank strict_origin browser_profile downstream_allowed_path_prefix_list is_production
      text_eq
  require_downstream_identity s = do
    require
        (not (
          any is_blank (
            s.downstream_base_url ∷ s.downstream_client_id ∷ s.downstream_client_secret
            ∷ s.downstream_scope ∷ [])))
        downstream_missing
    origin ← strict_origin is_netloc s.downstream_base_url
    admin_profile ← browser_profile is_netloc s admin
    web_profile ← browser_profile is_netloc s web
    require
        (not
          (contains (admin_profile.frontend_base_url ∷ web_profile.frontend_base_url ∷ []) origin))
        downstream_local
    prefixes ← downstream_allowed_path_prefix_list s
    require (has_some prefixes) no_path_prefixes
    require (not (is_production s && not s.downstream_verify_ssl)) unverified_downstream
