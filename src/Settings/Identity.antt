-- ===== src/Settings/Identity.antt =====
-- What `require_browser_identity` of app/core/config.py establishes about the provider and the callbacks.
use tpl_backend.Base.{◌≡◌, Bool, true, List, Text, codes, all, length, In, All, some, ok}
use tpl_backend.Base.Url.{SplitResult, urlsplit}
use tpl_backend.Auth.Principal.{Surface}
use tpl_backend.Auth.Profile.{Profile}
use tpl_backend.Settings.{
  Settings, is_production, has_some, browser_profile, casdoor_discovery_endpoint, origin_text,
  strict_origin,
}
use tpl_backend.Settings.Checks.{
  is_https, is_plain_url, is_organization, is_admin, allowed_organizations, callback_path,
}
use tpl_backend.Settings.Production.{IsSecure}

module _ (is_netloc : Text → Bool) (s : Settings) where
  -- The callback of the surface is on its frontend, at the path of its route.
  pub record IsOwnCallback (surface : Surface) (p : Profile) : Type 0 where
    pub parts : SplitResult
    pub parsed : urlsplit is_netloc p.redirect_uri ≡ some parts
    pub plain : is_plain_url (callback_path surface) parts ≡ true
    pub on_base : origin_text parts ≡ p.frontend_base_url
    pub base_allowed : In p.frontend_base_url p.frontend_origins
    pub secure : is_production s ≡ true → is_https parts ≡ true

  pub HasOwnCallback : Surface → Type 0
  HasOwnCallback surface =
      (p : Profile) × (browser_profile is_netloc s surface ≡ ok p) × IsOwnCallback surface p

  -- The discovery document is on the origin of the provider.
  pub record IsOwnProvider (provider : Text) : Type 0 where
    pub discovery : SplitResult
    pub endpoint : strict_origin is_netloc s.casdoor_endpoint ≡ ok provider
    pub parsed : urlsplit is_netloc (casdoor_discovery_endpoint s) ≡ some discovery
    pub plain : is_plain_url (codes "/.well-known/openid-configuration") discovery ≡ true
    pub same_origin : origin_text discovery ≡ provider
    pub secure : is_production s ≡ true → IsSecure is_netloc provider

  -- At least one organization, all well formed, and only one for the administrators.
  pub record IsOrganized (surface : Surface) : Type 0 where
    pub some_name : has_some (allowed_organizations s surface) ≡ true
    pub formed : all is_organization (allowed_organizations s surface) ≡ true
    pub single : is_admin surface ≡ true → length (allowed_organizations s surface) ≡ 1

  pub record IsIdentified (surfaces : List Surface) : Type 0 where
    pub organized : All IsOrganized surfaces
    pub provider : Text
    pub own_provider : IsOwnProvider provider
    pub callbacks : All HasOwnCallback surfaces
