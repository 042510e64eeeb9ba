-- ===== src/Settings/Sample.antt =====
-- The settings of a small deployment, and a browser login that uses them, for the tests.
use tpl_backend.Base.{
  ℕ, ◌≡◌, refl, Bool, true, false, none, some, [], ◌∷◌, Text, codes, text_eq, ok, err,
}
use tpl_backend.Base.Json.{str}
use tpl_backend.Auth.Errors.{crashed}
use tpl_backend.Auth.Principal.{web}
use tpl_backend.Auth.Profile.{Profile}
use tpl_backend.Auth.Sessions.{IdentityProvider, UserDirectory, Codec}
use tpl_backend.Auth.Memory.{memory}
use tpl_backend.Auth.Service.{AuthService}
use tpl_backend.Settings.{Settings, SurfaceSettings, profile_of, browser_profile}

abbrev pub web_settings : SurfaceSettings
web_settings = record {
  casdoor_organizations = codes "users";
  casdoor_client_id = codes "c";
  casdoor_client_secret = codes "z";
  casdoor_redirect_uri = codes "https://a.b/api/auth/web/callback";
  casdoor_application = codes "w";
  auth_policy_version = codes "v2";
  auth_role_allowlist = [];
  auth_scope_allowlist = [];
  frontend_base_url = codes "https://a.b";
  frontend_allowed_origins = none;
  auth_default_return_to = codes "/home";
  auth_allowed_return_paths = codes "/home, /docs";
}

abbrev pub admin_settings : SurfaceSettings
admin_settings = record web_settings {
  casdoor_organizations = codes "built-in";
  casdoor_redirect_uri = codes "https://adm.b/api/auth/admin/callback";
  frontend_base_url = codes "https://adm.b";
}

abbrev pub live : Settings
live = record {
  env = codes "live";
  deployment_id = codes "d";
  app_slug = codes "tpl";
  casdoor_endpoint = codes "https://p";
  casdoor_discovery_url = none;
  casdoor_backchannel_endpoint = none;
  casdoor_verify_ssl = true;
  admin_surface = admin_settings;
  web_surface = web_settings;
  web_frontend_default_locale = codes "en";
  auth_discovery_cache_seconds = 300;
  auth_jwks_cache_seconds = 300;
  auth_clock_skew_seconds = 30;
  auth_allowed_algorithms = codes "RS256,ES256";
  session_cookie_secure = none;
  allowed_hosts = codes "a.b";
  reference_interaction_enabled = false;
  downstream_base_url = codes "https://x.b";
  downstream_client_id = codes "c";
  downstream_client_secret = codes "z";
  downstream_scope = codes "s";
  downstream_allowed_path_prefixes = codes "/api/";
  downstream_verify_ssl = true;
}

abbrev pub any_netloc : Text → Bool
any_netloc _ = true

abbrev pub origin : Text
origin = codes "https://a.b"

abbrev pub web_profile : Profile
web_profile =
    profile_of live web origin (origin ∷ []) (codes "/home") (codes "/home" ∷ codes "/docs" ∷ [])

pub made_web : browser_profile any_netloc live web ≡ ok web_profile
unfolding browser_profile text_eq
made_web = refl

abbrev pub codec : Codec
codec = record {
  dumps = λ _. codes "t";
  loads = λ _. some (str []);
  model_dump_json = λ _. codes "b";
  model_validate_json = λ _. none;
  to_str = λ _. [];
  challenge = λ v. v;
}

abbrev pub provider : IdentityProvider
provider = record {
  build_authorization_url = λ _ _ _ _. ok (codes "https://p");
  exchange_authorization_code = λ _ _ _. err crashed;
  end_session_url = λ _ _. ok none;
}

abbrev pub directory : UserDirectory
directory = record {
  State = ℕ;
  upsert = λ d n. (
    record {
      id = n;
      email = d.email;
      display_name = d.display_name;
      roles = d.roles;
      scopes = d.scopes;
    },
    n,
  );
}

abbrev pub service : AuthService
service = record {
  codec = codec;
  is_netloc = any_netloc;
  settings = record {
    app_slug = codes "tpl";
    auth_transaction_ttl_seconds = 300;
    session_ttl_seconds = 3600;
    allowed_organizations = codes "users" ∷ [];
  };
  profile = web_profile;
  oidc = provider;
  sessions = memory;
  users = directory;
  post_logout_redirect_uri = codes "https://a.b/api/auth/web/logged-out";
}
