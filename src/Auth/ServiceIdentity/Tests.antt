-- ===== src/Auth/ServiceIdentity/Tests.antt =====
-- The verification of a service token at a concrete input.
use tpl_backend.Base.{ℕ, true, Option, none, some, [], ◌∷◌, Text, codes, ok}
use tpl_backend.Base.Json.{Json, str, end, field}
use tpl_backend.Auth.Principal.{sorted_set, user, web, Principal, BrowserSession}
use tpl_backend.Auth.ServiceIdentity.{ServiceSettings}
use tpl_backend.Auth.Principal.{internal}
use tpl_backend.Base.{Result}
use tpl_backend.Auth.Errors.{Failure}
use tpl_backend.Base.Json.{null, Fields, bool}

abbrev service_settings : ServiceSettings
service_settings = record {
  app_slug = codes "tpl";
  service_auth_audience = codes "tpl-api";
  service_auth_subject_bindings = ok ((codes "svc", codes "a" ∷ codes "b" ∷ []) ∷ []);
  casdoor_discovery_endpoint = codes "https://p";
}

abbrev service_claims : Fields
service_claims = field (codes "sub") (str (codes "svc")) (
    field (codes "iss") (str (codes "p")) (
      field (codes "scope") (str (codes "a b"))
        (field (codes "iat") null (field (codes "exp") (bool true) end))))

abbrev signed : Text → Text → Result Failure Fields
signed _ _ = ok service_claims

abbrev clock : Json → Option ℕ
clock null = some 1
clock _ = some 2

abbrev worker : Principal
worker = record {
  actor_type = tpl_backend.Auth.Principal.service;
  subject = codes "svc";
  issuer = codes "p";
  app = codes "tpl";
  surface = internal;
  audience = codes "tpl-api";
  actor_id = none;
  display_name = none;
  email = none;
  roles = [];
  scopes = codes "a" ∷ codes "b" ∷ [];
  authenticated_at = 1;
  expires_at = 2;
  policy_version = codes "service-v1";
}
