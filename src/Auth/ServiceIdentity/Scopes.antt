-- ===== src/Auth/ServiceIdentity/Scopes.antt =====
-- What a service identity that `verify` accepts may do.
use tpl_backend.Base.{◌≡◌, List, Text, codes, In, Result, ok}
use tpl_backend.Base.Json.{Json, Fields, get}
use tpl_backend.Auth.Errors.{Failure, forbidden_error}
use tpl_backend.Auth.Principal.{service, internal, Principal, normalize_scopes}
use tpl_backend.Auth.ServiceIdentity.{
  Bindings, allowed_for, text_claim, scopes_of, ServiceSettings, require_service_identity,
}

abbrev denied : Failure
denied =
    forbidden_error (codes "The service identity scope is not authorized")
      (codes "service_scope_denied")

-- An internal principal for the subject of a verified token, with the scopes of the token.
pub record IsVerified (settings : ServiceSettings)
    (verify_access_token : Text → Text → Result Failure Fields) (encoded : Text)
    (required : List Text) (q : Principal) : Type 0 where
  pub bindings : Bindings
  pub claims : Fields
  pub allowed : List Text
  pub scopes : List Text
  pub bound : require_service_identity settings ≡ ok bindings
  pub signed : verify_access_token encoded settings.service_auth_audience ≡ ok claims
  pub subject : text_claim (get (codes "sub") claims) ≡ ok q.subject
  pub allowed_is : allowed_for q.subject bindings ≡ ok allowed
  pub scopes_is : scopes_of claims ≡ ok scopes
  pub normalized : normalize_scopes scopes ≡ ok q.scopes
  pub bounded : (t : Text) → In t scopes → In t allowed
  pub enough : (t : Text) → In t required → In t scopes
  pub actor : (q.actor_type ≡ service) × (q.surface ≡ internal)
