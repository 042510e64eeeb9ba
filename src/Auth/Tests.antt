-- ===== src/Auth/Tests.antt =====
-- The theorems on browser login at concrete inputs.
use tpl_backend.Base.{
  ℕ, ◌≡◌, refl, inl, ◌⊎◌, Bool, true, false, Option, none, some, List, [], ◌∷◌, Text, codes,
  text_eq, In, ok, err, contains, upper, map, arith,
}
use tpl_backend.Base.Json.{bool, Json, str, obj, arr, end, field, nil, cons, items}
use tpl_backend.Auth.Errors.{crashed}
use tpl_backend.Auth.Principal.{sorted_set, user, web, Principal, BrowserSession}
use tpl_backend.Auth.Profile.{Profile, normalize_return_to}
use tpl_backend.Auth.Profile.Returns.{IsReturn, normalize_return_to-IsReturn}
use tpl_backend.Auth.Sessions.{IdentityProvider, UserDirectory, Codec}
use tpl_backend.Auth.Memory.{Entries, put, memory, memory-IsSessionStore}
use tpl_backend.Auth.Claims.{all_candidates, allowed_claims}
use tpl_backend.Auth.Claims.Allowed.{IsNamed, allowed_claims-In}
use tpl_backend.Auth.Service.{AuthService, session_key}
use tpl_backend.Auth.Login.{Instants, SessionSecrets}
use tpl_backend.Auth.Browser.{safe_methods, get_browser_session, delete_session, validate_csrf}
use tpl_backend.Auth.Browser.Current.{
  IsCurrent, get_browser_session-IsCurrent, get_browser_session-discards,
  get_browser_session-delete_session,
}
use tpl_backend.Auth.Browser.Csrf.{validate_csrf_sound}
use tpl_backend.Auth.Access.{require_admin_scopes}
use tpl_backend.Auth.Access.Scopes.{IsFullAdmin, require_admin_scopes_sound}
use tpl_backend.Auth.Login.{check_transaction, read_transaction}
use tpl_backend.Auth.Login.Checks.{IsMatched, check_transaction-IsMatched}

abbrev profile : Profile
profile = record {
  surface = web;
  client_id = codes "c";
  client_secret = codes "z";
  redirect_uri = codes "https://a.b/api/auth/web/callback";
  application = codes "tpl-web";
  frontend_base_url = codes "https://a.b";
  frontend_origins = codes "https://a.b" ∷ [];
  policy_version = codes "v2";
  role_allowlist = codes "admin" ∷ codes "operator" ∷ [];
  scope_allowlist = [];
  default_return_to = codes "/home";
  allowed_return_paths = codes "/home" ∷ codes "/docs" ∷ [];
  required_scopes = codes "tpl:admin" ∷ [];
  session_cookie_name = codes "sunmoonai_tpl_web_sid";
  transaction_cookie_name = codes "sunmoonai_tpl_web_oidc_tx";
  session_key_prefix = codes "tpl:auth:web:session:";
  transaction_key_prefix = codes "tpl:auth:web:oidc:";
}

abbrev operator : Principal
operator = record {
  actor_type = user;
  subject = codes "u";
  issuer = codes "i";
  app = codes "tpl";
  surface = web;
  audience = codes "c";
  actor_id = some 1;
  display_name = none;
  email = none;
  roles = codes "operator" ∷ [];
  scopes = [];
  authenticated_at = 0;
  expires_at = 100;
  policy_version = codes "v2";
}

abbrev session : BrowserSession
session = record { principal = operator; csrf_token = codes "token" }

abbrev stored_login : Json
stored_login = obj (
    field (codes "surface") (str (codes "web")) (
      field (codes "state") (str (codes "s")) (
        field (codes "nonce") (str (codes "n"))
          (field (codes "code_verifier") (str (codes "v")) end))))

abbrev codec : Codec
codec = record {
  dumps = λ _. codes "t";
  loads = λ _. some stored_login;
  model_dump_json = λ _. codes "b";
  model_validate_json = λ _. some session;
  to_str = λ _. [];
  challenge = λ v. v;
}

abbrev provider : IdentityProvider
provider = record {
  build_authorization_url = λ _ _ _ _. ok (codes "https://p");
  exchange_authorization_code = λ _ _ _. err crashed;
  end_session_url = λ _ _. ok none;
}

abbrev directory : UserDirectory
directory = record {
  State = ℕ;
  upsert = λ d n. (
    record {
      id = n;
      email = d.email;
      display_name = d.display_name;
      roles = d.roles;
      scopes = d.scopes;
    },
    n,
  );
}

abbrev any_netloc : Text → Bool
any_netloc _ = true

abbrev service : AuthService
service = record {
  codec = codec;
  is_netloc = any_netloc;
  settings = record {
    app_slug = codes "tpl";
    auth_transaction_ttl_seconds = 300;
    session_ttl_seconds = 3600;
    allowed_organizations = codes "users" ∷ [];
  };
  profile = profile;
  oidc = provider;
  sessions = memory;
  users = directory;
  post_logout_redirect_uri = codes "https://a.b/api/auth/web/logged-out";
}

abbrev opened : Entries
opened = put (codes "tpl:auth:web:session:x") (some (codes "b")) (λ _. none)

get_browser_session-IsCurrent_example :
    IsCurrent service 50 operator
    × ((v : Text) × (memory.read 40 (session_key service (codes "x")) opened ≡ some v)
        × (codec.model_validate_json v ≡ some session))
    × ((get_browser_session service 40 50 (some (codes "x")) opened).1 ≡ opened)
unfolding get_browser_session text_eq session_key
get_browser_session-IsCurrent_example =
    get_browser_session-IsCurrent service 40 50 (codes "x") opened session refl

get_browser_session-discards_example :
    (memory.read 40 (session_key service (codes "x")) opened ≡ some [])
    ⊎ (memory.read 300
          (session_key service (codes "x"))
          (get_browser_session service 40 200 (some (codes "x")) opened).1
        ≡ none)
unfolding get_browser_session text_eq session_key
get_browser_session-discards_example =
    get_browser_session-discards service 40 200 300 (codes "x") opened memory-IsSessionStore refl
      (omega arith) (omega arith) refl

get_browser_session-delete_session_example :
    get_browser_session service 20 30
      (some (codes "x"))
      (delete_session service 10 (some (codes "x")) opened)
    ≡ (none, delete_session service 10 (some (codes "x")) opened)
get_browser_session-delete_session_example =
    get_browser_session-delete_session service 10 20 30 (some (codes "x")) opened
      memory-IsSessionStore (omega arith)

validate_csrf_sound_example :
    (contains (safe_methods service) (map upper (codes "post")) ≡ true)
    ⊎ (((o : Text) × (◌≡◌ {A = Option Text} (some (codes "https://a.b")) (some o))
          × In o (codes "https://a.b" ∷ []))
        × ◌≡◌ {A = Option Text} (some (codes "token")) (some (codes "token")))
unfolding validate_csrf text_eq upper
validate_csrf_sound_example =
    validate_csrf_sound service session (codes "post") (some (codes "https://a.b"))
      (some (codes "token")) refl

require_admin_scopes_sound_example :
    (operator ≡ operator)
    × (IsFullAdmin profile operator
        ⊎ ((t : Text)
            → In t (codes "tpl:admin" ∷ [])
            → In t operator.scopes
              ⊎ (In t profile.required_scopes
                  × ((r : Text) × In r profile.role_allowlist × In r operator.roles))))
unfolding require_admin_scopes text_eq
require_admin_scopes_sound_example =
    require_admin_scopes_sound profile (codes "tpl:admin" ∷ []) operator operator refl

normalize_return_to-IsReturn_example : IsReturn profile (codes "/docs/a?b")
unfolding normalize_return_to text_eq
normalize_return_to-IsReturn_example =
    normalize_return_to-IsReturn any_netloc profile (str (codes "/docs/a?b")) (codes "/docs/a?b")
      refl

abbrev role_claims : List (Option Json)
role_claims =
    some (
      arr (
        cons
          (obj (
            field (codes "isEnabled") (bool false)
              (field (codes "name") (str (codes "operator")) end)))
          (cons (obj (field (codes "name") (str (codes "admin")) end))
            (cons (str (codes "root")) nil))))
    ∷ none
    ∷ []

allowed_claims-In_example :
    In (codes "admin") profile.role_allowlist
    × ((v : Json) × In v (all_candidates codec role_claims) × IsNamed codec v (codes "admin"))
unfolding allowed_claims text_eq sorted_set items
allowed_claims-In_example =
    allowed_claims-In codec role_claims profile.role_allowlist (codes "admin") (inl refl)

abbrev started_login : Entries
started_login = put (codes "tpl:auth:web:oidc:x") (some (codes "t")) (λ _. none)

abbrev at_once : Instants
at_once = record { taken = 5; verified = 5; measured = 5; stored = 5 }

abbrev secrets : SessionSecrets
secrets = record { session_id = codes "y"; csrf_token = codes "token" }

check_transaction-IsMatched_example :
    IsMatched service (codes "s") (some stored_login) (codes "n") (codes "v") (codes "/home")
unfolding check_transaction text_eq read_transaction normalize_return_to
check_transaction-IsMatched_example =
    check_transaction-IsMatched service (codes "s") (some stored_login) (codes "n") (codes "v")
      (codes "/home") refl
