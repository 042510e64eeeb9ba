-- ===== src/Auth/Access.antt =====
-- app/app/interfaces/http/middleware/auth.py: who a request acts for, and what an administrator may.
pub mod Scopes
use tpl_backend.Base.{
  ℕ, ◌≡◌, Bool, true, false, not, ◌&&◌, ◌||◌, Option, none, some, List, [], ◌∷◌, ◌++◌, map, filter,
  Text, codes, text_eq, is_empty, has_char, contains, lower, ◌==◌, if◌then◌else◌, Result, ok, err,
  ◌>>=◌, ◌>>◌, require,
}
use tpl_backend.Auth.Errors.{Failure, auth_required, unauthorized_error, forbidden}
use tpl_backend.Auth.Principal.{ActorType, is_user, Principal, BrowserSession, is_subset}
use tpl_backend.Auth.Profile.{Profile}
use tpl_backend.Auth.Service.{AuthService}
use tpl_backend.Auth.Browser.{get_browser_session, validate_csrf}

-- What the request carries.
pub record Request : Type 0 where
  pub method : Text
  pub origin : Option Text
  pub session_id : Option Text
  pub csrf_token : Option Text

-- `_session`, but for the audit context.
abbrev pub user_session :
    AuthService → Request → Option BrowserSession → Result Failure BrowserSession
user_session a r none = err auth_required
user_session a r (some b) = do
  require (is_user b.principal.actor_type) auth_required
  validate_csrf a b r.method r.origin r.csrf_token
  ok b

unfoldable pub session_of :
    (a : AuthService)
    → ℕ
    → ℕ
    → Request
    → a.sessions.State
    → Result Failure BrowserSession × a.sessions.State
unfolding get_browser_session validate_csrf is_user
session_of a t now r s =
    let found = get_browser_session a t now r.session_id s in (user_session a r found.0, found.1)

abbrev pub full_admin_role : Text
full_admin_role = codes "admin"

-- `set(principal.roles) & role_allowlist`
unfoldable pub allowed_roles : Profile → Principal → List Text
allowed_roles p q = filter (contains p.role_allowlist) q.roles

-- `frozenset(required_scopes) if roles else frozenset()`
abbrev pub base_scopes : List Text → List Text → List Text
base_scopes required [] = []
base_scopes required (_ ∷ _) = required

-- `granted_scopes`: none is all of them. A set is a list whose order and repetitions do not matter.
unfoldable pub granted_scopes : Profile → Principal → Option (List Text)
unfolding allowed_roles
granted_scopes p q =
    if contains (allowed_roles p q) full_admin_role
    then none
    else some (q.scopes ++ base_scopes p.required_scopes (allowed_roles p q))

abbrev pub covers : Option (List Text) → List Text → Bool
covers none required = true
covers (some granted) required = is_subset required granted

-- The dependency of `require_admin_scopes`, on the principal of the session.
unfoldable pub require_admin_scopes : Profile → List Text → Principal → Result Failure Principal
unfolding granted_scopes is_subset
require_admin_scopes p required q = do
  require (covers (granted_scopes p q) required) (forbidden (codes "Required scope missing"))
  ok q

-- `partition(" ")`: what is before and after the first space.
unfoldable pub partition : Text → Text × Text
partition [] = ([], [])
partition (c ∷ s) =
    let (before, after) = partition s in if c == b' ' then ([], s) else (c ∷ before, after)

-- The token of an `Authorization` header, in `get_internal_service_principal`.
unfoldable pub bearer_token : Option Text → Result Failure Text
unfolding partition text_eq
bearer_token header =
    let (scheme, encoded) = partition (elim header [ none ↦ [] | some s ↦ s ]) in
    if not (text_eq (map lower scheme) (codes "bearer"))
      || is_empty encoded
      || has_char encoded b' '
    then err (
        unauthorized_error (codes "A Bearer service identity is required")
          (codes "service_auth_required"))
    else ok encoded
