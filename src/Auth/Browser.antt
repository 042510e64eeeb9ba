-- ===== src/Auth/Browser.antt =====
-- app/app/application/services/auth_service.py: the sessions of browsers, and the tests of a request.
pub mod Current
pub mod Csrf
use tpl_backend.Base.{
  ℕ, Bool, false, not, ◌&&◌, Option, none, some, List, [], ◌∷◌, map, Text, codes, text_eq, is_empty,
  contains, upper, leb, if◌then◌else◌, Result, ok, err, ◌>>=◌, ◌>>◌, require,
}
use tpl_backend.Auth.Errors.{Failure, raised, forbidden}
use tpl_backend.Auth.Principal.{surface_eq, Principal, BrowserSession, has_scopes}
use tpl_backend.Auth.Service.{AuthService, known_id, transaction_key, session_key, compare_digest}

module _ (a : AuthService) where
  -- The tests of `get_browser_session` on what was stored.
  unfoldable pub is_current : ℕ → Principal → Bool
  unfolding surface_eq
  is_current now p =
      not (leb p.expires_at now)
      && text_eq p.app a.settings.app_slug
      && surface_eq p.surface a.profile.surface
      && text_eq p.audience a.profile.client_id
      && text_eq p.policy_version a.profile.policy_version

  unfoldable pub current_session : ℕ → Option BrowserSession → Option BrowserSession
  unfolding is_current
  current_session now none = none
  current_session now (some b) = if is_current now b.principal then some b else none

  abbrev pub found_session :
      ℕ → Text → Option Text → a.sessions.State → Option BrowserSession × a.sessions.State
  found_session now k none s = (none, s)
  found_session now k (some []) s = (none, s)
  found_session now k (some (c ∷ raw)) s =
      elim (current_session now (a.codec.model_validate_json (c ∷ raw))) [
        | none ↦ (none, a.sessions.delete now k s)
        | some b ↦ (some b, s)
      ]

  -- It reads the store at `t`, and the clock and the store again at `now`.
  unfoldable pub get_browser_session :
      ℕ → ℕ → Option Text → a.sessions.State → Option BrowserSession × a.sessions.State
  unfolding current_session known_id
  get_browser_session t now id s = elim (known_id id) [
    | none ↦ (none, s)
    | some y ↦ found_session now (session_key a y) (a.sessions.read t (session_key a y) s) s
  ]

  unfoldable pub delete_session : ℕ → Option Text → a.sessions.State → a.sessions.State
  unfolding known_id
  delete_session t id s = elim (known_id id) [
    | none ↦ s
    | some y ↦ a.sessions.delete t (session_key a y) s
  ]

  unfoldable pub cancel_login : ℕ → Option Text → a.sessions.State → a.sessions.State
  unfolding known_id
  cancel_login t id s = elim (known_id id) [
    | none ↦ s
    | some y ↦ a.sessions.delete t (transaction_key a y) s
  ]

  abbrev pub local_only : Result Failure (Option Text) → Result Failure (Option Text)
  local_only (err (raised _)) = ok none
  local_only r = r

  unfoldable pub end_session :
      ℕ → Text → Option Text → a.sessions.State → Result Failure (Option Text) × a.sessions.State
  unfolding delete_session
  end_session t state id s =
      (local_only (a.oidc.end_session_url a.post_logout_redirect_uri state), delete_session t id s)

  abbrev pub safe_methods : List Text
  safe_methods = codes "GET" ∷ codes "HEAD" ∷ codes "OPTIONS" ∷ []

  abbrev pub is_allowed_origin : Option Text → Bool
  is_allowed_origin none = false
  is_allowed_origin (some o) = not (is_empty o) && contains a.profile.frontend_origins o

  abbrev pub same_token : Text → Option Text → Result Failure Bool
  same_token token none = ok false
  same_token token (some []) = ok false
  same_token token (some (c ∷ s)) = compare_digest token (c ∷ s)

  unfoldable pub validate_csrf :
      BrowserSession → Text → Option Text → Option Text → Result Failure (Unit {0})
  unfolding compare_digest
  validate_csrf b method origin token =
      let checks : Result Failure (Unit {0}) =
        require (is_allowed_origin origin) (forbidden (codes "Request origin denied"))
        >> (same_token b.csrf_token token >>= λ same.
            require same (forbidden (codes "CSRF validation failed"))) in
      if contains safe_methods (map upper method) then ok tt else checks

-- `require_scopes`
unfoldable pub require_scopes : Principal → List Text → Result Failure (Unit {0})
unfolding has_scopes
require_scopes p required =
    require (has_scopes p required) (forbidden (codes "Required scope missing"))
