-- ===== src/Http.antt =====
-- app/app/interfaces/http/auth_common.py, web/auth.py and admin/auth.py: the routes of browser login.
-- FastAPI's parsing of a request, and its quoting of a header, are outside.
pub mod Callback
mod Tests
use tpl_backend.Base.{
  ℕ, ◌++◌, Bool, true, false, ◌||◌, not, Option, none, some, is_some, List, [], ◌∷◌, Text, codes,
  text_eq, contains, is_empty, drop_last_while, ◌==◌, if◌then◌else◌, or_default, Result, ok, err,
}
use tpl_backend.Auth.Errors.{Failure, AppException, raised, crashed, library_error}
use tpl_backend.Auth.Principal.{BrowserSession}
use tpl_backend.Auth.Profile.{Profile}
use tpl_backend.Auth.Service.{AuthService, LoginSecrets, LoginStart, begin_login}
use tpl_backend.Auth.Login.{
  Instants, SessionSecrets, SessionStart, session_ttl, Login, complete_login,
}
use tpl_backend.Auth.Browser.{get_browser_session, cancel_login, end_session}
use tpl_backend.Auth.Oidc.Urls.{urlencode}
use tpl_backend.Settings.{Settings}
use tpl_backend.Settings.Checks.{auth_cookie_secure}

-- A cookie that a response sets.
pub record Cookie : Type 0 where
  pub key : Text
  pub value : Text
  pub httponly : Bool
  pub secure : Bool
  pub samesite : Text
  pub max_age : ℕ
  pub path : Text

pub data CookieChange : Type 0 where
  set_cookie : Cookie → CookieChange
  delete_cookie : Text → CookieChange

-- A response: a redirect has a location, the JSON of a logout an address. `no_store` is the
-- `Cache-Control`.
pub record Response : Type 0 where
  pub status_code : ℕ
  pub location : Option Text
  pub logout_url : Option Text
  pub cookies : List CookieChange
  pub no_store : Bool

abbrev pub redirect : Text → List CookieChange → Response
redirect url cookies = record {
  status_code = 302;
  location = some url;
  logout_url = none;
  cookies = cookies;
  no_store = true;
}

unfoldable pub frontend_redirect : Profile → Text → Text
unfolding drop_last_while
frontend_redirect p path = drop_last_while (λ c. c == b'/') p.frontend_base_url ++ path

-- `set_browser_cookie`
unfoldable pub browser_cookie : Settings → Text → Text → ℕ → Cookie
unfolding auth_cookie_secure
browser_cookie z key value max_age = record {
  key = key;
  value = value;
  httponly = true;
  secure = auth_cookie_secure z;
  samesite = codes "lax";
  max_age = max_age;
  path = codes "/";
}

-- `set_session_cookie`
unfoldable pub session_cookies : Settings → Profile → SessionStart → ℕ → List CookieChange
unfolding browser_cookie session_ttl
session_cookies z p start now =
    set_cookie
      (browser_cookie z p.session_cookie_name start.session_id (session_ttl start.expires_at now))
    ∷ delete_cookie p.transaction_cookie_name
    ∷ []

unfoldable pub login_path : Settings → Text
login_path z = codes "/" ++ z.web_frontend_default_locale ++ codes "/login"

-- `_login_error_redirect`
unfoldable pub login_error_redirect : Settings → Profile → Text → Text
unfolding frontend_redirect urlencode login_path
login_error_redirect z p reason = frontend_redirect p (
    login_path z
    ++ codes "?"
    ++ urlencode ((codes "error", codes "auth_failed") ∷ (codes "reason", reason) ∷ []))

abbrev pub transaction_invalid_reason : Text
transaction_invalid_reason = codes "oidc_transaction_invalid"

abbrev pub provider_unavailable : Text
provider_unavailable = codes "provider_unavailable"

abbrev pub allowed_reasons : List Text
allowed_reasons =
    transaction_invalid_reason
    ∷ codes "token_invalid"
    ∷ codes "issuer_mismatch"
    ∷ codes "audience_mismatch"
    ∷ provider_unavailable
    ∷ []

unfoldable pub reason_of : AppException → Text
unfolding text_eq
reason_of e = if contains allowed_reasons e.code then e.code else provider_unavailable

abbrev pub is_given : Option Text → Bool
is_given none = false
is_given (some s) = if is_empty s then false else true

module _ (z : Settings) (a : AuthService) where
  -- The error page, without the cookie of the transaction.
  unfoldable pub rejected : Text → Response
  rejected url = redirect url (delete_cookie a.profile.transaction_cookie_name ∷ [])

  pub record Answer : Type 0 where
    pub response : Result Failure Response
    pub sessions : a.sessions.State
    pub users : a.users.State

  unfoldable pub start_response : Result Failure LoginStart → Result Failure Response
  unfolding browser_cookie
  start_response (err e) = err e
  start_response (ok start) = ok (
      redirect start.authorization_url (
        set_cookie (
          browser_cookie z a.profile.transaction_cookie_name start.transaction_id
            a.settings.auth_transaction_ttl_seconds)
        ∷ []))

  -- `login` and `signup`; the admin's login has the mode `login`.
  unfoldable pub start :
      ℕ
      → LoginSecrets
      → Option Text
      → Text
      → a.sessions.State
      → Result Failure Response × a.sessions.State
  unfolding begin_login start_response
  start t secrets return_to mode s =
      let begun = begin_login a t secrets return_to mode s in (start_response begun.0, begun.1)

  -- The end of `callback`: only an `AppException` is turned into the error page.
  unfoldable pub callback_response :
      (AppException → Text) → ℕ → Result Failure (SessionStart × Text) → Result Failure Response
  unfolding frontend_redirect session_cookies rejected
  callback_response error_url now (err (raised e)) = ok (rejected (error_url e))
  callback_response error_url now (err crashed) = err crashed
  callback_response error_url now (err library_error) = err library_error
  callback_response error_url now (ok (started, return_to)) =
      ok
        (redirect (frontend_redirect a.profile return_to) (session_cookies z a.profile started now))

  unfoldable pub completed :
      (AppException → Text)
      → ℕ
      → Result Failure (SessionStart × Text)
      → a.sessions.State
      → a.users.State
      → Answer
  unfolding callback_response
  completed error_url now result s u = record {
    response = callback_response error_url now result;
    sessions = s;
    users = u;
  }

  unfoldable pub admin_callback :
      Instants
      → SessionSecrets
      → ℕ
      → Text
      → Text
      → Option Text
      → a.sessions.State
      → a.users.State
      → Answer
  unfolding complete_login completed frontend_redirect
  admin_callback i x now code state id s u =
      let login = complete_login a i x code state id s u in
      completed (λ e. frontend_redirect a.profile (codes "/login?error=auth_failed")) now
        login.result login.sessions login.users

  -- The web's callback, whose parameters may be missing; `now` is the clock at the cookie.
  unfoldable pub web_callback :
      Instants
      → SessionSecrets
      → ℕ
      → Option Text
      → Option Text
      → Option Text
      → Option Text
      → a.sessions.State
      → a.users.State
      → Answer
  unfolding complete_login completed cancel_login rejected login_error_redirect reason_of
  web_callback i x now code state provider_error id s u =
      let login = complete_login a i x (or_default code []) (or_default state []) id s u in
      if is_given provider_error || not (is_given code) || not (is_given state)
      then record {
        response = ok (rejected (login_error_redirect z a.profile transaction_invalid_reason));
        sessions = cancel_login a i.taken id s;
        users = u;
      }
      else completed (λ e. login_error_redirect z a.profile (reason_of e)) now login.result
          login.sessions login.users

  unfoldable pub continue_to_app :
      ℕ → ℕ → Option Text → a.sessions.State → Response × a.sessions.State
  unfolding get_browser_session frontend_redirect login_path
  continue_to_app t now id s =
      let found = get_browser_session a t now id s in
      let target = if is_some found.0 then a.profile.default_return_to else login_path z in
      (redirect (frontend_redirect a.profile target) [], found.1)

  unfoldable pub logout_response : Result Failure (Option Text) → Result Failure Response
  logout_response (err e) = err e
  logout_response (ok url) = ok (record {
    status_code = if is_given url then 200 else 204;
    location = none;
    logout_url = if is_given url then url else none;
    cookies = delete_cookie a.profile.session_cookie_name ∷ [];
    no_store = true;
  })

  -- `logout`, after the dependency that found the session.
  unfoldable pub logout :
      ℕ → Text → Option Text → a.sessions.State → Result Failure Response × a.sessions.State
  unfolding end_session logout_response
  logout t state id s = let ended = end_session a t state id s in (logout_response ended.0, ended.1)

  unfoldable pub logged_out : Response
  unfolding frontend_redirect
  logged_out = redirect (frontend_redirect a.profile a.profile.default_return_to) []
