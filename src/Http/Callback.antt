-- ===== src/Http/Callback.antt =====
-- Where the callbacks of app/app/interfaces/http send the browser, and with which cookies.
use tpl_backend.Base.{
  ℕ, ◌≡◌, ◌⊎◌, refl, inl, inr, true, Option, Text, codes, In, Result, ok, err, ok-to,
}
use tpl_backend.Auth.Errors.{Failure, AppException, raised, crashed, library_error}
use tpl_backend.Auth.Principal.{Surface}
use tpl_backend.Auth.Profile.Returns.{IsSafe, IsReturn}
use tpl_backend.Auth.Service.{AuthService}
use tpl_backend.Auth.Login.{Instants, SessionSecrets, SessionStart, complete_login}
use tpl_backend.Auth.Login.Landing.{complete_login-IsReturn}
use tpl_backend.Settings.{Settings, browser_profile}
use tpl_backend.Settings.Profiles.{IsAllowed, configured-IsSafe}
use tpl_backend.Http.{
  delete_cookie, Response, redirect, frontend_redirect, session_cookies, login_error_redirect,
  allowed_reasons, rejected, callback_response, completed, admin_callback,
}

module _ (z : Settings) (a : AuthService) where
  -- The callback's redirect: to an error page, or with the session to where the login started.
  pub record IsLanded (is_error : Text → Type 0) (login : Result Failure (SessionStart × Text))
      (now : ℕ) (r : Response) : Type 0 where
    pub redirects : r.status_code ≡ 302
    pub uncached : r.no_store ≡ true
    pub forgets : In (delete_cookie a.profile.transaction_cookie_name) r.cookies
    pub lands :
        ((url : Text) × is_error url × (r ≡ rejected z a url))
        ⊎ ((started : SessionStart) × (return_to : Text) × (login ≡ ok (started, return_to))
            × (r
                ≡ redirect
                    (frontend_redirect a.profile return_to)
                    (session_cookies z a.profile started now))
            × IsSafe return_to
            × IsAllowed a.profile.allowed_return_paths return_to)

  rejected-IsLanded :
      (is_error : Text → Type 0) (login : Result Failure (SessionStart × Text)) (now : ℕ)
      (url : Text)
      → is_error url
      → IsLanded is_error login now (rejected z a url)
  unfolding rejected
  rejected-IsLanded is_error login now url h = record {
    redirects = refl;
    uncached = refl;
    forgets = inl refl;
    lands = inl (url, h, refl);
  }

  module _ (surface : Surface) (made : browser_profile a.is_netloc z surface ≡ ok a.profile) where
    callback_response-IsLanded :
        (is_error : Text → Type 0) (error_url : AppException → Text) (now : ℕ)
        (login : Result Failure (SessionStart × Text)) (r : Response)
        → ((e : AppException) → is_error (error_url e))
        → ((started : SessionStart) (return_to : Text)
            → login ≡ ok (started, return_to)
            → IsReturn a.profile return_to)
        → callback_response z a error_url now login ≡ ok r
        → IsLanded is_error login now r
    unfolding callback_response session_cookies
    callback_response-IsLanded is_error error_url now (err (raised e)) r page returns h =
        ok-to {E = Failure} (IsLanded is_error _ now) h
          (rejected-IsLanded is_error _ now (error_url e) (page e))
    callback_response-IsLanded is_error error_url now (err crashed) r page returns h = cc
    callback_response-IsLanded is_error error_url now (err library_error) r page returns h = cc
    callback_response-IsLanded is_error error_url now (ok (started, return_to)) r page returns h =
        let (safe, allowed) =
          configured-IsSafe a.is_netloc z surface a.profile return_to made
            (returns started return_to refl) in
        ok-to {E = Failure} (IsLanded is_error _ now) h (record {
          redirects = refl;
          uncached = refl;
          forgets = inr (inl refl);
          lands = inr (started, return_to, refl, refl, safe, allowed);
        })

    -- The web's error page, with one of the allowed reasons.
    pub IsErrorPage : Text → Type 0
    IsErrorPage url =
        (reason : Text) × In reason allowed_reasons
        × (url ≡ login_error_redirect z a.profile reason)

    -- The same of the admin's callback, whose error page has no reason.
    pub admin_callback-IsLanded :
        (i : Instants) (x : SessionSecrets) (now : ℕ) (code state : Text) (id : Option Text)
        (s : a.sessions.State) (u : a.users.State) (r : Response)
        → (admin_callback z a i x now code state id s u).response ≡ ok r
        → IsLanded
            (λ url. url ≡ frontend_redirect a.profile (codes "/login?error=auth_failed"))
            (complete_login a i x code state id s u).result
            now
            r
    unfolding admin_callback completed
    admin_callback-IsLanded i x now code state id s u r h =
        callback_response-IsLanded _ _ now _ r (λ f. refl)
          (λ started return_to k.
            complete_login-IsReturn a i x started return_to code state id s u k)
          h
