-- ===== src/Auth/Oidc/Urls.antt =====
-- The addresses to which app/app/infrastructure/security/oidc.py sends the browser.
use tpl_backend.Base.{
  ◌++◌, ◌==◌, Bool, false, Option, none, some, List, [], ◌∷◌, Text, codes, text_eq, drop_last_while,
  if◌then◌else◌, Result, ok, ◌>>◌, require,
}
use tpl_backend.Base.Json.{str}
use tpl_backend.Auth.Errors.{Failure, unauthorized_error}
use tpl_backend.Auth.Principal.{web, surface_eq}
use tpl_backend.Auth.Profile.{Profile}
use tpl_backend.CrossApp.{quote_char}
use tpl_backend.Settings.{Settings}
use tpl_backend.Auth.Oidc.{OidcMetadata, Pairs, Exchange, validate_provider_url}
use tpl_backend.Auth.Oidc.Client.{Client, Outcome, and_then, get_metadata}

-- `quote_plus`
unfoldable pub quote_plus : Text → Text
unfolding quote_char
quote_plus [] = []
quote_plus (c ∷ s) =
    let rest = quote_plus s in (if c == b' ' then codes "+" else quote_char c) ++ rest

-- `urlencode`
unfoldable pub urlencode : Pairs → Text
unfolding quote_plus
urlencode [] = []
urlencode ((k, v) ∷ []) = quote_plus k ++ codes "=" ++ quote_plus v
urlencode ((k, v) ∷ ps) = quote_plus k ++ codes "=" ++ quote_plus v ++ codes "&" ++ urlencode ps

-- `" ".join(…)`
unfoldable pub join_spaces : List Text → Text
join_spaces [] = []
join_spaces (t ∷ []) = t
join_spaces (t ∷ ts) = t ++ codes " " ++ join_spaces ts

unfoldable pub authorization_params : Profile → Text → Text → Text → Text
unfolding urlencode join_spaces
authorization_params profile state nonce code_challenge = urlencode (
    (codes "response_type", codes "code")
    ∷ (codes "client_id", profile.client_id)
    ∷ (codes "redirect_uri", profile.redirect_uri)
    ∷ (
      codes "scope",
      join_spaces (codes "openid" ∷ codes "profile" ∷ codes "email" ∷ profile.required_scopes),
    )
    ∷ (codes "state", state)
    ∷ (codes "nonce", nonce)
    ∷ (codes "code_challenge", code_challenge)
    ∷ (codes "code_challenge_method", codes "S256")
    ∷ [])

abbrev pub transaction_invalid : Failure
transaction_invalid =
    unauthorized_error (codes "The login transaction is invalid") (codes "oidc_transaction_invalid")

module _ (is_netloc : Text → Bool) (settings : Settings) (profile : Profile) where
  -- The endpoint of a login, or of a registration, which only the web surface has.
  unfoldable pub login_endpoint : OidcMetadata → Text → Result Failure Text
  unfolding validate_provider_url surface_eq text_eq drop_last_while
  login_endpoint metadata mode =
      let signup =
        require (surface_eq profile.surface web) transaction_invalid
        >> validate_provider_url is_netloc settings
            (str (
              drop_last_while (λ c. c == b'/') settings.casdoor_endpoint
              ++ codes "/signup/oauth/authorize"))
            (codes "signup_endpoint") in
      if text_eq mode (codes "signup") then signup else ok metadata.authorization_endpoint

  unfoldable pub build_authorization_url :
      {K : Type 0} → Text → Text → Text → Text → Exchange → Client K → Outcome K Text
  unfolding get_metadata login_endpoint authorization_params
  build_authorization_url state nonce code_challenge mode x c =
      and_then (get_metadata is_netloc settings false x c) λ m c₁.
        and_then (login_endpoint m mode, c₁)
          λ endpoint c₂. (
            ok (endpoint ++ codes "?" ++ authorization_params profile state nonce code_challenge),
            c₂,
          )

  unfoldable pub end_session_url :
      {K : Type 0} → Text → Text → Exchange → Client K → Outcome K (Option Text)
  unfolding get_metadata urlencode
  end_session_url post_logout_redirect_uri state x c =
      and_then (get_metadata is_netloc settings false x c) λ m c₁. (
        ok (elim m.end_session_endpoint [
          | none ↦ none
          | some endpoint ↦ some (
              endpoint
              ++ codes "?"
              ++ urlencode (
                  (codes "client_id", profile.client_id)
                  ∷ (codes "post_logout_redirect_uri", post_logout_redirect_uri)
                  ∷ (codes "state", state)
                  ∷ []))
        ]),
        c₁,
      )
