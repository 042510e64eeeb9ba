-- ===== src/Http/Tests.antt =====
-- A login over the routes of the web surface.
use tpl_backend.Base.{◌≡◌, refl, none, some, codes, text_eq, ok}
use tpl_backend.Base.Json.{Json, str, obj, end, field}
use tpl_backend.Auth.Sessions.{Claims}
use tpl_backend.Auth.Memory.{Entries, put}
use tpl_backend.Auth.Service.{AuthService}
use tpl_backend.Auth.Login.{Instants, SessionSecrets}
use tpl_backend.Settings.{profile_of}
use tpl_backend.Settings.Sample.{live, service, codec, provider}
use tpl_backend.Http.{rejected, Response, redirect, session_cookies, admin_callback}

abbrev transaction : Json
transaction = obj (
    field (codes "surface") (str (codes "web")) (
      field (codes "state") (str (codes "s")) (
        field (codes "nonce") (str (codes "n")) (
          field (codes "code_verifier") (str (codes "v"))
            (field (codes "return_to") (str (codes "/docs/a")) end)))))

abbrev claims : Claims
claims = record {
  iss = codes "https://p";
  sub = codes "u";
  exp = 100;
  iat = 1;
  fields = field (codes "owner") (str (codes "users")) end;
}

abbrev app : AuthService
app = record service {
  codec = record codec { loads = λ _. some transaction };
  oidc = record provider { exchange_authorization_code = λ _ _ _. ok claims };
}

abbrev waiting : Entries
waiting = put (codes "tpl:auth:web:oidc:x") (some (codes "t")) (λ _. none)

abbrev instants : Instants
instants = record { taken = 5; verified = 5; measured = 5; stored = 5 }

abbrev secrets : SessionSecrets
secrets = record { session_id = codes "y"; csrf_token = codes "0123456789abcdef0123456789abcdef" }

abbrev landed : Response
landed =
    redirect (codes "https://a.b/docs/a") (
      session_cookies live app.profile (record { session_id = codes "y"; expires_at = 100000000 })
        5)

abbrev refused : Response
refused = rejected live app (codes "https://a.b/login?error=auth_failed")

admin_refused :
    (admin_callback live app instants secrets 5 (codes "k") (codes "s") none waiting 1).response
    ≡ ok refused
unfolding admin_callback text_eq profile_of
admin_refused = refl
