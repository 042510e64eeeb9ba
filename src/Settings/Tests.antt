-- ===== src/Settings/Tests.antt =====
-- The settings of a small deployment.
use tpl_backend.Base.{◌≡◌, refl, none, some, codes, text_eq, ok, err, arith}
use tpl_backend.Auth.Principal.{web}
use tpl_backend.Auth.Memory.{Entries, put, memory-IsSessionStore}
use tpl_backend.Auth.Service.{transaction_error}
use tpl_backend.Auth.Login.{Instants, SessionSecrets, complete_login}
use tpl_backend.Settings.{is_production}
use tpl_backend.Settings.Checks.{validate_base_security, require_downstream_identity}
use tpl_backend.Settings.Keys.{configured_login_once}
use tpl_backend.Settings.Production.{IsHardened, validate_base_security-IsHardened}
use tpl_backend.Settings.Sample.{any_netloc, live, made_web, service}

downstream_ok : require_downstream_identity any_netloc live ≡ ok tt
unfolding require_downstream_identity text_eq
downstream_ok = refl

valid : validate_base_security any_netloc live ≡ ok tt
unfolding validate_base_security text_eq
valid = refl

validate_base_security-IsHardened_example : IsHardened any_netloc live
unfolding text_eq is_production
validate_base_security-IsHardened_example =
    validate_base_security-IsHardened any_netloc live tt refl valid

abbrev started_login : Entries
started_login = put (codes "tpl:auth:web:oidc:x") (some (codes "t")) (λ _. none)

abbrev at_once : Instants
at_once = record { taken = 5; verified = 5; measured = 5; stored = 5 }

abbrev secrets : SessionSecrets
secrets = record { session_id = codes "y"; csrf_token = codes "token" }

configured_login_once_example :
    (complete_login service at_once secrets
      (codes "k")
      (codes "s")
      (some (codes "x"))
      (complete_login service at_once secrets
        (codes "k")
        (codes "s")
        (some (codes "x"))
        started_login
        1).sessions
      1).result
    ≡ err transaction_error
configured_login_once_example =
    configured_login_once any_netloc live web service at_once at_once secrets secrets (codes "k")
      (codes "k") (codes "s") (codes "s") (codes "x") started_login 1 1 made_web
      memory-IsSessionStore (omega arith)
