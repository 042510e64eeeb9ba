-- ===== src/Auth/Service.antt =====
-- app/app/application/services/auth_service.py: `AuthService`. A method takes the instants that it
-- reads and the fresh secrets that it draws, and returns its result with the state of the session
-- store: what was written stays when a later line raises.
use Prim.Native.Nat.{◌/◌}
use tpl_backend.Base.{
  ℕ, ◌++◌, Bool, true, false, ◌&&◌, ◌||◌, Option, none, some, all, length, Text, codes, text_eq,
  is_empty, leb, ltb, if◌then◌else◌, Result, ok, err,
}
use tpl_backend.Base.Json.{Json, null, int, str, obj, end, field}
use tpl_backend.Auth.Errors.{Failure, crashed, unauthorized_error}
use tpl_backend.Auth.Principal.{Surface, admin, web, internal, surface_eq, ContractError}
use tpl_backend.Auth.Profile.{Profile, normalize_return_to}
use tpl_backend.Auth.Sessions.{SessionStore, IdentityProvider, UserDirectory, Codec, Settings}

-- What `__init__` stores, with the codecs.
pub record AuthService : Type 1 where
  pub codec : Codec
  pub is_netloc : Text → Bool
  pub settings : Settings
  pub profile : Profile
  pub oidc : IdentityProvider
  pub sessions : SessionStore
  pub users : UserDirectory
  pub post_logout_redirect_uri : Text

abbrev pub surface_name : Surface → Text
surface_name admin = codes "admin"
surface_name web = codes "web"
surface_name internal = codes "internal"

abbrev pub transaction_error : Failure
transaction_error =
    unauthorized_error (codes "The login transaction is invalid") (codes "oidc_transaction_invalid")

abbrev pub contract_failure {ℓ} : {A : Type ℓ} → Result ContractError A → Result Failure A
contract_failure (ok a) = ok a
contract_failure (err _) = err crashed

-- An identifier that a cookie carries.
unfoldable pub known_id : Option Text → Option Text
known_id none = none
known_id (some x) = if is_empty x || ltb 256 (length x) then none else some x

unfoldable pub transaction_key : AuthService → Text → Text
transaction_key a x = a.profile.transaction_key_prefix ++ x

unfoldable pub session_key : AuthService → Text → Text
session_key a x = a.profile.session_key_prefix ++ x

-- The secrets that `begin_login` draws.
pub record LoginSecrets : Type 0 where
  pub transaction_id : Text
  pub state : Text
  pub nonce : Text
  pub code_verifier : Text

pub record LoginStart : Type 0 where
  pub authorization_url : Text
  pub transaction_id : Text

unfoldable pub is_login_mode : Surface → Text → Bool
unfolding text_eq surface_eq
is_login_mode surface mode =
    text_eq mode (codes "login") || (text_eq mode (codes "signup") && surface_eq surface web)

-- The seconds of an instant.
abbrev pub epoch : ℕ → ℕ
epoch t = t / 1000000

unfoldable pub transaction_json : AuthService → ℕ → LoginSecrets → Text → Json
transaction_json a t x return_to = obj (
    field (codes "surface") (str (surface_name a.profile.surface)) (
      field (codes "state") (str x.state) (
        field (codes "nonce") (str x.nonce) (
          field (codes "code_verifier") (str x.code_verifier) (
            field (codes "return_to") (str return_to)
              (field (codes "created_at") (int (epoch t)) end))))))

abbrev pub given : Option Text → Json
given none = null
given (some s) = str s

module _ (a : AuthService) where
  -- The end of `begin_login`, once the transaction is stored.
  abbrev pub started :
      ℕ
      → LoginSecrets
      → Result Failure Text
      → a.sessions.State
      → Result Failure LoginStart × a.sessions.State
  started t x (err e) s = (err e, a.sessions.delete t (transaction_key a x.transaction_id) s)
  started t x (ok url) s =
      (ok (record { authorization_url = url; transaction_id = x.transaction_id }), s)

  abbrev pub stored_transaction :
      ℕ
      → LoginSecrets
      → Text
      → Bool × a.sessions.State
      → Result Failure LoginStart × a.sessions.State
  stored_transaction t x mode (false, s) = (err transaction_error, s)
  stored_transaction t x mode (true, s) =
      started t x
        (a.oidc.build_authorization_url x.state x.nonce (a.codec.challenge x.code_verifier) mode) s

  abbrev pub store_transaction :
      ℕ
      → LoginSecrets
      → Text
      → Result Failure Text
      → a.sessions.State
      → Result Failure LoginStart × a.sessions.State
  store_transaction t x mode (err e) s = (err e, s)
  store_transaction t x mode (ok return_to) s = stored_transaction t x mode (
      a.sessions.create t (transaction_key a x.transaction_id)
        (a.codec.dumps (transaction_json a t x return_to)) a.settings.auth_transaction_ttl_seconds
        s)

  unfoldable pub begin_login :
      ℕ
      → LoginSecrets
      → Option Text
      → Text
      → a.sessions.State
      → Result Failure LoginStart × a.sessions.State
  unfolding is_login_mode
  begin_login t x return_to mode s =
      if is_login_mode a.profile.surface mode
      then store_transaction t x mode (normalize_return_to a.is_netloc a.profile (given return_to))
          s
      else (err transaction_error, s)

unfoldable pub is_ascii : Text → Bool
is_ascii s = all (λ c. leb c 127) s

-- `hmac.compare_digest` on texts: a `TypeError` unless both are ASCII.
unfoldable pub compare_digest : Text → Text → Result Failure Bool
unfolding is_ascii
compare_digest s t = if is_ascii s && is_ascii t then ok (text_eq s t) else err crashed

abbrev pub same_digest : Json → Text → Result Failure Bool
same_digest (str s) t = compare_digest s t
same_digest _ t = ok false
