-- ===== src/Auth/Login.antt =====
-- app/app/application/services/auth_service.py: `complete_login`. The result comes with both states:
-- what was taken from the store stays taken when a later line raises.
pub mod Once
pub mod Checks
pub mod Landing
use Prim.Native.Nat.{◌/◌}
use tpl_backend.Base.{
  ℕ, ◌+◌, ◌-◌, ◌*◌, min, max, Bool, true, false, not, Option, none, some, List, [], ◌∷◌, Text,
  codes, text_eq, contains, leb, Result, ok, err, ◌>>=◌, ◌>>◌, require,
}
use tpl_backend.Base.Json.{Json, str, obj, Fields, get, get_or_null}
use tpl_backend.Auth.Errors.{Failure, unauthorized_error, forbidden_error}
use tpl_backend.Auth.Principal.{user, Principal, make_principal, BrowserSession, make_session}
use tpl_backend.Auth.Profile.{normalize_return_to}
use tpl_backend.Auth.Sessions.{Claims, LocalUser}
use tpl_backend.Auth.Claims.{user_update}
use tpl_backend.Auth.Service.{
  AuthService, surface_name, transaction_error, contract_failure, known_id, transaction_key,
  session_key, epoch, compare_digest, same_digest,
}

module _ (a : AuthService) where
  -- The five entries that `complete_login` reads.
  pub record Transaction : Type 0 where
    pub surface : Json
    pub state : Json
    pub nonce : Json
    pub code_verifier : Json
    pub return_to : Text

  abbrev pub entry : Text → Fields → Result Failure Json
  entry name fs = elim (get name fs) [ none ↦ err transaction_error | some v ↦ ok v ]

  -- `json.loads`, and the `try` around it. Another value than an object has no such entries.
  unfoldable pub read_transaction : Option Json → Result Failure Transaction
  unfolding get get_or_null
  read_transaction (some (obj fs)) = do
    surface ← entry (codes "surface") fs
    state ← entry (codes "state") fs
    nonce ← entry (codes "nonce") fs
    code_verifier ← entry (codes "code_verifier") fs
    return_to ← normalize_return_to a.is_netloc a.profile (get_or_null (codes "return_to") fs)
    ok (record {
      surface = surface;
      state = state;
      nonce = nonce;
      code_verifier = code_verifier;
      return_to = return_to;
    })
  read_transaction _ = err transaction_error

abbrev pub is_str : Json → Text → Bool
is_str (str s) t = text_eq s t
is_str _ t = false

abbrev pub as_text : Json → Result Failure Text
as_text (str s) = ok s
as_text _ = err transaction_error

-- What goes on from a transaction: the nonce, the verifier and the way back.
unfoldable pub check_transaction :
    (a : AuthService) → Text → Option Json → Result Failure (Text × (Text × Text))
unfolding compare_digest
check_transaction a state raw = do
  x ← read_transaction a raw
  require (is_str x.surface (surface_name a.profile.surface)) transaction_error
  same ← same_digest x.state state
  require same transaction_error
  nonce ← as_text x.nonce
  code_verifier ← as_text x.code_verifier
  ok (nonce, (code_verifier, x.return_to))

abbrev pub owner_of : Option Json → Option Text
owner_of (some (str s)) = some s
owner_of _ = none

abbrev pub is_allowed_owner : List Text → Option Text → Bool
is_allowed_owner organizations none = false
is_allowed_owner organizations (some o) = contains organizations o

-- The tests of `_principal_from_verified_claims`, and the second at which the session ends.
unfoldable pub session_end : AuthService → ℕ → Claims → Result Failure ℕ
unfolding get
session_end a now k = do
  let last = min k.exp (epoch now + a.settings.session_ttl_seconds)
  require (not (leb last (epoch now)))
      (unauthorized_error (codes "The identity token is invalid") (codes "token_invalid"))
  require
      (is_allowed_owner a.settings.allowed_organizations (owner_of (get (codes "owner") k.fields)))
      (forbidden_error (codes "This account cannot sign in here")
        (codes "organization_not_allowed"))
  ok last

-- The principal of a local user.
unfoldable pub principal_of : AuthService → Claims → ℕ → LocalUser → Principal
principal_of a k last u = record {
  actor_type = user;
  subject = k.sub;
  issuer = k.iss;
  app = a.settings.app_slug;
  surface = a.profile.surface;
  audience = a.profile.client_id;
  actor_id = some u.id;
  display_name = u.display_name;
  email = u.email;
  roles = u.roles;
  scopes = u.scopes;
  authenticated_at = k.iat * 1000000;
  expires_at = last * 1000000;
  policy_version = a.profile.policy_version;
}

-- The instants of `complete_login`: of the `GETDEL`, of the clock at the claims and at the session's
-- time to live, and of the `SET`.
pub record Instants : Type 0 where
  pub taken : ℕ
  pub verified : ℕ
  pub measured : ℕ
  pub stored : ℕ

-- The secrets that it draws.
pub record SessionSecrets : Type 0 where
  pub session_id : Text
  pub csrf_token : Text

pub record SessionStart : Type 0 where
  pub session_id : Text
  pub expires_at : ℕ

-- `max(1, int((expires_at - now).total_seconds()))`
unfoldable pub session_ttl : ℕ → ℕ → ℕ
session_ttl expires now = max 1 ((expires - now) / 1000000)

module _ (a : AuthService) (i : Instants) (x : SessionSecrets) where
  unfoldable pub principal_from_claims :
      Claims → a.users.State → Result Failure Principal × a.users.State
  unfolding session_end user_update principal_of
  principal_from_claims k u = elim (session_end a i.verified k) [
    | err e ↦ (err e, u)
    | ok last ↦
        let (local, u') = a.users.upsert (user_update a.codec a.profile k) u in
        (contract_failure (make_principal (principal_of a k last local)), u')
  ]

  abbrev pub created :
      BrowserSession
      → Text
      → Bool × a.sessions.State
      → Result Failure (SessionStart × Text) × a.sessions.State
  created b return_to (false, s) = (
    err (unauthorized_error (codes "The session could not be created") (codes "session_expired")),
    s,
  )
  created b return_to (true, s) =
      (ok (record { session_id = x.session_id; expires_at = b.principal.expires_at }, return_to), s)

  -- `BrowserSession(…)` and the `SET`.
  abbrev pub store_session :
      Text
      → Result Failure BrowserSession
      → a.sessions.State
      → Result Failure (SessionStart × Text) × a.sessions.State
  store_session return_to (err e) s = (err e, s)
  store_session return_to (ok b) s = created b return_to (
      a.sessions.create i.stored (session_key a x.session_id) (a.codec.model_dump_json b)
        (session_ttl b.principal.expires_at i.measured) s)

  pub record Login : Type 0 where
    pub result : Result Failure (SessionStart × Text)
    pub sessions : a.sessions.State
    pub users : a.users.State

  abbrev pub finished : Text → Result Failure Principal × a.users.State → a.sessions.State → Login
  finished return_to (p, u) s =
      let made =
        store_session return_to (p >>= λ q. contract_failure (make_session q x.csrf_token)) s in
      record { result = made.0; sessions = made.1; users = u }

  abbrev pub exchanged : Text → Result Failure Claims → a.sessions.State → a.users.State → Login
  exchanged return_to (err e) s u = record { result = err e; sessions = s; users = u }
  exchanged return_to (ok k) s u = finished return_to (principal_from_claims k u) s

  abbrev pub checked :
      Text → Result Failure (Text × (Text × Text)) → a.sessions.State → a.users.State → Login
  checked code (err e) s u = record { result = err e; sessions = s; users = u }
  checked code (ok (nonce, (code_verifier, return_to))) s u =
      exchanged return_to (a.oidc.exchange_authorization_code code code_verifier nonce) s u

  -- `if not raw`
  abbrev pub taken : Text → Text → Option Text × a.sessions.State → a.users.State → Login
  taken code state (none, s) u = record { result = err transaction_error; sessions = s; users = u }
  taken code state (some [], s) u = record {
    result = err transaction_error;
    sessions = s;
    users = u;
  }
  taken code state (some (c ∷ raw), s) u =
      checked code (check_transaction a state (a.codec.loads (c ∷ raw))) s u

  unfoldable pub complete_login :
      Text → Text → Option Text → a.sessions.State → a.users.State → Login
  unfolding known_id
  complete_login code state id s u = elim (known_id id) [
    | none ↦ record { result = err transaction_error; sessions = s; users = u }
    | some y ↦ taken code state (a.sessions.take i.taken (transaction_key a y) s) u
  ]
