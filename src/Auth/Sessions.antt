-- ===== src/Auth/Sessions.antt =====
-- app/app/application/ports/auth.py: what browser authentication needs from outside, as interfaces,
-- and app/app/infrastructure/storage/session_store.py, which implements the first over Redis.
use tpl_backend.Base.{
  ℕ, ◌+◌, ◌*◌, ◌≤◌, ◌<◌, ◌≡◌, ◌≢◌, Bool, true, Option, none, some, List, Text, Result,
}
use tpl_backend.Base.Json.{Json, Fields}
use tpl_backend.Auth.Errors.{Failure}
use tpl_backend.Auth.Principal.{BrowserSession}

-- `SessionStore`. The instants are those at which the server runs the command, in microseconds, and
-- a time to live is in seconds.
pub record SessionStore : Type 1 where
  pub State : Type 0
  -- SET key value EX ttl NX
  pub create : ℕ → Text → Text → ℕ → State → Bool × State
  -- GET
  pub read : ℕ → Text → State → Option Text
  -- GETDEL
  pub take : ℕ → Text → State → Option Text × State
  -- DEL
  pub delete : ℕ → Text → State → State

-- What the commands are documented to do.
pub record IsSessionStore (r : SessionStore) : Type 0 where
  pub take-read : (t : ℕ) (k : Text) (s : r.State) → (r.take t k s).0 ≡ r.read t k s
  pub read-take : (t t' : ℕ) (k : Text) (s : r.State) → t ≤ t' → r.read t' k (r.take t k s).1 ≡ none
  pub read-delete :
      (t t' : ℕ) (k : Text) (s : r.State) → t ≤ t' → r.read t' k (r.delete t k s) ≡ none
  pub create_absent :
      (t : ℕ) (k v : Text) (ttl : ℕ) (s : r.State)
      → r.read t k s ≡ none
      → (r.create t k v ttl s).0 ≡ true
  pub read-create :
      (t t' : ℕ) (k v : Text) (ttl : ℕ) (s : r.State)
      → (r.create t k v ttl s).0 ≡ true
      → t ≤ t'
      → t' < t + ttl * 1000000
      → r.read t' k (r.create t k v ttl s).1 ≡ some v
  pub read-create_other :
      (t t' : ℕ) (k j v : Text) (ttl : ℕ) (s : r.State)
      → j ≢ k
      → r.read t' j (r.create t k v ttl s).1 ≡ r.read t' j s
  pub read_later :
      (t t' : ℕ) (k : Text) (s : r.State) → t ≤ t' → r.read t k s ≡ none → r.read t' k s ≡ none

-- The claims that the provider's adapter has verified: those that every token has, and all of them.
pub record Claims : Type 0 where
  pub iss : Text
  pub sub : Text
  pub exp : ℕ
  pub iat : ℕ
  pub fields : Fields

-- `IdentityProvider`
pub record IdentityProvider : Type 0 where
  -- state, nonce, code_challenge, mode
  pub build_authorization_url : Text → Text → Text → Text → Result Failure Text
  -- code, code_verifier, nonce
  pub exchange_authorization_code : Text → Text → Text → Result Failure Claims
  -- post_logout_redirect_uri, state
  pub end_session_url : Text → Text → Result Failure (Option Text)

-- What `UserDirectory.upsert` is given.
pub record UserUpdate : Type 0 where
  pub issuer : Text
  pub subject : Text
  pub username : Text
  pub email : Option Text
  pub display_name : Option Text
  pub roles : List Text
  pub scopes : List Text

-- What it returns.
pub record LocalUser : Type 0 where
  pub id : ℕ
  pub email : Option Text
  pub display_name : Option Text
  pub roles : List Text
  pub scopes : List Text

pub record UserDirectory : Type 1 where
  pub State : Type 0
  pub upsert : UserUpdate → State → LocalUser × State

-- `json`, the two pydantic codecs of a session, `str` of a value that is no text, and SHA-256 in
-- URL-safe base 64.
pub record Codec : Type 0 where
  pub dumps : Json → Text
  pub loads : Text → Option Json
  pub model_dump_json : BrowserSession → Text
  pub model_validate_json : Text → Option BrowserSession
  pub to_str : Json → Text
  pub challenge : Text → Text

-- The settings that the service reads.
pub record Settings : Type 0 where
  pub app_slug : Text
  pub auth_transaction_ttl_seconds : ℕ
  pub session_ttl_seconds : ℕ
  pub allowed_organizations : List Text
