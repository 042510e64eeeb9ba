-- ===== src/Auth/Principal.antt =====
-- app/app/domain/security/principal.py: who acts, and the session of a browser. A set of texts is the
-- sorted list of its elements. Instants are microseconds of the Unix epoch, in UTC.
use tpl_backend.Base.{
  text_lt, ℕ, Bool, true, false, not, ◌&&◌, ◌||◌, Option, none, some, List, [], ◌∷◌, map, filter,
  any, all, length, Text, text_eq, strip, is_empty, contains, leb, ltb, ◌==◌, if◌then◌else◌, Result,
  ok, err, ◌>>=◌, ◌>>◌, require,
}
use tpl_backend.Delivery.Event.{is_slug_start}

pub data ActorType : Type 0 where
  user service : ActorType

pub data Surface : Type 0 where
  admin web internal : Surface

unfoldable pub surface_eq : Surface → Surface → Bool
surface_eq admin admin = true
surface_eq web web = true
surface_eq internal internal = true
surface_eq _ _ = false

-- `set.add`
unfoldable pub insert_text : Text → List Text → List Text
insert_text t [] = t ∷ []
insert_text t (u ∷ us) =
    let rest = insert_text t us in
    if text_eq t u then u ∷ us else if text_lt t u then t ∷ u ∷ us else u ∷ rest

-- `sorted(set(…))`
unfoldable pub sorted_set : List Text → List Text
unfolding insert_text
sorted_set [] = []
sorted_set (t ∷ ts) = insert_text t (sorted_set ts)

pub record Principal : Type 0 where
  pub actor_type : ActorType
  pub subject : Text
  pub issuer : Text
  pub app : Text
  pub surface : Surface
  pub audience : Text
  pub actor_id : Option ℕ
  pub display_name : Option Text
  pub email : Option Text
  pub roles : List Text
  pub scopes : List Text
  pub authenticated_at : ℕ
  pub expires_at : ℕ
  pub policy_version : Text

-- A pydantic `ValidationError`.
pub data ContractError : Type 0 where
  invalid_contract : ContractError

-- `{item.strip() for item in value if item.strip()}`, sorted
unfoldable pub stripped_set : List Text → List Text
unfolding sorted_set strip
stripped_set ts = sorted_set (filter (λ t. not (is_empty t)) (map strip ts))

unfoldable pub normalize_roles : List Text → Result ContractError (List Text)
unfolding stripped_set
normalize_roles ts =
    let normalized = stripped_set ts in
    if ltb 128 (length normalized) || any (λ t. ltb 128 (length t)) normalized
    then err invalid_contract
    else ok normalized

unfoldable pub normalize_scopes : List Text → Result ContractError (List Text)
unfolding stripped_set
normalize_scopes ts =
    let normalized = stripped_set ts in
    if ltb 128 (length normalized) || any (λ t. ltb 128 (length t)) normalized
    then err invalid_contract
    else ok normalized

-- `min_length=1, max_length=most`
unfoldable pub is_sized : ℕ → Text → Bool
is_sized most t = leb 1 (length t) && leb (length t) most

unfoldable pub fits : ℕ → Option Text → Bool
fits most none = true
fits most (some t) = leb (length t) most

-- `^[a-z0-9][a-z0-9-]{0,62}$`
unfoldable pub is_app_slug : Text → Bool
unfolding is_slug_start
is_app_slug [] = false
is_app_slug (c ∷ s) =
    is_slug_start c && all (λ d. is_slug_start d || d == b'-') s && leb (length s) 62

unfoldable pub has_valid_fields : Principal → Bool
unfolding is_sized fits is_app_slug
has_valid_fields p =
    is_sized 512 p.subject
    && is_sized 2048 p.issuer
    && is_app_slug p.app
    && is_sized 512 p.audience
    && fits 256 p.display_name
    && fits 320 p.email
    && is_sized 64 p.policy_version

-- `validate_actor`
unfoldable pub is_valid_actor : ActorType → Option ℕ → ℕ → ℕ → Bool
is_valid_actor user none authenticated expires = false
is_valid_actor user (some id) authenticated expires = ltb authenticated expires
is_valid_actor service id authenticated expires = ltb authenticated expires

-- `Principal(…)`: the fields, their validators, then `validate_actor`.
unfoldable pub make_principal : Principal → Result ContractError Principal
unfolding has_valid_fields normalize_roles normalize_scopes is_valid_actor
make_principal p = do
  require (has_valid_fields p) invalid_contract
  roles ← normalize_roles p.roles
  scopes ← normalize_scopes p.scopes
  require (is_valid_actor p.actor_type p.actor_id p.authenticated_at p.expires_at) invalid_contract
  ok (record p { roles = roles; scopes = scopes })

-- `required.issubset(granted)`
unfoldable pub is_subset : List Text → List Text → Bool
is_subset required granted = all (contains granted) required

unfoldable pub has_scopes : Principal → List Text → Bool
unfolding is_subset
has_scopes p required = is_subset required p.scopes

pub record BrowserSession : Type 0 where
  pub principal : Principal
  pub csrf_token : Text

unfoldable pub is_browser_surface : Surface → Bool
is_browser_surface internal = false
is_browser_surface _ = true

unfoldable pub is_user : ActorType → Bool
is_user user = true
is_user service = false

-- `BrowserSession(…)` on a valid principal.
unfoldable pub make_session : Principal → Text → Result ContractError BrowserSession
unfolding is_browser_surface is_user
make_session p token = do
  require (leb 32 (length token) && leb (length token) 256) invalid_contract
  require (is_user p.actor_type && is_browser_surface p.surface) invalid_contract
  ok (record { principal = p; csrf_token = token })
