-- ===== src/Auth/ServiceIdentity.antt =====
-- app/app/infrastructure/security/service_identity.py: `ServiceIdentityVerifier`, and the bindings of
-- subjects in app/core/config.py. The signature check of the token, `json.loads` and
-- `datetime.fromtimestamp` are parameters. Instants before 1970 have no number here.
pub mod Scopes
mod Tests
use tpl_backend.Base.{
  ℕ, ◌≡◌, ◌+◌, Bool, true, false, not, ◌&&◌, ◌||◌, Option, none, some, List, [], ◌∷◌, map, filter,
  any, all, length, Text, codes, text_eq, strip, is_space, is_empty, find?, leb, ltb, ◌==◌,
  if◌then◌else◌, Result, ok, err, ◌>>=◌, ◌>>◌, require,
}
use tpl_backend.Base.Json.{
  Json, null, bool, int, negative, float, str, arr, obj, Items, nil, cons, Fields, end, field, get,
}
use tpl_backend.Auth.Errors.{Failure, crashed, unauthorized_error, forbidden_error}
use tpl_backend.Auth.Principal.{
  service, internal, Principal, stripped_set, make_principal, is_subset,
}
use tpl_backend.Auth.Claims.{split_runs}
use tpl_backend.Auth.Service.{contract_failure}

-- The scopes that each subject may have at most.
abbrev pub Bindings : Type 0
Bindings = List (Text × List Text)

-- The texts of a list, or none if it has something else.
unfoldable pub texts : Items → Option (List Text)
texts nil = some []
texts (cons (str s) vs) = elim (texts vs) [ none ↦ none | some ts ↦ some (s ∷ ts) ]
texts (cons _ vs) = none

-- The texts of a list whose other elements are left out.
unfoldable pub only_texts : Items → List Text
only_texts nil = []
only_texts (cons (str s) vs) = s ∷ only_texts vs
only_texts (cons _ vs) = only_texts vs

unfoldable pub item_count : Items → ℕ
item_count nil = 0
item_count (cons _ vs) = 1 + item_count vs

-- `result[subject] = scopes`
unfoldable pub bind_subject : Text → List Text → Bindings → Bindings
unfolding text_eq
bind_subject subject scopes [] = (subject, scopes) ∷ []
bind_subject subject scopes ((s, ts) ∷ bs) =
    let rest = bind_subject subject scopes bs in
    if text_eq s subject then (s, scopes) ∷ bs else (s, ts) ∷ rest

-- The scopes of one entry of `service_auth_subject_bindings`. A `ValueError` is no `AppException`.
unfoldable pub binding_scopes : Text → Json → Result Failure (List Text)
unfolding strip stripped_set only_texts item_count
binding_scopes subject (arr vs) = do
  require (not (is_empty (strip subject) || ltb 512 (length subject))) crashed
  let normalized = stripped_set (only_texts vs)
  require (length normalized == item_count vs && all (λ t. leb (length t) 128) normalized) crashed
  ok normalized
binding_scopes subject _ = err crashed

unfoldable pub bindings_from : Fields → Bindings → Result Failure Bindings
unfolding binding_scopes bind_subject
bindings_from end bs = ok bs
bindings_from (field subject scopes fs) bs = do
  normalized ← binding_scopes subject scopes
  bindings_from fs (bind_subject (strip subject) normalized bs)

-- `service_auth_subject_bindings`, on the decoded setting.
unfoldable pub subject_bindings : Option Json → Result Failure Bindings
unfolding bindings_from
subject_bindings (some (obj fs)) = bindings_from fs []
subject_bindings _ = err crashed

abbrev pub token_invalid : Failure
token_invalid =
    unauthorized_error (codes "The service identity token is invalid") (codes "token_invalid")

abbrev pub scopes_invalid : Failure
scopes_invalid =
    unauthorized_error (codes "The service identity token has invalid scopes")
      (codes "token_invalid")

-- `claims.get("scope", claims.get("scp", ()))`; none is the empty tuple.
unfoldable pub raw_scopes : Fields → Option Json
unfolding get
raw_scopes claims = elim (get (codes "scope") claims) [
  | some v ↦ some v
  | none ↦ get (codes "scp") claims
]

-- The values that `_scopes` reads; the empty tuple is neither a text nor a list.
unfoldable pub scope_values : Option Json → Option (List Text)
unfolding split_runs strip is_space texts
scope_values (some (str s)) =
    let found = split_runs is_space false [] (strip s) in
    if is_empty (strip s) then some [] else some found
scope_values (some (arr vs)) = texts vs
scope_values _ = none

abbrev pub checked_scopes : Option (List Text) → Result Failure (List Text)
checked_scopes none = err scopes_invalid
checked_scopes (some values) =
    let scopes = stripped_set values in
    require
      (length scopes == length values
        && leb (length scopes) 128
        && all (λ t. leb (length t) 128) scopes)
      scopes_invalid
    >> ok scopes

-- `_scopes`
unfoldable pub scopes_of : Fields → Result Failure (List Text)
unfolding raw_scopes scope_values stripped_set
scopes_of claims = checked_scopes (scope_values (raw_scopes claims))

abbrev pub text_claim : Option Json → Result Failure Text
text_claim (some (str s)) = ok s
text_claim _ = err token_invalid

abbrev pub allowed_for : Text → Bindings → Result Failure (List Text)
allowed_for subject bs = elim (find? (λ b. text_eq b.0 subject) bs) [
  | none ↦ err (
      forbidden_error (codes "The service identity is not bound to this Backend")
        (codes "service_subject_unbound"))
  | some b ↦ ok b.1
]

pub record ServiceSettings : Type 0 where
  pub app_slug : Text
  pub service_auth_audience : Text
  pub service_auth_subject_bindings : Result Failure Bindings
  pub casdoor_discovery_endpoint : Text

abbrev pub has_bindings : Bindings → Bool
has_bindings [] = false
has_bindings (_ ∷ _) = true

-- `require_service_identity`, with the bindings that it reads.
unfoldable pub require_service_identity : ServiceSettings → Result Failure Bindings
unfolding strip
require_service_identity s = do
  require (not (is_empty (strip s.service_auth_audience))) crashed
  bs ← s.service_auth_subject_bindings
  require (has_bindings bs) crashed
  require (not (is_empty s.casdoor_discovery_endpoint)) crashed
  ok bs

module _ (settings : ServiceSettings) (verify_access_token : Text → Text → Result Failure Fields)
    (fromtimestamp : Json → Option ℕ) where
  -- `_timestamp`
  abbrev pub timestamp : Option Json → Result Failure ℕ
  timestamp none = err token_invalid
  timestamp (some v) = elim (fromtimestamp v) [ none ↦ err token_invalid | some t ↦ ok t ]

  -- `Principal(…)` at the end of `verify`.
  unfoldable pub service_principal : Text → Text → List Text → ℕ → ℕ → Principal
  service_principal subject issuer scopes iat exp = record {
    actor_type = service;
    subject = subject;
    issuer = issuer;
    app = settings.app_slug;
    surface = internal;
    audience = settings.service_auth_audience;
    actor_id = none;
    display_name = none;
    email = none;
    roles = [];
    scopes = scopes;
    authenticated_at = iat;
    expires_at = exp;
    policy_version = codes "service-v1";
  }

  unfoldable pub verify : Text → List Text → Result Failure Principal
  unfolding require_service_identity scopes_of service_principal is_subset make_principal get
      text_eq
  verify encoded required = do
    bs ← require_service_identity settings
    require (not (is_empty encoded || ltb 16384 (length encoded))) token_invalid
    claims ← verify_access_token encoded settings.service_auth_audience
    subject ← text_claim (get (codes "sub") claims)
    issuer ← text_claim (get (codes "iss") claims)
    allowed ← allowed_for subject bs
    scopes ← scopes_of claims
    require (is_subset scopes allowed && is_subset required scopes) (
        forbidden_error (codes "The service identity scope is not authorized")
          (codes "service_scope_denied"))
    iat ← timestamp (get (codes "iat") claims)
    exp ← timestamp (get (codes "exp") claims)
    contract_failure (make_principal (service_principal subject issuer scopes iat exp))
