-- ===== src/Auth/Claims.antt =====
-- The roles, scopes and names that `AuthService` reads in the claims of a token.
pub mod Allowed
use tpl_backend.Base.{
  ℕ, ◌++◌, Bool, true, false, not, ◌||◌, Option, none, some, List, [], ◌∷◌, map, take, Text, codes,
  strip, is_space, is_empty, contains, ◌==◌, if◌then◌else◌,
}
use Prim.Native.String.{String}
use mathlib.Core.List.{reverse}
use tpl_backend.Base.Json.{Json, bool, str, arr, obj, get, items}
use tpl_backend.Auth.Principal.{sorted_set}
use tpl_backend.Auth.Profile.{Profile, is_truthy_json}
use tpl_backend.Auth.Sessions.{Codec, Claims, UserUpdate}

-- `re.split` by runs of code points.
unfoldable pub split_runs : (ℕ → Bool) → Bool → Text → Text → List Text
split_runs p inside cur [] = reverse cur ∷ []
split_runs p inside cur (c ∷ s) =
    let opened = reverse cur ∷ split_runs p true [] s in
    let skipped = split_runs p true cur s in
    let kept = split_runs p false (c ∷ cur) s in
    if p c then if inside then skipped else opened else kept

-- `re.split(r"[,\s]+", text)`
unfoldable pub split_claims : Text → List Text
unfolding split_runs is_space
split_claims s = split_runs (λ c. c == b',' || is_space c) false [] s

-- `str(value)`
abbrev pub text_of : Codec → Json → Text
text_of c (str s) = s
text_of c v = c.to_str v

unfoldable pub split_or_decoded : Text → Option Json → List Json
unfolding split_claims
split_or_decoded s (some (arr vs)) = items vs
split_or_decoded s _ = map str (split_claims s)

unfoldable pub candidates : Codec → Option Json → List Json
unfolding split_or_decoded strip
candidates c (some (arr vs)) = items vs
candidates c (some (str s)) =
    let found = split_or_decoded (strip s) (c.loads (strip s)) in
    if is_empty (strip s) then [] else found
candidates c _ = []

abbrev pub is_disabled : Option Json → Bool
is_disabled (some (bool b)) = not b
is_disabled _ = false

abbrev pub name_of : Option Json → Option Text
name_of (some (str s)) = some s
name_of _ = none

-- The text of a candidate; none for a role that is disabled or has no name.
unfoldable pub candidate_text : Codec → Json → Option Text
unfolding get strip
candidate_text c (obj fs) =
    if is_disabled (get (codes "isEnabled") fs)
    then none
    else (elim (name_of (get (codes "name") fs)) [ none ↦ none | some s ↦ some (strip s) ])
candidate_text c v = some (strip (text_of c v))

-- The candidates in the allowlist.
unfoldable pub selected : Codec → List Text → List Json → List Text
unfolding candidate_text
selected c allowlist [] = []
selected c allowlist (v ∷ vs) =
    let rest = selected c allowlist vs in
    elim (candidate_text c v) [
      | none ↦ rest
      | some t ↦ if contains allowlist t then t ∷ rest else rest
    ]

unfoldable pub all_candidates : Codec → List (Option Json) → List Json
unfolding candidates
all_candidates c [] = []
all_candidates c (v ∷ vs) = candidates c v ++ all_candidates c vs

-- `_allowed_claims`
unfoldable pub allowed_claims : Codec → List (Option Json) → List Text → List Text
unfolding all_candidates selected
allowed_claims c values allowlist = sorted_set (selected c allowlist (all_candidates c values))

-- `claims.get(a) or claims.get(b) or …`, with `str`.
unfoldable pub first_truthy : Codec → List (Option Json) → Text → Text
unfolding is_truthy_json
first_truthy c [] fallback = fallback
first_truthy c (none ∷ vs) fallback = first_truthy c vs fallback
first_truthy c (some v ∷ vs) fallback =
    let rest = first_truthy c vs fallback in if is_truthy_json v then text_of c v else rest

abbrev pub or_none : Text → Option Text
or_none [] = none
or_none (c ∷ s) = some (c ∷ s)

-- What `_load_or_create_user` hands to the directory.
unfoldable pub user_update : Codec → Profile → Claims → UserUpdate
unfolding allowed_claims first_truthy get strip
user_update c p k = record {
  issuer = k.iss;
  subject = k.sub;
  username = username;
  email = or_none (take 320 (strip (first_truthy c (claim "email" ∷ []) [])));
  display_name = or_none (take 256 (strip (first_truthy c (claim "name" ∷ []) username)));
  roles = allowed_claims c (claim "roles" ∷ claim "role" ∷ []) p.role_allowlist;
  scopes =
      allowed_claims c (claim "scope" ∷ claim "scp" ∷ claim "permissions" ∷ []) p.scope_allowlist;
}
  where
    claim : String → Option Json
    claim name = get (codes name) k.fields

    username : Text
    username = take 255 (
        strip
          (first_truthy c (claim "preferred_username" ∷ claim "name" ∷ claim "email" ∷ []) k.sub))
