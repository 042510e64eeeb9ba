-- ===== src/Auth/Claims/Allowed.antt =====
-- What `_allowed_claims` selects.
use tpl_backend.Base.{
  ◌≢◌, false, none, codes, strip, text_lt, ◌≡◌, refl, sym, ap, ◌∙◌, ◌⊎◌, inl, inr, Option, some,
  List, [], ◌∷◌, Text, text_eq, contains, contains_sound, In, Bool-cases, Option-cases,
}
use mathlib.Core.Bool.{false≢true}
use tpl_backend.Base.Json.{Json, null, bool, int, negative, float, str, arr, obj, Fields, get}
use tpl_backend.Auth.Principal.{insert_text, sorted_set}
use tpl_backend.Auth.Sessions.{Codec}
use tpl_backend.Auth.Claims.{
  is_disabled, name_of, text_of, candidate_text, selected, all_candidates, allowed_claims,
}

pub insert_text-In : (x t : Text) (us : List Text) → In x (insert_text t us) → (x ≡ t) ⊎ In x us
unfolding insert_text
insert_text-In x t [] (inl e) = inl e
insert_text-In x t [] (inr m) = absurd m
insert_text-In x t (u ∷ us) m = elim (Bool-cases (text_eq t u)) [
  | inl e ↦ inr (rw (e, insert_text) at m)
  | inr e ↦ elim (Bool-cases (text_lt t u)) [
    | inl f ↦ rw (e, f, insert_text) at m
    | inr f ↦
        let m' : In x (u ∷ insert_text t us) = rw (e, f, insert_text) at m in
        elim m' [
          | inl k ↦ inr (inl k)
          | inr k ↦ elim (insert_text-In x t us k) [ inl k' ↦ inl k' | inr k' ↦ inr (inr k') ]
        ]
  ]
]

pub sorted_set-In : (x : Text) (ts : List Text) → In x (sorted_set ts) → In x ts
unfolding sorted_set
sorted_set-In x [] m = m
sorted_set-In x (t ∷ ts) m = elim (insert_text-In x t (sorted_set ts) m) [
  | inl e ↦ inl e
  | inr k ↦ inr (sorted_set-In x ts k)
]

-- A candidate whose text is `x`.
abbrev Names : Codec → Text → List Json → Type 0
Names c x vs = (v : Json) × In v vs × (candidate_text c v ≡ some x)

selected-In :
    (c : Codec) (allowlist : List Text) (vs : List Json) (x : Text)
    → In x (selected c allowlist vs)
    → In x allowlist × Names c x vs
unfolding selected
selected-In c allowlist [] x m = absurd m
selected-In c allowlist (v ∷ vs) x m = elim (Option-cases (candidate_text c v)) [
  | inl e ↦
      let (k, (w, n, h)) = selected-In c allowlist vs x (rw (e, selected) at m) in
      (k, (w, inr n, h))
  | inr (t, e) ↦ elim (Bool-cases (contains allowlist t)) [
    | inl f ↦
        let m' : In x (t ∷ selected c allowlist vs) = rw (e, f, selected) at m in
        elim m' [
          | inl k ↦ (rw k (contains_sound allowlist t f), (v, inl refl, e ∙ ap some (sym k)))
          | inr n ↦ let (k, (w, n', h)) = selected-In c allowlist vs x n in (k, (w, inr n', h))
        ]
    | inr f ↦
        let (k, (w, n, h)) = selected-In c allowlist vs x (rw (e, f, selected) at m) in
        (k, (w, inr n, h))
  ]
]

-- A candidate names `x`: an object that is not disabled and has the name, or any other value whose text
-- it is, without the space around it.
pub IsNamed : Codec → Json → Text → Type 0
IsNamed c v x =
    ((fs : Fields) × (v ≡ obj fs)
      × (get (codes "isEnabled") fs ≢ some (bool false))
      × ((name : Text) × (get (codes "name") fs ≡ some (str name)) × (x ≡ strip name)))
    ⊎ (((fs : Fields) → v ≢ obj fs) × (x ≡ strip (text_of c v)))

is_disabled-false : (o : Option Json) → is_disabled o ≡ false → o ≢ some (bool false)
is_disabled-false o h e = false≢true (sym h ∙ ap is_disabled e)

name_of-some : (o : Option Json) (s : Text) → name_of o ≡ some s → o ≡ some (str s)
name_of-some none s h = cc
name_of-some (some (str t)) s h = let same : t ≡ s = cc (h) in rw same refl
name_of-some (some _) s h = cc

object-IsNamed :
    (c : Codec) (fs : Fields) (x : Text) → candidate_text c (obj fs) ≡ some x → IsNamed c (obj fs) x
unfolding candidate_text IsNamed
object-IsNamed c fs x h = elim (Bool-cases (is_disabled (get (codes "isEnabled") fs))) [
  | inl e ↦ let no : ◌≡◌ {A = Option Text} none (some x) = rw (e, candidate_text) at h in cc
  | inr e ↦ elim (Option-cases (name_of (get (codes "name") fs))) [
    | inl n ↦ let no : ◌≡◌ {A = Option Text} none (some x) = rw (e, n, candidate_text) at h in cc
    | inr (name, n) ↦
        let same : some (strip name) ≡ some x = rw (e, n, candidate_text) at h in
        inl (fs, refl, is_disabled-false _ e, (name, name_of-some _ name n, cc (same)))
  ]
]

candidate_text-IsNamed :
    (c : Codec) (v : Json) (x : Text) → candidate_text c v ≡ some x → IsNamed c v x
unfolding candidate_text IsNamed
candidate_text-IsNamed c (obj fs) x h = object-IsNamed c fs x h
candidate_text-IsNamed c null x h = inr ((λ fs e. cc), cc (h))
candidate_text-IsNamed c (bool b) x h = inr ((λ fs e. cc), cc (h))
candidate_text-IsNamed c (int n) x h = inr ((λ fs e. cc), cc (h))
candidate_text-IsNamed c (negative n) x h = inr ((λ fs e. cc), cc (h))
candidate_text-IsNamed c (float s) x h = inr ((λ fs e. cc), cc (h))
candidate_text-IsNamed c (str s) x h = inr ((λ fs e. cc), cc (h))
candidate_text-IsNamed c (arr vs) x h = inr ((λ fs e. cc), cc (h))

-- Every role or scope that a login takes over from the claims is in the allowlist of the surface, and is
-- named by an entry of the claims: by the `name` of an object that does not have `isEnabled` false, or by
-- the text of an entry that is no object, without the space around it.
pub allowed_claims-In :
    (c : Codec) (values : List (Option Json)) (allowlist : List Text) (x : Text)
    → In x (allowed_claims c values allowlist)
    → In x allowlist × ((v : Json) × In v (all_candidates c values) × IsNamed c v x)
unfolding allowed_claims
allowed_claims-In c values allowlist x m =
    let (listed, (v, found, text)) =
      selected-In c allowlist (all_candidates c values) x (sorted_set-In x _ m) in
    (listed, (v, found, candidate_text-IsNamed c v x text))
