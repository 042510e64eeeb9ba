-- ===== src/Auth/Access/Scopes.antt =====
-- What `require_admin_scopes` of interfaces/http/middleware/auth.py lets through.
use tpl_backend.Base.{
  ◌≡◌, refl, sym, ap, ◌∙◌, ◌⊎◌, inl, inr, true, none, some, List, [], ◌∷◌, ◌++◌, Text, contains,
  contains_sound, In, In-filter, Bool-cases, and_true, ok, >>=-eq-ok, All-in, filter-true,
  ok-injective,
}
use tpl_backend.Auth.Errors.{Failure}
use tpl_backend.Auth.Principal.{Principal, is_subset}
use tpl_backend.Auth.Profile.{Profile}
use tpl_backend.Auth.Browser.Csrf.{require-ok}
use tpl_backend.Auth.Access.{
  full_admin_role, allowed_roles, base_scopes, granted_scopes, covers, require_admin_scopes,
}

In-append : (t : Text) (us vs : List Text) → In t (us ++ vs) → In t us ⊎ In t vs
In-append t [] vs m = inr m
In-append t (u ∷ us) vs (inl e) = inl (inl e)
In-append t (u ∷ us) vs (inr m) = elim (In-append t us vs m) [ inl k ↦ inl (inr k) | inr k ↦ inr k ]

pub is_subset-In :
    (required granted : List Text) (t : Text)
    → is_subset required granted ≡ true
    → In t required
    → In t granted
unfolding is_subset
is_subset-In [] granted t h m = absurd m
is_subset-In (u ∷ us) granted t h (inl e) =
    rw e (contains_sound granted u (and_true (contains granted u) _ h).0)
is_subset-In (u ∷ us) granted t h (inr m) =
    is_subset-In us granted t (and_true (contains granted u) _ h).1 m

In-base_scopes :
    (t : Text) (required roles : List Text)
    → In t (base_scopes required roles)
    → In t required × ((r : Text) × In r roles)
In-base_scopes t required [] m = absurd m
In-base_scopes t required (r ∷ roles) m = (m, (r, inl refl))

-- An administrator: the full role, in the allowlist and among the roles of the principal.
pub IsFullAdmin : Profile → Principal → Type 0
IsFullAdmin p q = In full_admin_role p.role_allowlist × In full_admin_role q.roles

contains_roles :
    (p : Profile) (q : Principal) (r : Text)
    → In r (allowed_roles p q)
    → In r p.role_allowlist × In r q.roles
unfolding allowed_roles
contains_roles p q r m = (
  contains_sound p.role_allowlist r
      (All-in _ _ r (filter-true (contains p.role_allowlist) q.roles) m),
  In-filter (contains p.role_allowlist) q.roles r m,
)

granted-cases :
    (p : Profile) (q : Principal)
    → (IsFullAdmin p q × (granted_scopes p q ≡ none))
      ⊎ (granted_scopes p q ≡ some (q.scopes ++ base_scopes p.required_scopes (allowed_roles p q)))
unfolding granted_scopes IsFullAdmin
granted-cases p q = elim (Bool-cases (contains (allowed_roles p q) full_admin_role)) [
  | inl e ↦ inl (
    contains_roles p q full_admin_role (contains_sound (allowed_roles p q) full_admin_role e),
    rw e refl,
  )
  | inr e ↦ inr (rw e refl)
]

granted-In :
    (p : Profile) (q : Principal) (t : Text)
    → In t (q.scopes ++ base_scopes p.required_scopes (allowed_roles p q))
    → In t q.scopes ⊎ (In t p.required_scopes × ((r : Text) × In r p.role_allowlist × In r q.roles))
granted-In p q t m = elim (In-append t q.scopes _ m) [
  | inl k ↦ inl k
  | inr k ↦
      let (n, (r, roles)) = In-base_scopes t p.required_scopes (allowed_roles p q) k in
      inr (n, (let (known, held) = contains_roles p q r roles in (r, known, held)))
]

-- An interface lets a principal through only as it is, and only if it is a full administrator, or if
-- every scope that the interface asks for is a scope of the principal, or one of those that the
-- surface asks for, of a principal with some role of the allowlist.
pub require_admin_scopes_sound :
    (p : Profile) (required : List Text) (q q' : Principal)
    → require_admin_scopes p required q ≡ ok q'
    → (q' ≡ q)
      × (IsFullAdmin p q
          ⊎ ((t : Text)
              → In t required
              → In t q.scopes
                ⊎ (In t p.required_scopes × ((r : Text) × In r p.role_allowlist × In r q.roles))))
unfolding require_admin_scopes IsFullAdmin
require_admin_scopes_sound p required q q' h =
    let (u, covered, returned) = >>=-eq-ok _ _ h in
    let same : q' ≡ q = sym (ok-injective {E = Failure} returned) in
    let enough = require-ok _ _ covered in
    elim (granted-cases p q) [
      | inl (full, e) ↦ (same, inl full)
      | inr e ↦
          let subset : is_subset required
                (q.scopes ++ base_scopes p.required_scopes (allowed_roles p q))
              ≡ true =
            ap (λ g. covers g required) (sym e) ∙ enough in
          (same, inr (λ t m. granted-In p q t (is_subset-In required _ t subset m)))
    ]
