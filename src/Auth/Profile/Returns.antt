-- ===== src/Auth/Profile/Returns.antt =====
-- Where a login may send the browser: `_normalize_return_to`.
use tpl_backend.Base.{
  ◌≡◌, refl, sym, ◌⊎◌, inl, inr, Bool, true, false, List, [], ◌∷◌, Text, any, In, Bool-cases,
  if◌then◌else◌, Result, ok, err, ok-injective, Result-cases, arith, ◌≤◌, length, starts_with,
  codes, has_char,
}
use tpl_backend.Base.Json.{Json, null, bool, int, negative, float, str, arr, obj}
use tpl_backend.Auth.Errors.{Failure, crashed}
use tpl_backend.Auth.Profile.Paths.{IsPathOf, IsUnder, url_path-IsPathOf, is_under-IsUnder}
use tpl_backend.Auth.Profile.{
  Profile, is_relative_path, url_path, is_under, is_truthy_json, allowed_or_default, normalize_path,
  normalize_return_to,
}

pub any-witness :
    (f : Text → Bool) (ts : List Text) → any f ts ≡ true → (t : Text) × In t ts × (f t ≡ true)
any-witness f [] h = cc
any-witness f (t ∷ ts) h = elim (Bool-cases (f t)) [
  | inl e ↦ (t, inl refl, e)
  | inr e ↦ let (u, m, k) = any-witness f ts (rw e at h) in (u, inr m, k)
]

-- A path on this site: it starts with one slash, has no backslash and no null, and is short.
pub record IsSafe (value : Text) : Type 0 where
  pub rooted : starts_with (codes "/") value ≡ true
  pub local : starts_with (codes "//") value ≡ false
  pub no_backslash : has_char value 92 ≡ false
  pub no_null : has_char value 0 ≡ false
  pub short : length value ≤ 1024

pub is_relative_path-IsSafe : (value : Text) → is_relative_path value ≡ true → IsSafe value
unfolding is_relative_path
is_relative_path-IsSafe value h = record {
  rooted = ground arith;
  local = ground arith;
  no_backslash = ground arith;
  no_null = ground arith;
  short = ground arith;
}

-- The default, or a safe text with a path below one of those allowed.
unfoldable pub IsReturn : Profile → Text → Type 0
IsReturn p r =
    (r ≡ p.default_return_to)
    ⊎ (IsSafe r
        × ((path allowed : Text) × IsPathOf r path
            × In allowed p.allowed_return_paths
            × IsUnder path allowed))

module _ (is_netloc : Text → Bool) (p : Profile) where
  allowed-IsReturn :
      (value r path : Text)
      → IsSafe value
      → url_path is_netloc value ≡ ok path
      → allowed_or_default p value (ok path) ≡ ok r
      → IsReturn p r
  unfolding IsReturn
  allowed-IsReturn value r path safe located h =
      elim (Bool-cases (any (is_under path) p.allowed_return_paths)) [
        | inl e ↦
            let (allowed, m, under) = any-witness (is_under path) p.allowed_return_paths e in
            let same : value ≡ r = ok-injective {E = Failure} (rw e at h) in
            inr (
              rw (← same) (
                safe,
                (
                  path,
                  allowed,
                  url_path-IsPathOf is_netloc value path located,
                  m,
                  is_under-IsUnder path allowed under,
                ),
              ))
        | inr e ↦ inl (sym (ok-injective {E = Failure} (rw e at h)))
      ]

  normalize_path-IsReturn :
      (value r : Text) → normalize_path is_netloc p value ≡ ok r → IsReturn p r
  unfolding normalize_path IsReturn
  normalize_path-IsReturn value r h = elim (Bool-cases (is_relative_path value)) [
    | inl e ↦
        let h' : allowed_or_default p value (url_path is_netloc value) ≡ ok r =
          rw (e, normalize_path) at h in
        elim (Result-cases (url_path is_netloc value)) [
          | inl (path, l) ↦
              allowed-IsReturn value r path (is_relative_path-IsSafe value e) l (rw l at h')
          | inr (x, l) ↦ let no : ◌≡◌ {A = Result Failure Text} (err x) (ok r) = rw l at h' in cc
        ]
    | inr e ↦
        let same : ◌≡◌ {A = Result Failure Text} (ok p.default_return_to) (ok r) =
          rw (e, normalize_path) at h in
        inl (sym (ok-injective same))
  ]

  falsy-IsReturn :
      (b : Bool) (r : Text)
      → (if b then err crashed else ok p.default_return_to) ≡ ok r
      → IsReturn p r
  unfolding IsReturn
  falsy-IsReturn true r h = cc
  falsy-IsReturn false r h = inl (sym (ok-injective {E = Failure} h))

  -- Whatever a request or a stored transaction asks for, a login returns to the default of the surface, or
  -- to a text of at most 1024 characters that starts with one slash and has no backslash and no null, and
  -- whose path is an allowed one or lies below it at a slash. The path is what stands before the query
  -- and the fragment, without tabs and line breaks; where two slashes are in front once these are
  -- dropped, it is the path after the host that they introduce.
  pub normalize_return_to-IsReturn :
      (v : Json) (r : Text) → normalize_return_to is_netloc p v ≡ ok r → IsReturn p r
  unfolding normalize_return_to IsReturn
  normalize_return_to-IsReturn (str []) r h = inl (sym (ok-injective {E = Failure} h))
  normalize_return_to-IsReturn (str (c ∷ s)) r h = normalize_path-IsReturn (c ∷ s) r h
  normalize_return_to-IsReturn null r h = falsy-IsReturn false r h
  normalize_return_to-IsReturn (bool b) r h = falsy-IsReturn _ r h
  normalize_return_to-IsReturn (int n) r h = falsy-IsReturn _ r h
  normalize_return_to-IsReturn (negative n) r h = falsy-IsReturn true r h
  normalize_return_to-IsReturn (float s) r h = falsy-IsReturn _ r h
  normalize_return_to-IsReturn (arr vs) r h = falsy-IsReturn (is_truthy_json (arr vs)) r h
  normalize_return_to-IsReturn (obj fs) r h = falsy-IsReturn (is_truthy_json (obj fs)) r h
