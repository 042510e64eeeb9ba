-- ===== src/Auth/Profile/Paths.antt =====
-- What the path tests of app/core/config.py mean for the text that a browser is sent to.
use tpl_backend.Base.{
  ℕ, ◌≡◌, refl, ap, ◌⊎◌, inl, inr, Bool, true, false, not, ◌&&◌, ◌||◌, [], ◌∷◌, ◌++◌, Text, codes,
  text_eq, text_eq_sound, filter, All, starts_with, drop_last_while, ◌==◌, Bool-cases, Result, ok,
  err, ok-injective, arith,
}
use tpl_backend.Base.Url.{take_while, is_removed}
use tpl_backend.Auth.Errors.{Failure, crashed}
use tpl_backend.Auth.Profile.{url_path, is_under, is_path_char, after_netloc, netloc_of}

-- The text without its tabs and line breaks, which a browser drops as `urlsplit` does.
unfoldable pub unbroken : Text → Text
unfolding is_removed
unbroken value = filter (λ c. not (is_removed c)) value

-- A text that ends here, or goes on with a query or a fragment.
pub IsPathEnd : Text → Type 0
IsPathEnd rest = (rest ≡ []) ⊎ ((c : ℕ) × (s : Text) × (rest ≡ c ∷ s) × (is_path_char c ≡ false))

-- `path` is what stands in the text before its query and its fragment.
pub IsPathBefore : Text → Text → Type 0
IsPathBefore s path =
    (rest : Text) × (s ≡ path ++ rest) × All (λ c. is_path_char c ≡ true) path × IsPathEnd rest

-- `path` is the path of the text; where it starts with two slashes once the tabs and line breaks are
-- dropped, the path is that after the host.
pub IsPathOf : Text → Text → Type 0
IsPathOf value path =
    ((starts_with (codes "//") (unbroken value) ≡ false) × IsPathBefore (unbroken value) path)
    ⊎ ((starts_with (codes "//") (unbroken value) ≡ true)
        × IsPathBefore (after_netloc (unbroken value)) path)

-- The path is the allowed one or lies below it, at a slash; any path lies below `/`.
pub IsUnder : Text → Text → Type 0
IsUnder path allowed =
    ((allowed ≡ codes "/") × ((rest : Text) × (path ≡ b'/' ∷ rest)))
    ⊎ ((path ≡ allowed)
        ⊎ ((rest : Text) × (path
              ≡ (drop_last_while (λ c. c == b'/') allowed ++ codes "/") ++ rest)))

same_code : (a b : ℕ) → (a == b) ≡ true → a ≡ b
same_code a b h = ground arith

both_true : (a b : Bool) → (a && b) ≡ true → (a ≡ true) × (b ≡ true)
both_true a b h = (ground arith, ground arith)

starts_with-prefix : (p s : Text) → starts_with p s ≡ true → (rest : Text) × (s ≡ p ++ rest)
unfolding starts_with
starts_with-prefix [] s h = (s, refl)
starts_with-prefix (a ∷ p) [] h = cc
starts_with-prefix (a ∷ p) (b ∷ s) h =
    let (e, k) = both_true (a == b) (starts_with p s) h in
    let (rest, same) = starts_with-prefix p s k in
    let same' : a ≡ b = same_code a b e in (rest, rw (same', same) refl)

take_while-IsPathBefore : (s : Text) → IsPathBefore s (take_while is_path_char s)
unfolding take_while IsPathBefore IsPathEnd
take_while-IsPathBefore [] = ([], refl, tt, inl refl)
take_while-IsPathBefore (c ∷ s) = elim (Bool-cases (is_path_char c)) [
  | inl e ↦
      let (rest, same, all, stop) = take_while-IsPathBefore s in
      rw (take_while, e) (rest, ap (λ q. c ∷ q) same, (e, all), stop)
  | inr e ↦ rw (take_while, e) (c ∷ s, refl, tt, inr (c, s, refl, e))
]

pub url_path-IsPathOf :
    (is_netloc : Text → Bool) (value path : Text)
    → url_path is_netloc value ≡ ok path
    → IsPathOf value path
unfolding url_path IsPathOf unbroken
url_path-IsPathOf is_netloc value path h =
    let clean = unbroken value in
    elim (Bool-cases (starts_with (codes "//") clean)) [
      | inr e ↦
          let k : ◌≡◌ {A = Result Failure Text} (ok (take_while is_path_char clean)) (ok path) =
            rw (e, url_path) at h in
          inl (e, rw (← ok-injective {E = Failure} k) (take_while-IsPathBefore clean))
      | inl e ↦ elim (Bool-cases (is_netloc (netloc_of clean))) [
        | inl f ↦
            let k : ◌≡◌ {A = Result Failure Text}
                (ok (take_while is_path_char (after_netloc clean))) (ok path) =
              rw (e, f, url_path) at h in
            inr (
              e,
              rw (← ok-injective {E = Failure} k) (take_while-IsPathBefore (after_netloc clean)),
            )
        | inr f ↦
            let no : ◌≡◌ {A = Result Failure Text} (err crashed) (ok path) =
              rw (e, f, url_path) at h in
            cc
      ]
    ]

either : (a b : Bool) → (a || b) ≡ true → (a ≡ true) ⊎ (b ≡ true)
either true b h = inl refl
either false b h = inr h

pub is_under-IsUnder : (path allowed : Text) → is_under path allowed ≡ true → IsUnder path allowed
unfolding is_under IsUnder
is_under-IsUnder path allowed h = elim (Bool-cases (text_eq allowed (codes "/"))) [
  | inl e ↦
      let k : starts_with (codes "/") path ≡ true = rw (e, is_under) at h in
      inl (text_eq_sound allowed (codes "/") e, starts_with-prefix (codes "/") path k)
  | inr e ↦
      let base = drop_last_while (λ c. c == b'/') allowed ++ codes "/" in
      let k : (text_eq path allowed || starts_with base path) ≡ true = rw (e, is_under) at h in
      elim (either (text_eq path allowed) (starts_with base path) k) [
        | inl f ↦ inr (inl (text_eq_sound path allowed f))
        | inr f ↦ inr (inr (starts_with-prefix base path f))
      ]
]
