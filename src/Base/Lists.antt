-- ===== src/Base/Lists.antt =====
-- Lists measured by native numbers, Boolean quantifiers over them, and predicates by recursion.
use Prim.Native.Nat.{ℕ, zero, suc}
use mathlib.Core.Path.{◌≡◌, refl}
use mathlib.Core.Logic.{◌⊎◌, inl, inr}
use mathlib.Core.Bool.{Bool, true, false, ◌&&◌, ◌||◌}
use mathlib.Core.Option.{Option, none, some}
use mathlib.Core.List.{List, [], ◌∷◌, ◌++◌}
use native.Mathlib.Omega.{arith}
use tpl_backend.Base.Tests.{if◌then◌else◌, Bool-cases}

module _ {ℓ} {A : Type ℓ} where
  abbrev pub length : List A → ℕ
  length [] = 0
  length (x ∷ xs) = suc (length xs)

  abbrev pub take : ℕ → List A → List A
  take zero xs = []
  take (suc n) [] = []
  take (suc n) (x ∷ xs) = x ∷ take n xs

  abbrev pub any : (A → Bool) → List A → Bool
  any p [] = false
  any p (x ∷ xs) = p x || any p xs

  abbrev pub all : (A → Bool) → List A → Bool
  all p [] = true
  all p (x ∷ xs) = p x && all p xs

  abbrev pub filter : (A → Bool) → List A → List A
  filter p [] = []
  filter p (x ∷ xs) = let rest = filter p xs in if p x then x ∷ rest else rest

  abbrev pub find? : (A → Bool) → List A → Option A
  find? p [] = none
  find? p (x ∷ xs) = if p x then some x else find? p xs

-- Membership by recursion, so that the tactics take it apart.
abbrev pub In : {A : Type 0} → A → List A → Type 0
In a [] = ⊥
In a (x ∷ xs) = (a ≡ x) ⊎ In a xs

module _ {κ} {A : Type 0} (P : A → Type κ) where
  abbrev pub All : List A → Type κ
  All [] = Unit
  All (x ∷ xs) = P x × All xs

  pub All-append : (xs ys : List A) → All xs → All ys → All (xs ++ ys)
  All-append [] ys h k = k
  All-append (x ∷ xs) ys (p, h) k = (p, All-append xs ys h k)

  pub All-filter : (p : A → Bool) (xs : List A) → All xs → All (filter p xs)
  All-filter p [] h = tt
  All-filter p (x ∷ xs) (q, h) = elim (Bool-cases (p x)) [
    | inl e ↦ rw e (q, All-filter p xs h)
    | inr e ↦ rw e (All-filter p xs h)
  ]

  pub All-in : (xs : List A) (a : A) → All xs → In a xs → P a
  All-in [] a h m = absurd m
  All-in (x ∷ xs) a (p, h) (inl e) = rw e p
  All-in (x ∷ xs) a (p, h) (inr m) = All-in xs a h m

  pub All-of_In : (xs : List A) → ((a : A) → In a xs → P a) → All xs
  All-of_In [] h = tt
  All-of_In (x ∷ xs) h = (h x (inl refl), All-of_In xs (λ a m. h a (inr m)))

pub All-map {κ μ} :
    {A : Type 0} (P : A → Type κ) (Q : A → Type μ) (xs : List A)
    → ((x : A) → P x → Q x)
    → All P xs
    → All Q xs
All-map P Q [] f h = tt
All-map P Q (x ∷ xs) f (p, h) = (f x p, All-map P Q xs f h)

module _ {A : Type 0} where
  pub find?-some :
      (p : A → Bool) (xs : List A) (a : A) → find? p xs ≡ some a → (p a ≡ true) × In a xs
  find?-some p [] a h = cc
  find?-some p (x ∷ xs) a h = elim (Bool-cases (p x)) [
    | inl e ↦ let same : some x ≡ some a = rw e at h in let eq : a ≡ x = cc in (rw eq e, inl eq)
    | inr e ↦
        let rest : find? p xs ≡ some a = rw e at h in
        let (q, m) = find?-some p xs a rest in (q, inr m)
  ]

  pub find?-append :
      (p : A → Bool) (xs : List A) (n : A)
      → find? p xs ≡ none
      → p n ≡ true
      → find? p (xs ++ n ∷ []) ≡ some n
  find?-append p [] n h e = rw e
  find?-append p (x ∷ xs) n h e = elim (Bool-cases (p x)) [
    | inl t ↦ let no : some x ≡ none = rw t at h in cc
    | inr f ↦ rw f (find?-append p xs n (rw f at h) e)
  ]

  pub find?-none : (p : A → Bool) (xs : List A) → find? p xs ≡ none → All (λ a. p a ≡ false) xs
  find?-none p [] h = tt
  find?-none p (x ∷ xs) h = elim (Bool-cases (p x)) [
    | inl e ↦ let same : some x ≡ none = rw e at h in cc
    | inr e ↦ (e, find?-none p xs (rw e at h))
  ]

  pub any-false : (p : A → Bool) (xs : List A) → any p xs ≡ false → All (λ a. p a ≡ false) xs
  any-false p [] h = tt
  any-false p (x ∷ xs) h = elim (Bool-cases (p x)) [
    | inl e ↦ let e' : true ≡ false = rw e at h in cc
    | inr e ↦ (e, any-false p xs (rw e at h))
  ]

  pub any_of_All : (p : A → Bool) (xs : List A) → All (λ a. p a ≡ false) xs → any p xs ≡ false
  any_of_All p [] h = refl
  any_of_All p (x ∷ xs) (e, h) = rw (e, any_of_All p xs h)

  pub any-In : (p : A → Bool) (xs : List A) (a : A) → In a xs → p a ≡ true → any p xs ≡ true
  any-In p [] a m h = absurd m
  any-In p (x ∷ xs) a (inl e) h = let here : p x ≡ true = rw (← e) h in rw here
  any-In p (x ∷ xs) a (inr m) h = let later = any-In p xs a m h in ground arith

  pub all-true : (p : A → Bool) (xs : List A) → all p xs ≡ true → All (λ a. p a ≡ true) xs
  all-true p [] h = tt
  all-true p (x ∷ xs) h = elim (Bool-cases (p x)) [
    | inl e ↦ (e, all-true p xs (rw e at h))
    | inr e ↦ let e' : false ≡ true = rw e at h in cc
  ]

  pub filter-true : (p : A → Bool) (xs : List A) → All (λ a. p a ≡ true) (filter p xs)
  filter-true p [] = tt
  filter-true p (x ∷ xs) = elim (Bool-cases (p x)) [
    | inl e ↦ rw e (e, filter-true p xs)
    | inr e ↦ rw e (filter-true p xs)
  ]

  In-cons_map : {a x : A} (xs ys : List A) → (In a xs → In a ys) → In a (x ∷ xs) → In a (x ∷ ys)
  In-cons_map xs ys f (inl e) = inl e
  In-cons_map xs ys f (inr m) = inr (f m)

  pub In-filter : (p : A → Bool) (xs : List A) (a : A) → In a (filter p xs) → In a xs
  In-filter p [] a m = m
  In-filter p (x ∷ xs) a m = elim (Bool-cases (p x)) [
    | inl e ↦ In-cons_map (filter p xs) xs (In-filter p xs a) (rw e at m)
    | inr e ↦ inr (In-filter p xs a (rw e at m))
  ]

  pub In-filter_of :
      (p : A → Bool) (xs : List A) (a : A) → In a xs → p a ≡ true → In a (filter p xs)
  In-filter_of p [] a m h = m
  In-filter_of p (x ∷ xs) a (inl e) h = let here : p x ≡ true = rw (← e) h in rw here (inl e)
  In-filter_of p (x ∷ xs) a (inr m) h = elim (Bool-cases (p x)) [
    | inl e ↦ rw e (inr (In-filter_of p xs a m h))
    | inr e ↦ rw e (In-filter_of p xs a m h)
  ]
