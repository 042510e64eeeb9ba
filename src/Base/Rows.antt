-- ===== src/Base/Rows.antt =====
-- Tables as lists of rows: `UPDATE … WHERE` and the existence of rows.
use mathlib.Core.Path.{◌≡◌, refl}
use mathlib.Core.Logic.{inl, inr}
use mathlib.Core.Bool.{Bool, true, false}
use mathlib.Core.List.{List, [], ◌∷◌}
use tpl_backend.Base.Tests.{if◌then◌else◌, Bool-cases}
use tpl_backend.Base.Lists.{any, All, In}

module _ {ℓ} {A : Type ℓ} where
  -- `UPDATE … SET f WHERE p`
  abbrev pub update : (A → Bool) → (A → A) → List A → List A
  update p f [] = []
  update p f (x ∷ xs) = (if p x then f x else x) ∷ update p f xs

  pub update_none : (p : A → Bool) (f : A → A) (xs : List A) → any p xs ≡ false → update p f xs ≡ xs
  update_none p f [] h = refl
  update_none p f (x ∷ xs) h = elim (Bool-cases (p x)) [
    | inl e ↦ let e' : true ≡ false = rw e at h in cc
    | inr e ↦ let ih = update_none p f xs (rw e at h) in rw (e, ih)
  ]

module _ {κ} {A : Type 0} (P : A → Type κ) where
  -- What the assignment keeps on the matching rows holds of the whole table afterwards.
  pub All-update :
      (p : A → Bool) (f : A → A) (xs : List A)
      → ((a : A) → p a ≡ true → P a → P (f a))
      → All P xs
      → All P (update p f xs)
  All-update p f [] keep h = tt
  All-update p f (x ∷ xs) keep (q, h) = elim (Bool-cases (p x)) [
    | inl e ↦ rw e (keep x e q, All-update p f xs keep h)
    | inr e ↦ rw e (q, All-update p f xs keep h)
  ]

-- A row of the table afterwards: an old one that did not match, or an assigned one.
pub data Updated {A : Type 0} (p : A → Bool) (f : A → A) (xs : List A) (n : A) : Type 0 where
  kept : In n xs → p n ≡ false → Updated p f xs n
  assigned : (k : A) → In k xs → p k ≡ true → n ≡ f k → Updated p f xs n

module _ {A : Type 0} (p : A → Bool) (f : A → A) where
  Updated-cons : (xs : List A) (x n : A) → Updated p f xs n → Updated p f (x ∷ xs) n
  Updated-cons xs x n (kept m e) = kept (inr m) e
  Updated-cons xs x n (assigned k m e same) = assigned k (inr m) e same

  Updated-head : (xs : List A) (x n : A) → n ≡ (if p x then f x else x) → Updated p f (x ∷ xs) n
  Updated-head xs x n h = elim (Bool-cases (p x)) [
    | inl e ↦ assigned x (inl refl) e (rw e at h)
    | inr e ↦ let same : n ≡ x = rw e at h in kept (inl same) (rw same e)
  ]

  pub In-update : (xs : List A) (n : A) → In n (update p f xs) → Updated p f xs n
  In-update [] n m = absurd m
  In-update (x ∷ xs) n (inl e) = Updated-head xs x n e
  In-update (x ∷ xs) n (inr m) = Updated-cons xs x n (In-update xs n m)
