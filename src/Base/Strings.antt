-- ===== src/Base/Strings.antt =====
-- Python's `str` as the list of its code points, with the methods of `str` that the program calls.
use Prim.Native.Nat.{ℕ, ◌+◌, ◌-◌}
use Prim.Native.Char.{code}
use Prim.Native.String.{String}
use mathlib.Core.Path.{◌≡◌, refl, sym}
use mathlib.Core.Logic.{◌↔◌, inl, inr}
use mathlib.Core.Bool.{Bool, true, false, ◌&&◌, ◌||◌}
use mathlib.Core.List.{List, [], ◌∷◌, reverse}
use native.Mathlib.Omega.{arith}
use tpl_backend.Base.Tests.{leb, ltb, ◌==◌, ==_iff, if◌then◌else◌, Bool-cases, and_true}
use tpl_backend.Base.Lists.{any, In, any-In}

abbrev pub Text : Type 0
Text = List ℕ

-- The code points of a literal.
abbrev pub codes : String → Text
codes String.[] = []
codes (String.◌∷◌ c s) = code c ∷ codes s

unfoldable pub text_eq : Text → Text → Bool
text_eq [] [] = true
text_eq (a ∷ s) (b ∷ t) = a == b && text_eq s t
text_eq _ _ = false

pub text_eq_sound : (s t : Text) → text_eq s t ≡ true → s ≡ t
unfolding text_eq
text_eq_sound [] [] h = refl
text_eq_sound (a ∷ s) (b ∷ t) h =
    let (p, q) = and_true (a == b) (text_eq s t) h in
    let e = text_eq_sound s t q in let e' = (==_iff a b).0 p in cc
text_eq_sound _ _ h = cc

pub text_eq_refl : (s : Text) → text_eq s s ≡ true
unfolding text_eq
text_eq_refl [] = refl
text_eq_refl (a ∷ s) = ground (arith, text_eq_refl s)

pub text_eq_iff : (s t : Text) → (text_eq s t ≡ true) ↔ (s ≡ t)
text_eq_iff s t = (text_eq_sound s t, λ e. rw e (text_eq_refl t))

pub text_eq_sym : (s t : Text) → text_eq s t ≡ text_eq t s
unfolding text_eq
text_eq_sym [] [] = refl
text_eq_sym [] (b ∷ t) = refl
text_eq_sym (a ∷ s) [] = refl
text_eq_sym (a ∷ s) (b ∷ t) = ground (arith, text_eq_sym s t)

-- Python's order of `str`, by code points.
unfoldable pub text_lt : Text → Text → Bool
text_lt [] [] = false
text_lt [] (_ ∷ _) = true
text_lt (_ ∷ _) [] = false
text_lt (a ∷ s) (b ∷ t) = ltb a b || (a == b && text_lt s t)

-- `t in collection`
abbrev pub contains : List Text → Text → Bool
contains ts t = any (λ u. text_eq u t) ts

pub contains_sound : (ts : List Text) (t : Text) → contains ts t ≡ true → In t ts
contains_sound [] t h = cc
contains_sound (u ∷ ts) t h = elim (Bool-cases (text_eq u t)) [
  | inl e ↦ inl (sym (text_eq_sound u t e))
  | inr e ↦ inr (contains_sound ts t (rw e at h))
]

pub contains_of_In : (ts : List Text) (t : Text) → In t ts → contains ts t ≡ true
contains_of_In ts t m = any-In (λ u. text_eq u t) ts t m (text_eq_refl t)

-- Whether `c in text`.
abbrev pub has_char : Text → ℕ → Bool
has_char s c = any (λ d. d == c) s

-- `s.startswith(prefix)`, the prefix first.
unfoldable pub starts_with : Text → Text → Bool
starts_with [] s = true
starts_with (a ∷ p) (b ∷ s) = a == b && starts_with p s
starts_with (a ∷ p) [] = false

-- The code points that `str.strip` takes away.
unfoldable pub is_space : ℕ → Bool
is_space c =
    leb 9 c && leb c 13
    || leb 28 c && leb c 32
    || c == 133
    || c == 160
    || c == 0x1680
    || leb 0x2000 c && leb c 0x200a
    || c == 0x2028
    || c == 0x2029
    || c == 0x202f
    || c == 0x205f
    || c == 0x3000

-- `s.lstrip` by a test
unfoldable pub drop_while : (ℕ → Bool) → Text → Text
drop_while p [] = []
drop_while p (c ∷ s) = let rest = drop_while p s in if p c then rest else c ∷ s

-- `s.rstrip` by a test
unfoldable pub drop_last_while : (ℕ → Bool) → Text → Text
unfolding drop_while
drop_last_while p s = reverse (drop_while p (reverse s))

unfoldable pub strip : Text → Text
unfolding drop_last_while is_space
strip s = drop_last_while is_space (drop_while is_space s)

-- `s.split(sep)` by one code point: always at least one part.
unfoldable pub split_from : ℕ → Text → Text → List Text
split_from sep cur [] = reverse cur ∷ []
split_from sep cur (c ∷ s) =
    let closed = reverse cur ∷ split_from sep [] s in
    let longer = split_from sep (c ∷ cur) s in if c == sep then closed else longer

unfoldable pub split_on : ℕ → Text → List Text
unfolding split_from
split_on sep s = split_from sep [] s

abbrev pub is_empty : Text → Bool
is_empty [] = true
is_empty (_ ∷ _) = false

-- `char.lower()` on the ASCII letters; other code points stay.
unfoldable pub lower : ℕ → ℕ
lower c = if leb b'A' c && leb c b'Z' then c + 32 else c

unfoldable pub upper : ℕ → ℕ
upper c = if leb b'a' c && leb c b'z' then c - 32 else c
