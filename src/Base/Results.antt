-- ===== src/Base/Results.antt =====
-- Code that may raise: a result over the component's own errors, with `do`.
use mathlib.Core.Path.{◌≡◌, refl}
use mathlib.Core.Logic.{◌⊎◌, inl, inr}
use mathlib.Core.Bool.{Bool, true, false}
use mathlib.Core.Option.{Option, none, some}
use mathlib.Core.List.{List, [], ◌∷◌}
use tpl_backend.Base.Lists.{All}

-- A return, or what was raised.
pub data Result {ℓ κ} (Error : Type ℓ) (Value : Type κ) : Type (ℓ ⊔ κ) where
  err : Error → Result Error Value
  ok : Value → Result Error Value

module _ {ℓ κ} {Error : Type ℓ} {Value : Type κ} where
  infixl 5 ◌>>=◌
  -- The statements after a call that may raise.
  abbrev pub ◌>>=◌ {μ} :
      {Next : Type μ} → Result Error Value → (Value → Result Error Next) → Result Error Next
  err raised >>= rest = err raised
  ok v >>= rest = rest v

infixl 5 ◌>>◌
abbrev pub ◌>>◌ {ℓ μ} :
    {Error : Type ℓ} {Next : Type μ}
    → Result Error (Unit {0})
    → Result Error Next
    → Result Error Next
before >> rest = before >>= λ done. rest

-- `if not test: raise e`
abbrev pub require {ℓ} : {E : Type ℓ} → Bool → E → Result E (Unit {0})
require true e = ok tt
require false e = err e

abbrev pub or_raise {ℓ κ} : {E : Type ℓ} {A : Type κ} → Option A → E → Result E A
or_raise none e = err e
or_raise (some a) e = ok a

-- The results of a call on each element; the first that raises ends it.
unfoldable pub traverse {ℓ} :
    {E : Type ℓ} {A : Type 0} {B : Type 0} → (A → Result E B) → List A → Result E (List B)
traverse f [] = ok []
traverse f (x ∷ xs) = f x >>= λ y. traverse f xs >>= λ ys. ok (y ∷ ys)

-- A return of a sequence comes from a return of its first part.
pub >>=-eq-ok {ℓ κ μ} :
    {Error : Type ℓ} {Value : Type κ} {Next : Type μ} (before : Result Error Value)
    (rest : Value → Result Error Next) {returned : Next}
    → (before >>= rest) ≡ ok returned
    → (v : Value) × (before ≡ ok v) × (rest v ≡ ok returned)
>>=-eq-ok (err raised) rest h = cc
>>=-eq-ok (ok v) rest h = (v, refl, h)

-- The same, for a goal that goes on from the first part.
pub >>=-elim {ℓ κ μ ν} :
    {Error : Type ℓ} {Value : Type κ} {Next : Type μ} {P : Type ν} (before : Result Error Value)
    (rest : Value → Result Error Next) {returned : Next}
    → (before >>= rest) ≡ ok returned
    → ((v : Value) → before ≡ ok v → rest v ≡ ok returned → P)
    → P
>>=-elim (err raised) rest h go = cc
>>=-elim (ok v) rest h go = go v refl h

module _ {ℓ κ} {E : Type ℓ} {A : Type κ} where
  pub ok-injective : {a b : A} → ◌≡◌ {A = Result E A} (ok a) (ok b) → a ≡ b
  ok-injective h = cc

  -- What holds of a returned value holds of the value that the equation names.
  pub ok-to {μ} : {a b : A} (P : A → Type μ) → ◌≡◌ {A = Result E A} (ok a) (ok b) → P a → P b
  ok-to P h p = rw (← ok-injective h) p

pub Result-cases {ℓ κ} :
    {E : Type ℓ} {A : Type κ} (r : Result E A) → ((a : A) × (r ≡ ok a)) ⊎ ((e : E) × (r ≡ err e))
Result-cases (ok a) = inl (a, refl)
Result-cases (err e) = inr (e, refl)

module _ {ℓ} {E : Type ℓ} {A : Type 0} {B : Type 0} (f : A → Result E B) (P : B → Type 0)
    (each : (x : A) (y : B) → f x ≡ ok y → P y) where
  -- What every call establishes holds of all the results.
  pub traverse-All : (xs : List A) (ys : List B) → traverse f xs ≡ ok ys → All P ys
  unfolding traverse
  traverse-All [] ys h = ok-to {E = E} (All P) h tt
  traverse-All (x ∷ xs) ys h = >>=-elim (f x) _ h λ y e h1.
      >>=-elim (traverse f xs) _ h1
        λ rest e1 h2. ok-to {E = E} (All P) h2 (each x y e, traverse-All xs rest e1)

-- Whatever is raised passes a test.
unfoldable pub Raises {ℓ κ} : {E : Type ℓ} {A : Type κ} → (E → Bool) → Result E A → Type (ℓ ⊔ κ)
Raises {E = E} p r = (e : E) → r ≡ err e → p e ≡ true

pub Raises-err {ℓ κ} :
    {E : Type ℓ} (A : Type κ) (p : E → Bool) (raised : E)
    → p raised ≡ true
    → Raises {A = A} p (err raised)
unfolding Raises
Raises-err A p raised h e k = let same : raised ≡ e = cc (k) in rw (← same) h

module _ {ℓ} {E : Type ℓ} (p : E → Bool) where
  module _ {κ} {A : Type κ} where
    pub Raises-ok : (a : A) → Raises p (ok a)
    unfolding Raises
    Raises-ok a e h = cc

    pub Raises-or_raise :
        (o : Option A) (raised : E) → p raised ≡ true → Raises p (or_raise o raised)
    Raises-or_raise none raised h = Raises-err _ p raised h
    Raises-or_raise (some a) raised h = Raises-ok a

    pub Raises-bind {μ} :
        {B : Type μ} (r : Result E A) (rest : A → Result E B)
        → Raises p r
        → ((a : A) → Raises p (rest a))
        → Raises p (r >>= rest)
    unfolding Raises
    Raises-bind (err raised) rest h k = λ e same. h e (cc (same))
    Raises-bind (ok a) rest h k = k a

  pub Raises-require : (b : Bool) (raised : E) → p raised ≡ true → Raises p (require b raised)
  Raises-require true raised h = Raises-ok tt
  Raises-require false raised h = Raises-err _ p raised h
