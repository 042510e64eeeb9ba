-- ===== src/Delivery/Store/Order.antt =====
-- `ORDER BY created_at, id`: the rows are those of the table, the earliest first.
use tpl_backend.Base.{
  ◌≡◌, ◌⊎◌, inl, inr, Bool, true, false, List, [], ◌∷◌, some, Bool-cases, In, All, All-map, All-in,
  find?, find?-some, arith,
}
use tpl_backend.Delivery.Store.{Message, row_before, insert_row, in_order}

-- Each row before all that follow it.
abbrev pub IsOrdered : List Message → Type 0
IsOrdered [] = Unit
IsOrdered (m ∷ ms) = All (λ n. row_before m n ≡ true) ms × IsOrdered ms

row_before_total : (a b : Message) → row_before a b ≡ false → row_before b a ≡ true
unfolding row_before
row_before_total a b h = ground arith

row_before_trans :
    (a b c : Message) → row_before a b ≡ true → row_before b c ≡ true → row_before a c ≡ true
unfolding row_before
row_before_trans a b c h k = ground arith

pub row_before_refl : (a : Message) → row_before a a ≡ true
unfolding row_before
row_before_refl a = ground arith

insert-later :
    {m n k : Message} (ms : List Message)
    → ((n ≡ m) ⊎ In n ms → In n (insert_row m ms))
    → (n ≡ m) ⊎ ((n ≡ k) ⊎ In n ms)
    → (n ≡ k) ⊎ In n (insert_row m ms)
insert-later ms ih (inl p) = inr (ih (inl p))
insert-later ms ih (inr (inl p)) = inl p
insert-later ms ih (inr (inr p)) = inr (ih (inr p))

In-insert_row_of : (m n : Message) (ms : List Message) → (n ≡ m) ⊎ In n ms → In n (insert_row m ms)
unfolding insert_row
In-insert_row_of m n [] h = h
In-insert_row_of m n (k ∷ ms) h = elim (Bool-cases (row_before m k)) [
  | inl e ↦ rw (e, insert_row) h
  | inr e ↦ rw (e, insert_row) (insert-later ms (In-insert_row_of m n ms) h)
]

insert-sooner :
    {m n k : Message} (ms : List Message)
    → (In n (insert_row m ms) → (n ≡ m) ⊎ In n ms)
    → (n ≡ k) ⊎ In n (insert_row m ms)
    → (n ≡ m) ⊎ ((n ≡ k) ⊎ In n ms)
insert-sooner ms ih (inl p) = inr (inl p)
insert-sooner ms ih (inr q) = elim (ih q) [ inl p ↦ inl p | inr p ↦ inr (inr p) ]

In-insert_row : (m n : Message) (ms : List Message) → In n (insert_row m ms) → (n ≡ m) ⊎ In n ms
unfolding insert_row
In-insert_row m n [] h = h
In-insert_row m n (k ∷ ms) h = elim (Bool-cases (row_before m k)) [
  | inl e ↦ rw (e, insert_row) at h
  | inr e ↦ insert-sooner ms (In-insert_row m n ms) (rw (e, insert_row) at h)
]

-- The ordered table has the rows of the table, and no other.
pub In-in_order : (ms : List Message) (n : Message) → In n (in_order ms) → In n ms
unfolding in_order
In-in_order [] n h = h
In-in_order (m ∷ ms) n h = elim (In-insert_row m n (in_order ms) h) [
  | inl e ↦ inl e
  | inr k ↦ inr (In-in_order ms n k)
]

pub In-in_order_of : (ms : List Message) (n : Message) → In n ms → In n (in_order ms)
unfolding in_order
In-in_order_of [] n h = h
In-in_order_of (m ∷ ms) n (inl e) = In-insert_row_of m n (in_order ms) (inl e)
In-in_order_of (m ∷ ms) n (inr h) = In-insert_row_of m n (in_order ms) (inr (In-in_order_of ms n h))

insert_row-All :
    (P : Message → Type 0) (m : Message) (ms : List Message)
    → P m
    → All P ms
    → All P (insert_row m ms)
unfolding insert_row
insert_row-All P m [] p h = (p, tt)
insert_row-All P m (k ∷ ms) p (q, h) = elim (Bool-cases (row_before m k)) [
  | inl e ↦ rw (e, insert_row) (p, (q, h))
  | inr e ↦ rw (e, insert_row) (q, insert_row-All P m ms p h)
]

insert_row-IsOrdered :
    (m : Message) (ms : List Message) → IsOrdered ms → IsOrdered (insert_row m ms)
unfolding insert_row
insert_row-IsOrdered m [] h = (tt, tt)
insert_row-IsOrdered m (k ∷ ms) (q, h) = elim (Bool-cases (row_before m k)) [
  | inl e ↦ rw (e, insert_row) (((e, All-map _ _ ms (λ n p. row_before_trans m k n e p) q)), (q, h))
  | inr e ↦
      rw (e, insert_row)
        (insert_row-All _ m ms (row_before_total m k e) q, insert_row-IsOrdered m ms h)
]

in_order-IsOrdered : (ms : List Message) → IsOrdered (in_order ms)
unfolding in_order
in_order-IsOrdered [] = tt
in_order-IsOrdered (m ∷ ms) = insert_row-IsOrdered m (in_order ms) (in_order-IsOrdered ms)

head_before :
    (k n : Message) (ms : List Message)
    → All (λ x. row_before k x ≡ true) ms
    → In n (k ∷ ms)
    → row_before k n ≡ true
head_before k n ms q (inl e) = rw e (row_before_refl k)
head_before k n ms q (inr m) = All-in _ ms n q m

not_head :
    (p : Message → Bool) (k n : Message) (ms : List Message)
    → p k ≡ false
    → p n ≡ true
    → In n (k ∷ ms)
    → In n ms
not_head p k n ms e t (inl same) = let e' : p n ≡ false = rw same e in cc
not_head p k n ms e t (inr m) = m

first_before :
    (p : Message → Bool) (ms : List Message) (c n : Message)
    → IsOrdered ms
    → find? p ms ≡ some c
    → In n ms
    → p n ≡ true
    → row_before c n ≡ true
first_before p [] c n h f m t = absurd m
first_before p (k ∷ ms) c n (q, h) f m t = elim (Bool-cases (p k)) [
  | inl e ↦
      let found : some k ≡ some c = rw e at f in
      let same : c ≡ k = cc in rw same (head_before k n ms q m)
  | inr e ↦ first_before p ms c n h (rw e at f) (not_head p k n ms e t m) t
]

-- The first row that passes a test is a row of the table that passes it, the earliest of those.
pub record IsFirst (p : Message → Bool) (ms : List Message) (c : Message) : Type 0 where
  pub listed : In c ms
  pub passes : p c ≡ true
  pub earliest : (n : Message) → In n ms → p n ≡ true → row_before c n ≡ true

pub find?-in_order :
    (p : Message → Bool) (ms : List Message) (c : Message)
    → find? p (in_order ms) ≡ some c
    → IsFirst p ms c
find?-in_order p ms c h = record {
  listed = In-in_order ms c (find?-some p (in_order ms) c h).1;
  passes = (find?-some p (in_order ms) c h).0;
  earliest =
      λ n m t. first_before p (in_order ms) c n (in_order-IsOrdered ms) h (In-in_order_of ms n m) t;
}
