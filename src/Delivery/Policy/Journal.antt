-- ===== src/Delivery/Policy/Journal.antt =====
-- The dead-letter journal of durable_delivery.py: `_dead_letter` and what it leaves alone.
use tpl_backend.Base.{
  ℕ, ◌≡◌, refl, inl, inr, Bool, true, false, ◌||◌, none, List, [], ◌∷◌, ◌++◌, Text, any, take,
  update, ◌==◌, ==_iff, Bool-cases, arith,
}
use tpl_backend.Delivery.Store.{DeadLetter, Store, is_live_letter, is_dead}
use tpl_backend.Delivery.Policy.{dead_letter}

module _ (t id : ℕ) (code : Text) where
  abbrev is_row : DeadLetter → Bool
  is_row d = d.message_id == id

  abbrev buried : DeadLetter → DeadLetter
  buried d = record d { error_code = code; failed_at = t; replayed_at = none }

  abbrev new_row : DeadLetter
  new_row = record { message_id = id; error_code = code; failed_at = t; replayed_at = none }

  any-buried_self :
      (ds : List DeadLetter)
      → any is_row ds ≡ true
      → any (is_live_letter id) (update is_row buried ds) ≡ true
  unfolding is_live_letter
  any-buried_self [] h = h
  any-buried_self (d ∷ ds) h = ground (arith, any-buried_self ds)

  any-buried_other :
      (id' : ℕ) (ds : List DeadLetter)
      → (id == id') ≡ false
      → any (is_live_letter id') (update is_row buried ds) ≡ any (is_live_letter id') ds
  unfolding is_live_letter
  any-buried_other id' [] h = refl
  any-buried_other id' (d ∷ ds) h = ground (arith, any-buried_other id' ds)

  any-new_row :
      (id' : ℕ) (ds : List DeadLetter)
      → any (is_live_letter id') (ds ++ new_row ∷ []) ≡ (id == id' || any (is_live_letter id') ds)
  unfolding is_live_letter
  any-new_row id' [] = ground arith
  any-new_row id' (d ∷ ds) = ground (arith, any-new_row id' ds)

  any-buried :
      (id' : ℕ) (ds : List DeadLetter)
      → any is_row ds ≡ true
      → any (is_live_letter id') (update is_row buried ds)
        ≡ (id == id' || any (is_live_letter id') ds)
  any-buried id' ds h = elim (Bool-cases (id == id')) [
    | inl same ↦ rw (← (==_iff id id').0 same, (==_iff id id).1 refl) (any-buried_self ds h)
    | inr other ↦ rw other (any-buried_other id' ds other)
  ]

-- Afterwards the dead letters are those from before and this one.
pub is_dead-dead_letter :
    (t id : ℕ) (error : Text) (s : Store) (id' : ℕ)
    → is_dead (dead_letter t id error s) id' ≡ (id == id' || is_dead s id')
unfolding is_dead dead_letter
is_dead-dead_letter t id error s id' = elim (Bool-cases (any (is_row t id error) s.dead_letters)) [
  | inl old ↦ rw (old, dead_letter) (any-buried t id (take 256 error) id' s.dead_letters old)
  | inr new ↦ rw (new, dead_letter) (any-new_row t id (take 256 error) id' s.dead_letters)
]

module _ (t id : ℕ) (error : Text) (s : Store) where
  pub dead_letter-messages : (dead_letter t id error s).messages ≡ s.messages
  unfolding dead_letter
  dead_letter-messages = ground arith

  pub dead_letter-inbox : (dead_letter t id error s).inbox ≡ s.inbox
  unfolding dead_letter
  dead_letter-inbox = ground arith

  pub dead_letter-executions : (dead_letter t id error s).executions ≡ s.executions
  unfolding dead_letter
  dead_letter-executions = ground arith
