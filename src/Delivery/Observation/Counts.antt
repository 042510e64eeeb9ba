-- ===== src/Delivery/Observation/Counts.antt =====
-- The reconcile gauge of delivery_observation.py against the rows that `reconcile` recovers.
use tpl_backend.Base.{
  ℕ, ◌+◌, ◌≡◌, ◌⊎◌, refl, sym, ap, ◌∙◌, inl, inr, Bool, true, false, not, ◌&&◌, none, some, List,
  [], ◌∷◌, ◌++◌, Text, map, any, filter, length, text_eq, if◌then◌else◌, Bool-cases, Result, ok,
  err, ok-injective, arith,
}
use tpl_backend.Delivery.Store.{
  Store, Message, Receipt, is_receipt, is_received, is_dead, is_published,
}
use tpl_backend.Delivery.Policy.{Policy, is_executing, published_before, is_unacknowledged}
use tpl_backend.Delivery.Observation.{
  ObservationError, Observation, Fact, count, joined, fact_of, facts_of, facts, is_candidate,
  is_timestamp, rows_of, gauges, observe, invalid_header,
}

module _ {A : Type 0} (p : A → Bool) where
  pub count-append : (xs ys : List A) → count p (xs ++ ys) ≡ count p xs + count p ys
  count-append [] ys = ground arith
  count-append (x ∷ xs) ys = elim (Bool-cases (p x)) [
    | inl e ↦ let rest = count-append xs ys in rw e (ground arith)
    | inr e ↦ rw e (count-append xs ys)
  ]

  -- Nothing is kept, or the first that is kept says that there is one.
  pub filter-cases :
      (xs : List A)
      → ((filter p xs ≡ []) × (any p xs ≡ false))
        ⊎ ((y : A) × (ys : List A) × (filter p xs ≡ y ∷ ys) × (any p xs ≡ true))
  filter-cases [] = inl (refl, refl)
  filter-cases (x ∷ xs) = elim (Bool-cases (p x)) [
    | inl e ↦ inr (x, filter p xs, rw e refl, rw e refl)
    | inr e ↦ rw e (filter-cases xs)
  ]

-- What is asked of a row besides its topic.
abbrev unanswered : Policy → ℕ → Text → Store → Message → Bool
unanswered p t consumer s m =
    is_published m.status
    && published_before m.published_at p.lease_seconds t
    && not (is_received s consumer m.id)
    && not (is_executing s t m.id)
    && not (is_dead s m.id)

abbrev one_if : Bool → ℕ
one_if b = if b then 1 else 0

length-if : {A : Type 0} (b : Bool) (x : A) → length (if b then x ∷ [] else []) ≡ one_if b
length-if true x = refl
length-if false x = refl

module _ (p : Policy) (t : ℕ) (consumer : Text) (s : Store) where
  abbrev candidate : Fact → Bool
  candidate = is_candidate t p.lease_seconds (some consumer)

  received-candidate :
      (m : Message) (r : ℕ) → candidate (fact_of t (some consumer) s m (some r)) ≡ false
  unfolding is_candidate fact_of
  received-candidate m r = refl

  received-count :
      (m : Message) (rs : List Receipt)
      → count candidate (map (fact_of t (some consumer) s m) (map (λ q. some q.processed_at) rs))
        ≡ 0
  received-count m [] = refl
  received-count m (r ∷ rs) = rw (received-candidate m r.processed_at) (received-count m rs)

  missing-candidate :
      (m : Message)
      → is_received s consumer m.id ≡ false
      → candidate (fact_of t (some consumer) s m none) ≡ unanswered p t consumer s m
  unfolding is_candidate fact_of
  missing-candidate m h = ground arith

  received-unanswered :
      (m : Message) → is_received s consumer m.id ≡ true → one_if (unanswered p t consumer s m) ≡ 0
  received-unanswered m h = ground arith

  row-count :
      (m : Message)
      → count candidate (facts_of t (some consumer) s m) ≡ one_if (unanswered p t consumer s m)
  unfolding facts_of joined is_received
  row-count m = elim (filter-cases (is_receipt consumer m.id) s.inbox) [
    | inl (e, h) ↦
        rw (e, missing-candidate m h)
          (length-if (unanswered p t consumer s m) (fact_of t (some consumer) s m none))
    | inr (r, rs, e, h) ↦ rw e (received-count m (r ∷ rs) ∙ sym (received-unanswered m h))
  ]

  abbrev stuck : Text → Message → Bool
  stuck topic = is_unacknowledged p t topic consumer s

  stuck-cons :
      (topic : Text) (m : Message) (ms : List Message)
      → length (filter (stuck topic) (m ∷ ms))
        ≡ one_if (text_eq m.topic topic && unanswered p t consumer s m)
          + length (filter (stuck topic) ms)
  unfolding is_unacknowledged
  stuck-cons topic m ms = ground arith

  facts-count :
      (topic : Text) (ms : List Message)
      → count candidate (facts t (some consumer) s (filter (λ m. text_eq m.topic topic) ms))
        ≡ length (filter (stuck topic) ms)
  unfolding facts
  facts-count topic [] = refl
  facts-count topic (m ∷ ms) = elim (Bool-cases (text_eq m.topic topic)) [
    | inl e ↦
        let rest = facts-count topic ms in
        let one = row-count m in rw (e, stuck-cons topic m ms, count-append, one, rest, e) refl
    | inr e ↦
        let rest = facts-count topic ms in rw (e, stuck-cons topic m ms, rest, e) (ground arith)
  ]

-- The reconcile gauge of a topic with a consumer, observed at the instant of its statement, counts
-- exactly the unacknowledged rows of the topic: those that the loop of `reconcile` selects from the
-- same tables when nothing is locked.
pub observe-unacknowledged :
    (name : Text) (p : Policy) (t : ℕ) (topic consumer : Text) (s : Store) (o : Observation)
    → observe name p t t topic (some consumer) s ≡ ok o
    → o.reconcile_candidates ≡ length (filter (is_unacknowledged p t topic consumer s) s.messages)
unfolding observe gauges
observe-unacknowledged name p t topic consumer s o h =
    elim (Bool-cases (any (λ m. not (is_timestamp m.headers)) (rows_of topic s))) [
      | inl e ↦
          let no : ◌≡◌ {A = Result ObservationError Observation} (err invalid_header) (ok o) =
            rw e at h in
          cc
      | inr e ↦
          let same = ok-injective {E = ObservationError} (rw e at h) in
          sym (ap (λ (q : Observation). q.reconcile_candidates) same)
          ∙ facts-count p t consumer s topic s.messages
    ]
