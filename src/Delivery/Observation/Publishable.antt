-- ===== src/Delivery/Observation/Publishable.antt =====
-- The publishable gauge of delivery_observation.py against `claim_delivery`.
use mathlib.Core.Bool.{false≢true}
use tpl_backend.Base.{
  unnegate, ℕ, ◌≡◌, ◌<◌, ◌⊎◌, refl, sym, subst, ◌∙◌, inl, inr, Bool, true, false, not, Option, some,
  List, [], ◌∷◌, ◌++◌, Text, map, any, text_eq, text_eq_sound, contains, Bool-cases, Option-cases,
  In, In-filter, All-in, any-false, filter-true, Result, ok, err, ok-injective, arith,
}
use tpl_backend.Delivery.Event.{Headers, plain, instant, not_before_header}
use tpl_backend.Delivery.Store.{at, Store, Message, stamp_le, not_before_due, header}
use tpl_backend.Delivery.Policy.{
  Policy, is_claimable, in_policy, claim_raises, claim_delivery, is_open,
}
use tpl_backend.Delivery.Policy.Claims.{claim_delivery-none, claim_delivery-returns}
use tpl_backend.Delivery.Observation.{
  ObservationError, Observation, Fact, due_at, count, joined, fact_of, facts_of, facts,
  is_publishable, is_timestamp, rows_of, gauges, observe, invalid_header,
}

-- A count above 0 has a witness.
count-some :
    {A : Type 0} (p : A → Bool) (xs : List A) → 0 < count p xs → (x : A) × In x xs × (p x ≡ true)
count-some p [] h = absurd (ground arith)
count-some p (x ∷ xs) h = elim (Bool-cases (p x)) [
  | inl e ↦ (x, inl refl, e)
  | inr e ↦ let (y, m, q) = count-some p xs (rw e at h) in (y, inr m, q)
]

In-append : {A : Type 0} (a : A) (xs ys : List A) → In a (xs ++ ys) → In a xs ⊎ In a ys
In-append a [] ys m = inr m
In-append a (x ∷ xs) ys (inl e) = inl (inl e)
In-append a (x ∷ xs) ys (inr m) = elim (In-append a xs ys m) [ inl k ↦ inl (inr k) | inr k ↦ inr k ]

In-map :
    {A : Type 0} {B : Type 0} (f : A → B) (xs : List A) (b : B)
    → In b (map f xs)
    → (a : A) × (b ≡ f a)
In-map f [] b m = absurd m
In-map f (x ∷ xs) b (inl e) = (x, e)
In-map f (x ∷ xs) b (inr m) = In-map f xs b m

-- A fact is of one of the rows.
facts-row :
    (t : ℕ) (consumer : Option Text) (s : Store) (ms : List Message) (f : Fact)
    → In f (facts t consumer s ms)
    → (m : Message) × In m ms × ((r : Option ℕ) × (f ≡ fact_of t consumer s m r))
unfolding facts facts_of
facts-row t consumer s [] f k = absurd k
facts-row t consumer s (m ∷ ms) f k =
    elim (In-append f (facts_of t consumer s m) (facts t consumer s ms) k) [
      | inl h ↦ (m, inl refl, In-map _ (joined consumer s m.id) f h)
      | inr h ↦ let (n, l, q) = facts-row t consumer s ms f h in (n, inr l, q)
    ]

due-not_before :
    (hs : Headers) (t : ℕ)
    → is_timestamp hs ≡ true
    → stamp_le (due_at hs) t ≡ true
    → not_before_due hs t ≡ true
unfolding is_timestamp due_at not_before_due
due-not_before hs t h k = elim (Option-cases (header not_before_header hs)) [
  | inl e ↦ rw (e, not_before_due) refl
  | inr (plain x, e) ↦ let no : false ≡ true = rw (e, is_timestamp) at h in cc
  | inr (instant i, e) ↦
      let k' : stamp_le (at i) t ≡ true = rw (e, due_at) at k in rw (e, not_before_due) k'
]

publishable-claimable :
    (p : Policy) (t : ℕ) (consumer : Option Text) (s : Store) (m : Message) (r : Option ℕ)
    → in_policy p m ≡ true
    → is_timestamp m.headers ≡ true
    → is_publishable t (fact_of t consumer s m r) ≡ true
    → is_claimable p t s m ≡ true
unfolding is_claimable is_publishable fact_of is_open
publishable-claimable p t consumer s m r own time h =
    let due : stamp_le (due_at m.headers) t ≡ true = ground arith in
    let free = due-not_before m.headers t time due in ground arith

observe-timestamps :
    (name : Text) (p : Policy) (now t : ℕ) (topic : Text) (consumer : Option Text) (s : Store)
    (o : Observation)
    → observe name p now t topic consumer s ≡ ok o
    → (any (λ m. not (is_timestamp m.headers)) (rows_of topic s) ≡ false)
      × (gauges name p now t topic consumer (facts t consumer s (rows_of topic s)) ≡ o)
unfolding observe
observe-timestamps name p now t topic consumer s o h =
    elim (Bool-cases (any (λ m. not (is_timestamp m.headers)) (rows_of topic s))) [
      | inl e ↦
          let no : ◌≡◌ {A = Result ObservationError Observation} (err invalid_header) (ok o) =
            rw e at h in
          cc
      | inr e ↦ (e, ok-injective {E = ObservationError} (rw e at h))
    ]

row-in_policy :
    (p : Policy) (topic : Text) (m : Message)
    → contains (map (λ q. q.0) p.topics) topic ≡ true
    → text_eq m.topic topic ≡ true
    → in_policy p m ≡ true
unfolding in_policy
row-in_policy p topic m own h = rw (text_eq_sound m.topic topic h) own

-- Where the observation of a topic of the policy counts a publishable message, `claim_delivery` at
-- the same instant returns a message, if no other transaction holds a row and no available row of the
-- policy has a malformed not-before header.
pub observe-claims :
    (name : Text) (p : Policy) (t : ℕ) (topic : Text) (consumer : Option Text) (s : Store)
    (o : Observation) (locked : ℕ → Bool) (owner : Text)
    → observe name p t t topic consumer s ≡ ok o
    → 0 < o.publishable_messages
    → contains (map (λ q. q.0) p.topics) topic ≡ true
    → ((id : ℕ) → locked id ≡ false)
    → claim_raises p t s ≡ false
    → (m : Message) × ((claim_delivery p t locked owner s).0 ≡ ok (some m))
unfolding gauges
observe-claims name p t topic consumer s o locked owner h positive own free sound =
    let (valid, same) = observe-timestamps name p t t topic consumer s o h in
    let some_fact =
      count-some (is_publishable t) (facts t consumer s (rows_of topic s))
        (subst (λ (q : Observation). 0 < q.publishable_messages) (sym same) positive) in
    let (f, listed, passes) = some_fact in
    let (m, row, (r, of)) = facts-row t consumer s (rows_of topic s) f listed in
    let time = unnegate (All-in _ (rows_of topic s) m (any-false _ (rows_of topic s) valid) row) in
    let mine =
      All-in _ (rows_of topic s) m (filter-true (λ k. text_eq k.topic topic) s.messages) row in
    let claimable =
      publishable-claimable p t consumer s m r (row-in_policy p topic m own mine) time
        (subst (λ g. is_publishable t g ≡ true) of passes) in
    elim (claim_delivery-returns p t locked owner s sound) [
      | inr c ↦ c
      | inl e ↦ absurd (
          false≢true (
            sym (
              claim_delivery-none p t locked owner s m e (In-filter _ s.messages m row) (free m.id))
            ∙ claimable))
    ]
