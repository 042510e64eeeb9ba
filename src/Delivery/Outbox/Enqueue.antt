-- ===== src/Delivery/Outbox/Enqueue.antt =====
-- `enqueue` of repositories/outbox.py is idempotent.
use tpl_backend.Base.{
  ℕ, ◌≡◌, refl, sym, ap, subst, ◌∙◌, inl, inr, true, Option, none, some, [], ◌∷◌, ◌++◌,
  text_eq_refl, find?, find?-append, if◌then◌else◌, Option-cases, ok, ok-injective, >>=-eq-ok,
}
use tpl_backend.Base.Json.{Json}
use tpl_backend.Delivery.Event.{OutboxEvent, Headers, model_validate, transport_headers}
use tpl_backend.Delivery.Store.{Message, Store, DeliveryError}
use tpl_backend.Delivery.Outbox.{
  Clock, Jsonb, new_message, same_intent, has_dedup_key, upsert_message, or_different, validated,
  enqueue,
}

-- Equality of `jsonb` values is reflexive.
pub record IsReflexive (j : Jsonb) : Type 0 where
  pub payload : (v : Json) → j.same_payload v v ≡ true
  pub headers : (h : Headers) → j.same_headers h h ≡ true

module _ (j : Jsonb) (new : Message) (s : Store) where
  upsert_missing :
      find? (has_dedup_key new.deduplication_key) s.messages ≡ none
      → upsert_message j new s ≡ (some new.id, record s { messages = s.messages ++ new ∷ [] })
  unfolding upsert_message
  upsert_missing e = rw (e, upsert_message)

  upsert_found :
      (old : Message)
      → find? (has_dedup_key new.deduplication_key) s.messages ≡ some old
      → upsert_message j new s ≡ (if same_intent j old new then some old.id else none, s)
  unfolding upsert_message
  upsert_found old e = rw (e, upsert_message)

module _ (j : Jsonb) (ref : IsReflexive j) (e : OutboxEvent) where
  same_intent-new :
      (id now id' now' : ℕ) → same_intent j (new_message id now e) (new_message id' now' e) ≡ true
  unfolding same_intent new_message
  same_intent-new id now id' now' =
      rw
        (
          text_eq_refl e.topic,
          text_eq_refl e.aggregate_key,
          ref.payload e.payload,
          ref.headers (transport_headers e),
        )
        refl

  -- The intent is the event's: neither the id nor the clock is in it.
  same_intent-fresh :
      (old : Message) (id now id' now' : ℕ)
      → same_intent j old (new_message id now e) ≡ same_intent j old (new_message id' now' e)
  unfolding same_intent new_message
  same_intent-fresh old id now id' now' = refl

  upsert-again :
      (id now id' now' : ℕ) (s s' : Store) (i : ℕ)
      → upsert_message j (new_message id now e) s ≡ (some i, s')
      → upsert_message j (new_message id' now' e) s' ≡ (some i, s')
  unfolding new_message
  upsert-again id now id' now' s s' i h =
      let new = new_message id now e in
      let new' = new_message id' now' e in
      elim (Option-cases (find? (has_dedup_key e.deduplication_key) s.messages)) [
        | inl missing ↦
            let first = sym (upsert_missing j new s missing) ∙ h in
            let found : find? (has_dedup_key e.deduplication_key) (s.messages ++ new ∷ [])
                ≡ some new =
              find?-append _ s.messages new missing (text_eq_refl e.deduplication_key) in
            subst (λ z. upsert_message j new' z ≡ (some i, z)) (ap (λ q. q.1) first)
              (upsert_found j new' _ new found
                ∙ rw (same_intent-new id now id' now')
                    (ap (λ q. (q.0, record s { messages = s.messages ++ new ∷ [] })) first))
        | inr (old, found) ↦
            let first = sym (upsert_found j new s old found) ∙ h in
            let same = ap (λ q. q.1) first in
            subst (λ z. upsert_message j new' z ≡ (some i, z)) same
              (upsert_found j new' s old found
                ∙ rw (same_intent-fresh old id' now' id now) (ap (λ q. (q.0, s)) first))
      ]

or_different-eq-ok :
    (u : Option ℕ × Store) (i : ℕ) (s : Store) → or_different u ≡ ok (i, s) → u ≡ (some i, s)
or_different-eq-ok (none, z) i s h = cc
or_different-eq-ok (some k, z) i s h =
    let e = ok-injective {E = DeliveryError} h in λ n. (some (e n).0, (e n).1)

-- A repeated `enqueue` of one event, whatever its clock and its fresh id, returns the id of the first
-- and changes nothing.
pub enqueue_idempotent :
    (j : Jsonb) (c c' : Clock) (id id' i : ℕ) (e : OutboxEvent) (s s' : Store)
    → IsReflexive j
    → enqueue j c id e s ≡ ok (i, s')
    → enqueue j c' id' e s' ≡ ok (i, s')
unfolding enqueue
enqueue_idempotent j c c' id id' i e s s' ref h =
    let (e', valid, stored) = >>=-eq-ok (validated (model_validate e)) _ h in
    let first = or_different-eq-ok _ i s' stored in
    rw (valid, upsert-again j ref e' id c.now id' c'.now s s' i first) refl
