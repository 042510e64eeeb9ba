-- ===== src/Delivery/History/Executions.antt =====
-- The calls on execution leases keep the log and the good state of the tables.
use tpl_backend.Base.{
  ℕ, ◌≡◌, refl, sym, ap, inl, inr, Text, arith, find?, Bool-cases, Option-cases, Result, ok, err,
  ok-injective,
}
use tpl_backend.Delivery.Store.{Message, Store, DeliveryError, lease_lost, stamp_le}
use tpl_backend.Delivery.Policy.{Policy}
use tpl_backend.Delivery.Tasks.{
  ConsumerLease, resource_of, runnable, upsert_execution, free_resource, take_lease,
  claim_execution, check_lease, renew, release, has_resource,
}
use tpl_backend.Delivery.Tasks.Leases.{claim_execution-Advances, renew-Advances, release-Advances}
use tpl_backend.Delivery.History.{committed}
use tpl_backend.Delivery.History.Rows.{Preserves, Advances-Preserves}
use tpl_backend.Delivery.History.Commits.{committed-Preserves}

upsert_execution-messages :
    (t : ℕ) (key : Text) (id owner ttl : ℕ) (s : Store)
    → (upsert_execution t key id owner ttl s).1.messages ≡ s.messages
unfolding upsert_execution
upsert_execution-messages t key id owner ttl s =
    elim (Option-cases (find? (has_resource key) s.executions)) [
      | inl e ↦ rw (e, upsert_execution) refl
      | inr (l, e) ↦ elim (Bool-cases (stamp_le l.expires_at t)) [
        | inl f ↦ rw (e, upsert_execution, f) refl
        | inr f ↦ rw (e, upsert_execution, f) refl
      ]
    ]

take_lease-messages :
    (p : Policy) (t owner : ℕ) (m : Message) (s : Store)
    → (take_lease p t owner m s).1.messages ≡ s.messages
unfolding take_lease free_resource
take_lease-messages p t owner m s =
    ground (arith, upsert_execution-messages t (resource_of m) m.id owner p.lease_seconds s)

claim_execution-messages :
    (p : Policy) (t t' owner id : ℕ) (seen s : Store)
    → (claim_execution p t t' owner id seen s).1.messages ≡ s.messages
unfolding claim_execution
claim_execution-messages p t t' owner id seen s = elim (Option-cases (runnable p t id seen)) [
  | inl e ↦ rw (e, claim_execution) refl
  | inr (m, e) ↦ rw (e, claim_execution) (take_lease-messages p t' owner m s)
]

pub claim_execution-Preserves :
    (p : Policy) (t t' owner id : ℕ) (seen s : Store)
    → Preserves s (claim_execution p t t' owner id seen s).1
claim_execution-Preserves p t t' owner id seen s =
    Advances-Preserves s _ (claim_execution-messages p t t' owner id seen s)
      (claim_execution-Advances p t t' owner id seen s)

renew-messages :
    (p : Policy) (l : ConsumerLease) (t : ℕ) (s s' : Store)
    → renew p l t s ≡ ok s'
    → s'.messages ≡ s.messages
unfolding renew
renew-messages p l t s s' h = elim (Bool-cases (check_lease l t s)) [
  | inl e ↦
      ap (λ (z : Store). z.messages) (sym (ok-injective {E = DeliveryError} (rw (e, renew) at h)))
  | inr e ↦
      let no : ◌≡◌ {A = Result DeliveryError Store} (err lease_lost) (ok s') = rw (e, renew) at h in
      cc
]

pub renew-Preserves :
    (p : Policy) (l : ConsumerLease) (t : ℕ) (s : Store) → Preserves s (committed s (renew p l t s))
renew-Preserves p l t s =
    committed-Preserves s (renew p l t s)
      λ s' h. Advances-Preserves s s' (renew-messages p l t s s' h) (renew-Advances p l t s s' h)

pub release-Preserves : (l : ConsumerLease) (s : Store) → Preserves s (release l s)
unfolding release
release-Preserves l s = Advances-Preserves s (release l s) refl (release-Advances l s)
