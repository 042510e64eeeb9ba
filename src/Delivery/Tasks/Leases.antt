-- ===== src/Delivery/Tasks/Leases.antt =====
-- What durable_tasks.py guarantees of one lease: who may take it, and who still holds it.
use tpl_backend.Base.{
  ℕ, ◌+◌, ◌≡◌, refl, sym, ap, ◌∙◌, inl, inr, Bool, true, false, not, ◌&&◌, Option, none, some, List,
  [], ◌∷◌, Text, text_eq, text_eq_sound, any, find?, Bool-cases, Option-cases, ok, err, ok-to,
  arith,
}
use tpl_backend.Delivery.Store.{stamp_le, Message, Execution, Store, lease_lost, is_received}
use tpl_backend.Delivery.Policy.{Policy}
use tpl_backend.Delivery.Tasks.{
  ConsumerLease, resource_of, runnable, has_resource, upsert_execution, free_resource, take_lease,
  claim_execution, is_leased_to, check_lease, renew, release,
}
use tpl_backend.Delivery.Tasks.Epochs.{
  epoch_at, IsKeyed, Advances, Advances-refl, update-Advances, upsert_execution-Advances,
  upsert_execution-Bumped,
}

-- A claim that succeeded.
pub record Claimed (s s' : Store) (l : ConsumerLease) (m : Message) : Type 0 where
  pub resource : l.resource_key ≡ resource_of m
  pub message : l.message_id ≡ m.id
  pub old : epoch_at (resource_of m) s.executions + 1 ≡ l.epoch
  pub new : epoch_at (resource_of m) s'.executions ≡ l.epoch
  pub unreceived : is_received s' m.topic m.id ≡ false

free_resource-Advances : (k : Text) (s : Store) → Advances s (free_resource k s)
unfolding free_resource
free_resource-Advances k s = update-Advances _ _ s (λ r. refl) (λ r. omega arith)

Advances-trans : {a b c : Store} → Advances a b → Advances b c → Advances a c
Advances-trans ab bc = record {
  inbox = bc.inbox ∙ ab.inbox;
  epochs = λ k. let p = ab.epochs k in let q = bc.epochs k in omega arith;
  keyed = λ h. bc.keyed (ab.keyed h);
}

-- The outcomes of `take_lease`: no lease, or a claim.
data Outcome (s : Store) (m : Message) : Option (ConsumerLease × Message) → Store → Type 0 where
  denied : {s' : Store} → Advances s s' → Outcome s m none s'
  granted :
      {s' : Store} (l : ConsumerLease)
      → Advances s s'
      → Claimed s s' l m
      → Outcome s m (some (l, m)) s'

take_lease-Outcome :
    (p : Policy) (t owner : ℕ) (m : Message) (s : Store)
    → Outcome s m (take_lease p t owner m s).0 (take_lease p t owner m s).1
unfolding take_lease
take_lease-Outcome p t owner m s =
    let k = resource_of m in
    let u = upsert_execution t k m.id owner p.lease_seconds s in
    let a = upsert_execution-Advances t k m.id owner p.lease_seconds s in
    elim (Option-cases u.0) [
      | inl held ↦ rw (held, take_lease) (denied a)
      | inr (e, got) ↦
          let b = upsert_execution-Bumped t k m.id owner p.lease_seconds s e got in
          elim (Bool-cases (is_received u.1 m.topic m.id)) [
            | inl done ↦
                rw (got, take_lease, done)
                  (denied (Advances-trans a (free_resource-Advances k u.1)))
            | inr fresh ↦
                rw (got, take_lease, fresh)
                  (granted _ a (record {
                    resource = refl;
                    message = refl;
                    old = b.old;
                    new = b.new;
                    unreceived = fresh;
                  }))
          ]
    ]

Outcome-Advances :
    {s s' : Store} {m : Message} {o : Option (ConsumerLease × Message)}
    → Outcome s m o s'
    → Advances s s'
Outcome-Advances (denied a) = a
Outcome-Advances (granted l a c) = a

Outcome-Claimed :
    {s s' : Store} {m : Message} {o : Option (ConsumerLease × Message)} (l : ConsumerLease)
    (m' : Message)
    → Outcome s m o s'
    → o ≡ some (l, m')
    → (m' ≡ m) × Claimed s s' l m
Outcome-Claimed l m' (denied a) h = cc
Outcome-Claimed {m} l m' (granted l₀ a c) h =
    let same : l ≡ l₀ = cc in let same' : m' ≡ m = cc in (same', rw same c)

-- A claim reads `seen`, waits, and goes on from `s`.
module _ (p : Policy) (t t' owner id : ℕ) (seen s : Store) where
  pub claim_execution-Advances : Advances s (claim_execution p t t' owner id seen s).1
  unfolding claim_execution
  claim_execution-Advances = elim (Option-cases (runnable p t id seen)) [
    | inl e ↦ rw (e, claim_execution) (Advances-refl s)
    | inr (m, e) ↦ rw (e, claim_execution) (Outcome-Advances (take_lease-Outcome p t' owner m s))
  ]

  pub claim_execution-Claimed :
      (l : ConsumerLease) (m : Message)
      → (claim_execution p t t' owner id seen s).0 ≡ some (l, m)
      → (runnable p t id seen ≡ some m) × Claimed s (claim_execution p t t' owner id seen s).1 l m
  unfolding claim_execution
  claim_execution-Claimed l m h = elim (Option-cases (runnable p t id seen)) [
    | inl e ↦
        let no : ◌≡◌ {A = Option (ConsumerLease × Message)} none (some (l, m)) =
          rw (e, claim_execution) at h in
        cc
    | inr (n, e) ↦
        let h' : (take_lease p t' owner n s).0 ≡ some (l, m) = rw (e, claim_execution) at h in
        let (same, c) = Outcome-Claimed l m (take_lease-Outcome p t' owner n s) h' in
        rw (e, claim_execution) (ap some (sym same), rw same c)
  ]

module _ (l : ConsumerLease) (t : ℕ) where
  abbrev holds : Execution → Bool
  holds r = is_leased_to l r && not (stamp_le r.expires_at t)

  any-holds_key :
      (rs : List Execution) → any holds rs ≡ true → any (has_resource l.resource_key) rs ≡ true
  unfolding is_leased_to
  any-holds_key [] h = h
  any-holds_key (r ∷ rs) h = ground (arith, any-holds_key rs)

  any-holds_epoch :
      (rs : List Execution)
      → IsKeyed rs
      → any holds rs ≡ true
      → epoch_at l.resource_key rs ≡ l.epoch
  unfolding epoch_at is_leased_to
  any-holds_epoch [] k h = cc
  any-holds_epoch (r ∷ rs) (q, k) h = elim (Bool-cases (text_eq r.resource_key l.resource_key)) [
    | inl same ↦
        let key = text_eq_sound r.resource_key l.resource_key same in
        let none_left : any (has_resource l.resource_key) rs ≡ false = rw key at q in
        ground (arith, any-holds_key rs)
    | inr other ↦ ground (arith, any-holds_epoch rs k)
  ]

  -- The row of the resource is the one that the lease holds.
  find?-holds :
      (rs : List Execution)
      → IsKeyed rs
      → any holds rs ≡ true
      → (r : Execution) × (find? (has_resource l.resource_key) rs ≡ some r) × (holds r ≡ true)
  unfolding is_leased_to
  find?-holds [] k h = cc
  find?-holds (r ∷ rs) (q, k) h = elim (Bool-cases (text_eq r.resource_key l.resource_key)) [
    | inl same ↦
        let key = text_eq_sound r.resource_key l.resource_key same in
        let none_left : any (has_resource l.resource_key) rs ≡ false = rw key at q in
        (r, rw same refl, ground (arith, any-holds_key rs))
    | inr other ↦
        let (x, found, held) = find?-holds rs k (ground arith) in (x, rw other found, held)
  ]

-- A lease that passes CHECK_LEASE has the current epoch of its resource.
pub check_lease-epoch :
    (l : ConsumerLease) (t : ℕ) (s : Store)
    → IsKeyed s.executions
    → check_lease l t s ≡ true
    → epoch_at l.resource_key s.executions ≡ l.epoch
unfolding check_lease
check_lease-epoch l t s keyed h = any-holds_epoch l t s.executions keyed h

upsert_execution_held :
    (t : ℕ) (k : Text) (id owner ttl : ℕ) (s : Store) (r : Execution)
    → find? (has_resource k) s.executions ≡ some r
    → stamp_le r.expires_at t ≡ false
    → upsert_execution t k id owner ttl s ≡ (none, s)
unfolding upsert_execution
upsert_execution_held t k id owner ttl s r found busy = rw (found, upsert_execution, busy) refl

take_lease_held :
    (p : Policy) (t owner : ℕ) (m : Message) (s : Store) (r : Execution)
    → find? (has_resource (resource_of m)) s.executions ≡ some r
    → stamp_le r.expires_at t ≡ false
    → take_lease p t owner m s ≡ (none, s)
unfolding take_lease
take_lease_held p t owner m s r found busy =
    let e = upsert_execution_held t (resource_of m) m.id owner p.lease_seconds s r found busy in
    rw (ap (λ q. q.0) e, take_lease) (ap (λ q. (none, q.1)) e)

held-unexpired :
    (l : ConsumerLease) (t : ℕ) (r : Execution)
    → holds l t r ≡ true
    → stamp_le r.expires_at t ≡ false
held-unexpired l t r h = ground arith

-- While a lease is current, no other worker gets one for its resource: at the same moment a claim of
-- any message of the same topic and aggregate key returns nothing and changes nothing.
pub claim_execution_exclusive :
    (p : Policy) (t t' owner id : ℕ) (seen s : Store) (l : ConsumerLease)
    → IsKeyed s.executions
    → check_lease l t' s ≡ true
    → ((m : Message) → runnable p t id seen ≡ some m → resource_of m ≡ l.resource_key)
    → claim_execution p t t' owner id seen s ≡ (none, s)
unfolding claim_execution check_lease
claim_execution_exclusive p t t' owner id seen s l keyed current same =
    elim (Option-cases (runnable p t id seen)) [
      | inl e ↦ rw (e, claim_execution) refl
      | inr (m, e) ↦
          let (r, found, held) = find?-holds l t' s.executions keyed current in
          rw (e, claim_execution)
            (take_lease_held p t' owner m s r (rw (same m e) found) (held-unexpired l t' r held))
    ]

pub renew-Advances :
    (p : Policy) (l : ConsumerLease) (t : ℕ) (s s' : Store) → renew p l t s ≡ ok s' → Advances s s'
unfolding renew
renew-Advances p l t s s' h = elim (Bool-cases (check_lease l t s)) [
  | inl held ↦
      ok-to (Advances s) (rw (held, renew) at h)
        (update-Advances _ _ s (λ r. refl) (λ r. omega arith))
  | inr lost ↦ let e : err lease_lost ≡ ok s' = rw (lost, renew) at h in cc
]

pub release-Advances : (l : ConsumerLease) (s : Store) → Advances s (release l s)
unfolding release
release-Advances l s = update-Advances _ _ s (λ r. refl) (λ r. omega arith)
