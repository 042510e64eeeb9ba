-- ===== src/Delivery/Tasks/Consume.antt =====
-- `consume` of durable_tasks.py: what it has done on every path.
use tpl_backend.Base.{ℕ, ◌+◌, ◌≡◌, ◌⊎◌, Bool, true, false, Option, none, some, Result, ok, err}
use tpl_backend.Base.Json.{Json}
use tpl_backend.Delivery.Store.{Store, Message, lease_lost, malformed_header}
use tpl_backend.Delivery.Policy.{Policy}
use tpl_backend.Delivery.Tasks.{
  ConsumerLease, TaskError, delivery, claim_execution, check_lease, release, select_raises,
}
use tpl_backend.Delivery.Tasks.Runs.{Work, last, progress, Schedule}
use tpl_backend.Delivery.Tasks.Commits.{Committed}
use tpl_backend.Delivery.Tasks.Leases.{Claimed}

module _ {Domain : Type 0} (p : Policy) (handler : Json → Work Domain) (c : Schedule Domain)
    (owner id : ℕ) (s : Store) (d : Domain) where
  module _ (l : ConsumerLease) (m : Message) (s₁ : Store) where
    -- The handler has come to its transaction `n`: each one before it was committed under a lease that
    -- was current.
    pub data Reached : ℕ → Work Domain → Store × Domain → Type 0 where
      begun : Reached 0 (handler m.payload) (c.before_start s₁, d)
      further :
          (n : ℕ) (f : Domain → Option Domain) (k : Domain → Work Domain) (w : Store × Domain)
          (d' : Domain)
          → Reached n (progress f k) w
          → f (c.before_commit n w).1 ≡ some d'
          → check_lease l (c.commit_at n) (c.before_commit n w).0 ≡ true
          → Reached (n + 1) (k d') ((c.before_commit n w).0, d')

    -- What the body of `consume` left: the last transaction and the receipt, together, or what the
    -- handler had committed before, with what others have.
    pub data Ended : Bool → Store × Domain → Type 0 where
      finished :
          (n : ℕ) (f : Domain → Option Domain) (w : Store × Domain) (s₂ : Store) (d₂ : Domain)
          → Reached n (last f) w
          → Committed
              (λ x _. f x)
              l
              m
              (c.begun_at n)
              (c.before_commit n w).0
              (c.before_commit n w).1
              s₂
              d₂
          → Ended true (s₂, d₂)
      broken :
          (n : ℕ) (k : Work Domain) (w : Store × Domain)
          → Reached n k w
          → Ended false (c.before_commit n w)
      unstarted : Ended false (c.before_start s₁, d)

    abbrev Kept : Result TaskError Bool × (Store × Domain) → Type 0
    Kept r =
        ((r.0 ≡ ok true) × Ended true r.1) ⊎ ((e : TaskError) × (r.0 ≡ err e) × Ended false r.1)

  -- What a run of `consume` has done to the tables and to the domain.
  pub data Consumed : Result TaskError Bool → Store × Domain → Type 0 where
    -- nothing to run
    skipped :
        (s' : Store)
        → (claim_execution p c.selected_at c.upsert_at owner id s (c.before_upsert s)).0 ≡ none
        → Consumed (ok false) (s', d)
    -- the row has a malformed not-before header
    unread : select_raises p id s ≡ true → Consumed (err (delivery malformed_header)) (s, d)
    ran :
        (l : ConsumerLease) (m : Message) (s₁ : Store) (w : Store × Domain)
        → Claimed (c.before_upsert s) s₁ l m
        → c.heartbeat_lost ≡ none
        → Ended l m s₁ true w
        → Consumed (ok true) (release l (c.before_release w).0, (c.before_release w).1)
    -- the heartbeat raised, although the last transaction was committed
    overtaken :
        (l : ConsumerLease) (m : Message) (s₁ : Store) (n : ℕ) (w : Store × Domain)
        → Claimed (c.before_upsert s) s₁ l m
        → c.heartbeat_lost ≡ some n
        → Ended l m s₁ true w
        → Consumed
            (err (delivery lease_lost))
            (release l (c.before_release w).0, (c.before_release w).1)
    failed :
        (l : ConsumerLease) (m : Message) (s₁ : Store) (e : TaskError) (w : Store × Domain)
        → Claimed (c.before_upsert s) s₁ l m
        → Ended l m s₁ false w
        → Consumed (err e) (release l (c.before_release w).0, (c.before_release w).1)

  abbrev After : Result TaskError Bool × (Store × Domain) → Type 0
  After r = Consumed r.0 r.1
