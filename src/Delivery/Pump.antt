-- ===== src/Delivery/Pump.antt =====
-- app/app/tasks/durable_delivery.py: `pump`, the loop of a publisher.
mod Tests
use mathlib.Core.Bool.{Bool}
use tpl_backend.Base.{
  ℕ, zero, suc, ◌+◌, ◌≡◌, ◌≤◌, ◌<◌, ◌⊎◌, refl, inl, inr, true, false, Option, none, some, List,
  Text, In, Option-cases, Result, ok, err, ◌>>=◌, Result-cases, codes, sym, ap, ◌∙◌,
}
use tpl_backend.Delivery.Store.{
  Message, Store, DeliveryError, invalid_policy, lease_lost, outside_policy, not_dead_lettered,
  malformed_header,
}
use tpl_backend.Delivery.Outbox.{lease_message}
use tpl_backend.Delivery.Policy.{
  Policy, Reading, delivery_candidate, is_claimable, claim_raises, lease_candidate, claim_delivery,
  finish_delivery, reconcile,
}
use tpl_backend.Delivery.Policy.Claims.{claim_delivery-none, claim_delivery-ok}

-- One round: what the claim and the end of the delivery read, the outcome of `publish` (the name of
-- the exception's type, if it raised), and what other transactions commit before each of the two.
pub record Round : Type 0 where
  pub claimed_at : ℕ
  pub locked : ℕ → Bool
  pub owner : Text
  pub publish : Message → Option Text
  pub finished_at : ℕ
  pub before_claim : Store → Store
  pub before_finish : Store → Store

-- `except DeliveryLeaseLost: pass`
unfoldable pub unless_lost : Store → Result DeliveryError Store → Result DeliveryError Store
unless_lost s (ok s') = ok s'
unless_lost s (err lease_lost) = ok s
unless_lost s (err e) = err e

-- What the loop does with the message that it claimed.
unfoldable pub deliver : Policy → Round → Message → Store → Result DeliveryError Store
unfolding finish_delivery unless_lost
deliver p r message s =
    let s' = r.before_finish s in
    unless_lost s' (finish_delivery p r.finished_at message (r.publish message) s')

-- `for _ in range(limit)`; the rounds are numbered by the count.
unfoldable pub pump_loop : Policy → (ℕ → Round) → ℕ → ℕ → Store → Result DeliveryError (ℕ × Store)
unfolding claim_delivery deliver
pump_loop p rounds zero count s = ok (count, s)
pump_loop p rounds (suc limit) count s =
    let r = rounds count in
    let claimed = claim_delivery p r.claimed_at r.locked r.owner (r.before_claim s) in
    elim claimed.0 [
      | err e ↦ err e
      | ok none ↦ ok (count, claimed.1)
      | ok (some message) ↦
          deliver p r message claimed.1 >>= λ s'. pump_loop p rounds limit (count + 1) s'
    ]

unfoldable pub pump :
    Policy → (ℕ → Reading) → (ℕ → Round) → ℕ → Store → Result DeliveryError (ℕ × Store)
unfolding pump_loop reconcile
pump p us rounds limit s = pump_loop p rounds limit 0 (reconcile p us s).1

-- How a run of the loop returns: with all its rounds, or with nothing left to claim.
pub record IsPumped (p : Policy) (rounds : ℕ → Round) (bound : ℕ)
    (result : Result DeliveryError (ℕ × Store)) : Type 0 where
  pub count : ℕ
  pub store : Store
  pub returned : result ≡ ok (count, store)
  pub bounded : count ≤ bound
  pub drained :
      (count ≡ bound)
      ⊎ ((m : Message)
          → In m store.messages
          → (rounds count).locked m.id ≡ false
          → is_claimable p (rounds count).claimed_at store m ≡ false)

-- How a run of the loop raises: before its last round, by the claim, on a store where an available row
-- of the policy has a malformed not-before header.
pub record IsStopped (p : Policy) (rounds : ℕ → Round) (bound : ℕ)
    (result : Result DeliveryError (ℕ × Store)) : Type 0 where
  pub count : ℕ
  pub store : Store
  pub stopped : result ≡ err malformed_header
  pub early : count < bound
  pub malformed : claim_raises p (rounds count).claimed_at store ≡ true

claim-unchanged :
    (p : Policy) (t : ℕ) (locked : ℕ → Bool) (owner : Text) (s : Store)
    → (claim_delivery p t locked owner s).0 ≡ ok none
    → (claim_delivery p t locked owner s).1 ≡ s
unfolding lease_candidate
claim-unchanged p t locked owner s h =
    let k = claim_delivery-ok p t locked owner s none h in
    let h' = ap (λ q. q.0) (sym k) ∙ h in
    elim (Option-cases (delivery_candidate p t locked s)) [
      | inl e ↦ rw (k, e, lease_candidate) refl
      | inr (c, e) ↦
          let no : ◌≡◌ {A = Result DeliveryError (Option Message)}
              (ok (some (lease_message owner t p.lease_seconds c))) (ok none) =
            rw (e, lease_candidate) at h' in
          cc
    ]

module _ (p : Policy) (rounds : ℕ → Round) where
  drained :
      (count bound : ℕ) (s : Store)
      → count ≤ bound
      → (claim_delivery p (rounds count).claimed_at (rounds count).locked (rounds count).owner s).0
        ≡ ok none
      → IsPumped p rounds bound (
          ok (
            count,
            (claim_delivery p
                (rounds count).claimed_at
                (rounds count).locked
                (rounds count).owner
                s).1,
          ))
  drained count bound s le h =
      let r = rounds count in
      let same = claim-unchanged p r.claimed_at r.locked r.owner s h in
      record {
        count = count;
        store = s;
        returned = rw same refl;
        bounded = le;
        drained =
            inr (λ m k free. claim_delivery-none p r.claimed_at r.locked r.owner s m h k free);
      }
