-- ===== src/Delivery/Tasks/Commits.antt =====
-- What a committed run of `execute` in durable_tasks.py has done.
use tpl_backend.Base.{
  ℕ, ◌≡◌, refl, sym, ap, ◌∙◌, inl, inr, Bool, true, false, some, Option-cases, Result, ok, err,
  ok-injective, >>=-eq-ok,
}
use tpl_backend.Delivery.Store.{Message, Store, lease_lost}
use tpl_backend.Delivery.Outbox.{insert_receipt, claim_inbox_once}
use tpl_backend.Delivery.Outbox.Receipts.{insert_receipt-executions, claim_inbox_once-ok}
use tpl_backend.Delivery.Tasks.{
  ConsumerLease, Handler, TaskError, handler_failed, check_lease, assert_execution_current,
  commit_run, execute, lift,
}
use tpl_backend.Base.{require}
use tpl_backend.Delivery.Store.{DeliveryError}

-- What a commit of `execute` is: the lease was current, and the receipt was written.
pub record Committed {Domain : Type 0} (handler : Handler Domain) (l : ConsumerLease) (m : Message)
    (now : ℕ) (s : Store) (d : Domain) (s' : Store) (d' : Domain) : Type 0 where
  pub handled : handler d m.payload ≡ some d'
  pub when : ℕ
  pub current : check_lease l when s ≡ true
  pub store : s' ≡ (insert_receipt now m.topic m.id s).1

lift-eq-ok : {A : Type 0} (r : Result DeliveryError A) (a : A) → lift r ≡ ok a → r ≡ ok a
lift-eq-ok (ok b) a h = cc
lift-eq-ok (err e) a h = cc

require-eq-ok : (b : Bool) (e : DeliveryError) (u : Unit {0}) → require b e ≡ ok u → b ≡ true
require-eq-ok true e u h = refl
require-eq-ok false e u h = cc

check_lease-executions :
    (l : ConsumerLease) (t : ℕ) (s s' : Store)
    → s'.executions ≡ s.executions
    → check_lease l t s' ≡ check_lease l t s
unfolding check_lease
check_lease-executions l t s s' e = rw e

module _ {Domain : Type 0} (handler : Handler Domain) (l : ConsumerLease) (m : Message) where
  -- The second half of `execute`, once the handler has returned.
  pub finish-Committed :
      (now t' : ℕ) (s : Store) (d d₁ : Domain) (s' : Store) (d' : Domain)
      → handler d m.payload ≡ some d₁
      → commit_run l m now t' s d₁ ≡ ok (s', d')
      → Committed handler l m now s d s' d'
  unfolding commit_run
  finish-Committed now t' s d d₁ s' d' handled h =
      let (claimed, c, rest) = >>=-eq-ok (lift (claim_inbox_once now m.topic m.id s)) _ h in
      let (u, g, last) =
        >>=-eq-ok (lift (require (check_lease l t' claimed.1) lease_lost)) _ rest in
      let pair = ok-injective {E = TaskError} last in
      let inserted = claim_inbox_once-ok now m.topic m.id s claimed (lift-eq-ok _ claimed c) in
      let store : s' ≡ (insert_receipt now m.topic m.id s).1 =
        ap (λ q. q.0) (sym pair) ∙ ap (λ q. q.1) (sym inserted) in
      record {
        handled = handled ∙ ap (λ q. some (q.1)) pair;
        when = t';
        current =
            sym (
              check_lease-executions l t' s claimed.1 (
                ap (λ q. q.1.executions) (sym inserted)
                ∙ insert_receipt-executions now m.topic m.id s))
            ∙ require-eq-ok _ lease_lost u (lift-eq-ok _ u g);
        store = store;
      }

  pub execute-Committed :
      (t : ℕ) (started : Store) (now t' : ℕ) (s : Store) (d : Domain) (s' : Store) (d' : Domain)
      → execute handler l m t started now t' s d ≡ ok (s', d')
      → Committed handler l m now s d s' d'
  unfolding execute
  execute-Committed t started now t' s d s' d' h =
      let (u, a, rest) = >>=-eq-ok (lift (assert_execution_current (some l) t started)) _ h in
      elim (Option-cases (handler d m.payload)) [
        | inl failed ↦
            let no : ◌≡◌ {A = Result TaskError (Store × Domain)} (err handler_failed)
                (ok (s', d')) =
              rw failed at rest in
            cc
        | inr (d₁, e) ↦ finish-Committed now t' s d d₁ s' d' e (rw e at rest)
      ]
