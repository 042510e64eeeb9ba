-- ===== src/Delivery/Tasks.antt =====
-- app/app/infrastructure/messaging/durable_tasks.py: `DurableTasks`, the fenced consumers.
pub mod Leases
pub mod Commits
pub mod Runs
pub mod Consume
mod Tests
pub mod Epochs
use tpl_backend.Base.{
  ℕ, suc, ◌+◌, Bool, true, false, not, ◌&&◌, Option, none, some, List, [], ◌∷◌, ◌++◌, Text, text_eq,
  any, find?, update, ltb, leb, ◌==◌, if◌then◌else◌, Result, ok, err, ◌>>=◌, ◌>>◌, require,
}
use tpl_backend.Base.Json.{Json}
use tpl_backend.Delivery.Event.{OutboxEvent, EventError}
use tpl_backend.Delivery.Store.{
  Stamp, neg_infinity, at, stamp_le, seconds, Message, Execution, Store, DeliveryError, lease_lost,
  not_before_due, cast_raises, malformed_header, is_dead, is_received,
}
use tpl_backend.Delivery.Outbox.{Clock, Jsonb, enqueue, claim_inbox_once}
use tpl_backend.Delivery.Policy.{Policy, in_policy}

-- `enqueue_task`: the headers stay at their default.
unfoldable pub enqueue_task :
    Jsonb
    → Clock
    → ℕ
    → Text
    → Text
    → Json
    → Text
    → Option ℕ
    → Store
    → Result DeliveryError (ℕ × Store)
unfolding enqueue
enqueue_task j c id topic key payload dedup not_before s = enqueue j c id event s
  where
    event : OutboxEvent
    event = record {
      topic = topic;
      aggregate_key = key;
      deduplication_key = dedup;
      payload = payload;
      headers = [];
      not_before = not_before;
    }

pub record ConsumerLease : Type 0 where
  pub resource_key : Text
  pub message_id : ℕ
  pub owner : ℕ
  pub epoch : ℕ

-- `row["topic"] + ":" + row["aggregate_key"]`
abbrev pub resource_of : Message → Text
resource_of m = m.topic ++ b':' ∷ m.aggregate_key

-- The first statement of `claim_execution`.
unfoldable pub runnable : Policy → ℕ → ℕ → Store → Option Message
unfolding in_policy not_before_due is_received is_dead
runnable p t id s =
    find?
      (λ m.
        m.id == id
        && in_policy p m
        && not_before_due m.headers t
        && not (is_received s m.topic m.id)
        && not (is_dead s m.id))
      s.messages

-- The first statement of `claim_execution` raises.
unfoldable pub select_raises : Policy → ℕ → Store → Bool
unfolding in_policy cast_raises
select_raises p id s = any (λ m. m.id == id && in_policy p m && cast_raises m.headers) s.messages

abbrev pub has_resource : Text → Execution → Bool
has_resource key l = text_eq l.resource_key key

-- `INSERT … ON CONFLICT(resource_key) DO UPDATE … WHERE expired RETURNING epoch`.
unfoldable pub upsert_execution : ℕ → Text → ℕ → ℕ → ℕ → Store → Option ℕ × Store
upsert_execution t key id owner ttl s = elim (find? (has_resource key) s.executions) [
  | none ↦ (
    some 1,
    record s {
      executions =
          s.executions
          ++ record {
            resource_key = key;
            message_id = id;
            owner = owner;
            epoch = 1;
            expires_at = at (t + seconds ttl);
          }
            ∷ [];
    },
  )
  | some l ↦
      if stamp_le l.expires_at t
      then (
        some (l.epoch + 1),
        record s {
          executions =
              update (has_resource key)
                (λ r. record r {
                  message_id = id;
                  owner = owner;
                  epoch = r.epoch + 1;
                  expires_at = at (t + seconds ttl);
                })
                s.executions;
        },
      )
      else (none, s)
]

-- `UPDATE outbox_execution SET expires_at='-infinity' WHERE resource_key=:key`
unfoldable pub free_resource : Text → Store → Store
free_resource key s = record s {
  executions = update (has_resource key) (λ r. record r { expires_at = neg_infinity }) s.executions;
}

-- The rest of `claim_execution`, once the upsert has the lock of its row.
unfoldable pub take_lease :
    Policy → ℕ → ℕ → Message → Store → Option (ConsumerLease × Message) × Store
unfolding upsert_execution is_received free_resource
take_lease p t owner m s =
    let (epoch, s') = upsert_execution t (resource_of m) m.id owner p.lease_seconds s in
    elim epoch [
      | none ↦ (none, s')
      | some e ↦ if is_received s' m.topic m.id then (none, free_resource (resource_of m) s') else (
        some (
          record { resource_key = resource_of m; message_id = m.id; owner = owner; epoch = e },
          m,
        ),
        s',
      )
    ]

-- `claim_execution`, where its first statement returns; `consume` has the case where it raises. The
-- statement reads `seen` at `t`; while the upsert waits for the lock of its row other transactions may
-- commit, and it goes on from `s` at `t'`.
unfoldable pub claim_execution :
    Policy → ℕ → ℕ → ℕ → ℕ → Store → Store → Option (ConsumerLease × Message) × Store
unfolding runnable take_lease
claim_execution p t t' owner id seen s = elim (runnable p t id seen) [
  | none ↦ (none, s)
  | some m ↦ take_lease p t' owner m s
]

-- `resource_key=… AND message_id=… AND owner=… AND epoch=…`
unfoldable pub is_leased_to : ConsumerLease → Execution → Bool
is_leased_to l r =
    text_eq r.resource_key l.resource_key
    && r.message_id == l.message_id
    && r.owner == l.owner
    && r.epoch == l.epoch

-- CHECK_LEASE
unfoldable pub check_lease : ConsumerLease → ℕ → Store → Bool
unfolding is_leased_to
check_lease l t s = any (λ r. is_leased_to l r && not (stamp_le r.expires_at t)) s.executions

-- `assert_execution_current`; a session without a lease is not checked.
unfoldable pub assert_execution_current :
    Option ConsumerLease → ℕ → Store → Result DeliveryError (Unit {0})
unfolding check_lease
assert_execution_current none t s = ok tt
assert_execution_current (some l) t s = require (check_lease l t s) lease_lost

unfoldable pub renew : Policy → ConsumerLease → ℕ → Store → Result DeliveryError Store
unfolding check_lease
renew p l t s =
    if check_lease l t s
    then ok (record s {
      executions =
          update (λ r. is_leased_to l r && not (stamp_le r.expires_at t))
            (λ r. record r { expires_at = at (t + seconds p.lease_seconds) }) s.executions;
    })
    else err lease_lost

unfoldable pub release : ConsumerLease → Store → Store
unfolding is_leased_to
release l s = record s {
  executions = update (is_leased_to l) (λ r. record r { expires_at = neg_infinity }) s.executions;
}

-- What `consume` may raise: an error of the delivery, or the handler's own.
pub data TaskError : Type 0 where
  delivery : DeliveryError → TaskError
  handler_failed : TaskError

abbrev pub lift {ℓ} : {A : Type ℓ} → Result DeliveryError A → Result TaskError A
lift (ok a) = ok a
lift (err e) = err (delivery e)

-- The last transaction of a registered handler, on the domain's tables: `none` is an exception.
abbrev pub Handler : Type 0 → Type 0
Handler Domain = Domain → Json → Option Domain

module _ {Domain : Type 0} where
  -- The receipt, and the commit with its guard; `d` is what the handler left.
  unfoldable pub commit_run :
      ConsumerLease → Message → ℕ → ℕ → Store → Domain → Result TaskError (Store × Domain)
  unfolding claim_inbox_once check_lease
  commit_run l m now t' s d = do
    claimed ← lift (claim_inbox_once now m.topic m.id s)
    lift (require (check_lease l t' claimed.1) lease_lost)
    ok (claimed.1, d)

  -- `execute` of `consume` with a handler of one transaction, or the last one of any handler. It asserts
  -- the lease on `started` at `t`; the handler, the receipt and the commit with its guard go on from `s`
  -- and `d` at `t'`, in a transaction begun at `now`.
  unfoldable pub execute :
      Handler Domain
      → ConsumerLease
      → Message
      → ℕ
      → Store
      → ℕ
      → ℕ
      → Store
      → Domain
      → Result TaskError (Store × Domain)
  unfolding assert_execution_current commit_run
  execute handler l m t started now t' s d = do
    lift (assert_execution_current (some l) t started)
    elim (handler d m.payload) [ none ↦ err handler_failed | some d' ↦ commit_run l m now t' s d' ]
