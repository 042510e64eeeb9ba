-- ===== src/Delivery/Workers.antt =====
-- Many workers of durable_tasks.py over one database: each step is one transaction of one of them,
-- or of the publishers. The clocks of the steps are arbitrary, and need not grow.
pub mod AtMostOnce
pub mod Tests
use tpl_backend.Base.{
  ℕ, ◌≡◌, Bool, true, false, not, ◌&&◌, none, some, List, [], ◌∷◌, Text, text_eq, ◌==◌, filter, In,
  All, Result, ok,
}
use tpl_backend.Delivery.Store.{Message, DeadLetter, Store}
use tpl_backend.Delivery.Policy.{Policy}
use tpl_backend.Delivery.Tasks.{ConsumerLease, Handler, claim_execution, execute, renew, release}

-- A process between `claim_execution` and its commit.
pub record Worker : Type 0 where
  pub lease : ConsumerLease
  pub message : Message

-- `committed` records the runs of handlers that were committed, by topic and message id.
pub record System (Domain : Type 0) : Type 0 where
  pub store : Store
  pub domain : Domain
  pub workers : List Worker
  pub committed : List (Text × ℕ)

-- Another process than the one that holds this epoch of this resource.
abbrev pub is_other : Worker → Worker → Bool
is_other w v =
    not (text_eq v.lease.resource_key w.lease.resource_key && v.lease.epoch == w.lease.epoch)

-- `topic` and `aggregate_key` of a row never change; a message id is a fresh `uuid4`.
abbrev pub IsCoherent : (ℕ → Text × Text) → Store → Type 0
IsCoherent subject s = All (λ m. (m.topic, m.aggregate_key) ≡ subject m.id) s.messages

module _ {Domain : Type 0} (subject : ℕ → Text × Text) (handler : Handler Domain) where
  pub data Step : System Domain → System Domain → Type 0 where
    claims :
        (y : System Domain) (p : Policy) (t t' owner id : ℕ) (seen : Store) (w : Worker)
        → IsCoherent subject seen
        → (claim_execution p t t' owner id seen y.store).0 ≡ some (w.lease, w.message)
        → Step y (record y {
          store = (claim_execution p t t' owner id seen y.store).1;
          workers = w ∷ y.workers;
        })
    declines :
        (y : System Domain) (p : Policy) (t t' owner id : ℕ) (seen : Store)
        → (claim_execution p t t' owner id seen y.store).0 ≡ none
        → Step y (record y { store = (claim_execution p t t' owner id seen y.store).1 })
    commits :
        (y : System Domain) (w : Worker) (t now t' : ℕ) (started s' : Store) (d' : Domain)
        → In w y.workers
        → execute handler w.lease w.message t started now t' y.store y.domain ≡ ok (s', d')
        → Step y (record y {
          store = s';
          domain = d';
          workers = filter (is_other w) y.workers;
          committed = (w.message.topic, w.message.id) ∷ y.committed;
        })
    renews :
        (y : System Domain) (p : Policy) (l : ConsumerLease) (t : ℕ) (s' : Store)
        → renew p l t y.store ≡ ok s'
        → Step y (record y { store = s' })
    releases :
        (y : System Domain) (l : ConsumerLease) → Step y (record y { store = release l y.store })
    -- a transaction that touches neither the receipts nor the executions
    publishes :
        (y : System Domain) (ms : List Message) (ds : List DeadLetter) (d : Domain)
        → Step y
            (record y { store = record y.store { messages = ms; dead_letters = ds }; domain = d })

  pub data Reach (start : System Domain) : System Domain → Type 0 where
    here : Reach start start
    next : {y z : System Domain} → Reach start y → Step y z → Reach start z

-- No entry twice.
abbrev pub IsDistinct : List (Text × ℕ) → Type 0
IsDistinct [] = Unit
IsDistinct (e ∷ es) = (¬ In e es) × IsDistinct es
