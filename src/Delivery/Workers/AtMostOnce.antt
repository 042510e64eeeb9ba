-- ===== src/Delivery/Workers/AtMostOnce.antt =====
-- No message's handler is committed twice, whatever the interleaving and the clocks.
use tpl_backend.Base.{
  ℕ, ◌≤◌, ◌≡◌, refl, sym, ap, ap₂, ◌∙◌, inl, inr, true, false, ◌&&◌, ◌||◌, some, List, [], ◌∷◌,
  ◌++◌, Text, text_eq, text_eq_refl, text_eq_iff, filter, ◌==◌, ==_iff, ==_refl, Bool-cases,
  and_true, arith, In, All, All-in, All-of_In, All-filter, All-map, find?-some, filter-true,
  In-filter,
}
use tpl_backend.Delivery.Store.{Message, Execution, Store, is_received}
use tpl_backend.Delivery.Outbox.{insert_receipt}
use tpl_backend.Delivery.Outbox.Receipts.{insert_receipt-executions, is_received-insert_receipt}
use tpl_backend.Delivery.Policy.{Policy}
use tpl_backend.Delivery.Tasks.{Handler, resource_of, runnable, claim_execution, check_lease}
use tpl_backend.Delivery.Tasks.Epochs.{epoch_at, IsKeyed, Advances}
use tpl_backend.Delivery.Tasks.Leases.{
  claim_execution-Advances, claim_execution-Claimed, check_lease-epoch, renew-Advances,
  release-Advances,
}
use tpl_backend.Delivery.Workers.{
  Worker, System, is_other, IsCoherent, Step, claims, declines, commits, renews, releases,
  publishes, Reach, here, next, IsDistinct,
}
use tpl_backend.Delivery.Tasks.Commits.{execute-Committed}

-- What a worker's record agrees with.
abbrev IsShaped : (ℕ → Text × Text) → Worker → Type 0
IsShaped subject w =
    (w.lease.resource_key ≡ resource_of w.message)
    × ((w.message.topic, w.message.aggregate_key) ≡ subject w.message.id)

abbrev IsFresh : Store → Worker → Type 0
IsFresh s w =
    (w.lease.epoch ≤ epoch_at w.lease.resource_key s.executions)
    × (epoch_at w.lease.resource_key s.executions ≡ w.lease.epoch
        → is_received s w.message.topic w.message.id ≡ false)

is_received-inbox :
    (s s' : Store) (topic : Text) (id : ℕ)
    → s'.inbox ≡ s.inbox
    → is_received s' topic id ≡ is_received s topic id
unfolding is_received
is_received-inbox s s' topic id e = rw e

IsFresh-Advances : (s s' : Store) (w : Worker) → Advances s s' → IsFresh s w → IsFresh s' w
IsFresh-Advances s s' w a (le, new) =
    let g = a.epochs w.lease.resource_key in
    (
      omega arith,
      (λ e. is_received-inbox s s' w.message.topic w.message.id a.inbox ∙ new (omega arith)),
    )

other_ticket :
    (w v : Worker)
    → v.lease.resource_key ≡ w.lease.resource_key
    → v.lease.epoch ≡ w.lease.epoch
    → is_other w v ≡ true
    → (text_eq w.message.topic v.message.topic && w.message.id == v.message.id) ≡ false
other_ticket w v key epoch h =
    ground (arith, (text_eq_iff v.lease.resource_key w.lease.resource_key).1 key)

-- Of two workers with current leases, only one with the same ticket runs the same message.
other_receipt :
    (subject : ℕ → Text × Text) (rs : List Execution) (w v : Worker)
    → IsShaped subject w
    → IsShaped subject v
    → epoch_at w.lease.resource_key rs ≡ w.lease.epoch
    → epoch_at v.lease.resource_key rs ≡ v.lease.epoch
    → is_other w v ≡ true
    → (text_eq w.message.topic v.message.topic && w.message.id == v.message.id) ≡ false
other_receipt subject rs w v (wr, ws) (vr, vs) we ve other =
    elim (Bool-cases (text_eq w.message.topic v.message.topic && w.message.id == v.message.id)) [
      | inl same ↦
          let id = (==_iff _ _).0 (and_true _ _ same).1 in
          let pairs = vs ∙ ap subject (sym id) ∙ sym ws in
          let key : v.lease.resource_key ≡ w.lease.resource_key =
            vr ∙ ap (λ (q : Text × Text). q.0 ++ b':' ∷ q.1) pairs ∙ sym wr in
          let epoch : v.lease.epoch ≡ w.lease.epoch = sym ve ∙ ap (λ k. epoch_at k rs) key ∙ we in
          other_ticket w v key epoch other
      | inr differ ↦ differ
    ]

runnable-subject :
    (subject : ℕ → Text × Text) (p : Policy) (t id : ℕ) (seen : Store) (m : Message)
    → IsCoherent subject seen
    → runnable p t id seen ≡ some m
    → (m.topic, m.aggregate_key) ≡ subject m.id
unfolding runnable
runnable-subject subject p t id seen m coherent found =
    All-in _ seen.messages m coherent (find?-some _ seen.messages m found).1

module _ {Domain : Type 0} (subject : ℕ → Text × Text) where
  pub record Inv (y : System Domain) : Type 0 where
    pub keyed : IsKeyed y.store.executions
    pub shaped : All (IsShaped subject) y.workers
    pub fresh : All (IsFresh y.store) y.workers
    pub logged : All (λ e. is_received y.store e.0 e.1 ≡ true) y.committed
    pub distinct : IsDistinct y.committed

  -- A step that commits no run.
  Inv-Advances :
      (y : System Domain) (s' : Store) (d' : Domain)
      → Advances y.store s'
      → Inv y
      → Inv (record y { store = s'; domain = d' })
  Inv-Advances y s' d' a v = record {
    keyed = a.keyed v.keyed;
    shaped = v.shaped;
    fresh = All-map _ _ y.workers (λ w. IsFresh-Advances y.store s' w a) v.fresh;
    logged =
        All-map _ _ y.committed (λ e h. is_received-inbox y.store s' e.0 e.1 a.inbox ∙ h) v.logged;
    distinct = v.distinct;
  }

  Inv-claims :
      (y : System Domain) (p : Policy) (t t' owner id : ℕ) (seen : Store) (w : Worker)
      → IsCoherent subject seen
      → (claim_execution p t t' owner id seen y.store).0 ≡ some (w.lease, w.message)
      → Inv y
      → Inv (record y {
        store = (claim_execution p t t' owner id seen y.store).1;
        workers = w ∷ y.workers;
      })
  Inv-claims y p t t' owner id seen w coherent h v =
      let a = claim_execution-Advances p t t' owner id seen y.store in
      let (found, c) = claim_execution-Claimed p t t' owner id seen y.store w.lease w.message h in
      let rest = Inv-Advances y (claim_execution p t t' owner id seen y.store).1 y.domain a v in
      record {
        keyed = rest.keyed;
        shaped = (
          (c.resource, runnable-subject subject p t id seen w.message coherent found),
          rest.shaped,
        );
        fresh = ((rw c.resource (omega (arith, c.new)), (λ _. c.unreceived)), rest.fresh);
        logged = rest.logged;
        distinct = rest.distinct;
      }

  -- The state after a commit of `w`, whose lease was current.
  module _ (y : System Domain) (w : Worker) (now t : ℕ) (m : In w y.workers)
      (current : check_lease w.lease t y.store ≡ true) (v : Inv y) where
    after : Store
    after = (insert_receipt now w.message.topic w.message.id y.store).1

    same_rows : after.executions ≡ y.store.executions
    unfolding after
    same_rows = insert_receipt-executions now w.message.topic w.message.id y.store

    received_after :
        (topic : Text) (id : ℕ)
        → is_received after topic id
          ≡ (is_received y.store topic id || (text_eq w.message.topic topic && w.message.id == id))
    unfolding after
    received_after = is_received-insert_receipt now w.message.topic w.message.id y.store

    is_current : epoch_at w.lease.resource_key y.store.executions ≡ w.lease.epoch
    is_current = check_lease-epoch w.lease t y.store v.keyed current

    was_unreceived : is_received y.store w.message.topic w.message.id ≡ false
    was_unreceived = (All-in _ y.workers w v.fresh m).1 is_current

    committed-unseen : ¬ In (w.message.topic, w.message.id) y.committed
    committed-unseen seen =
        let e = All-in _ y.committed (w.message.topic, w.message.id) v.logged seen in
        cc (was_unreceived)

    still-IsFresh : (x : Worker) → In x (filter (is_other w) y.workers) → IsFresh after x
    still-IsFresh x n =
        let i = In-filter (is_other w) y.workers x n in
        let (le, new) = All-in _ y.workers x v.fresh i in
        let other = All-in _ _ x (filter-true (is_other w) y.workers) n in
        simp same_rows (
          le,
          (λ e.
              received_after x.message.topic x.message.id
              ∙ ap₂ ◌||◌ (new e) (
                  other_receipt subject y.store.executions w x (All-in _ y.workers w v.shaped m)
                    (All-in _ y.workers x v.shaped i) is_current e other)),
        )

    after-Inv :
        (d' : Domain)
        → Inv (record y {
          store = after;
          domain = d';
          workers = filter (is_other w) y.workers;
          committed = (w.message.topic, w.message.id) ∷ y.committed;
        })
    after-Inv d' = record {
      keyed = rw same_rows v.keyed;
      shaped = All-filter _ (is_other w) y.workers v.shaped;
      fresh = All-of_In _ _ still-IsFresh;
      logged = (
        received_after w.message.topic w.message.id
            ∙ ground (arith, text_eq_refl w.message.topic, ==_refl w.message.id),
        All-map _ _ y.committed (λ e h. received_after e.0 e.1 ∙ ap₂ ◌||◌ h refl) v.logged,
      );
      distinct = (committed-unseen, v.distinct);
    }

    after-Inv_to :
        (s' : Store) (d' : Domain)
        → s' ≡ (insert_receipt now w.message.topic w.message.id y.store).1
        → Inv (record y {
          store = s';
          domain = d';
          workers = filter (is_other w) y.workers;
          committed = (w.message.topic, w.message.id) ∷ y.committed;
        })
    unfolding after
    after-Inv_to s' d' e = rw e (after-Inv d')

  Step-Inv :
      (handler : Handler Domain) {y z : System Domain} → Step subject handler y z → Inv y → Inv z
  Step-Inv handler (claims y p t t' owner id seen w coherent h) v =
      Inv-claims y p t t' owner id seen w coherent h v
  Step-Inv handler (declines y p t t' owner id seen h) v =
      Inv-Advances y _ y.domain (claim_execution-Advances p t t' owner id seen y.store) v
  Step-Inv handler (commits y w t now t' started s' d' m h) v =
      let c =
        execute-Committed handler w.lease w.message t started now t' y.store y.domain s' d' h in
      after-Inv_to y w now c.when m c.current v s' d' c.store
  Step-Inv handler (renews y p l t s' h) v =
      Inv-Advances y s' y.domain (renew-Advances p l t y.store s' h) v
  Step-Inv handler (releases y l) v = Inv-Advances y _ y.domain (release-Advances l y.store) v
  Step-Inv handler (publishes y ms ds d) v =
      Inv-Advances y _ d (record { inbox = refl; epochs = λ k. omega arith; keyed = λ h. h }) v

  Reach-Inv :
      (handler : Handler Domain) {start y : System Domain}
      → Reach subject handler start y
      → Inv start
      → Inv y
  Reach-Inv handler here v = v
  Reach-Inv handler (next r st) v = Step-Inv handler st (Reach-Inv handler r v)

-- From a database with one execution row for each resource, with no worker at work: however the
-- workers and the publishers interleave, with whatever readings of the clock, no handler's run is
-- committed twice for one message of a topic, if a message keeps its topic and aggregate key.
pub committed-IsDistinct :
    {Domain : Type 0} (subject : ℕ → Text × Text) (handler : Handler Domain) (store : Store)
    (d : Domain) (y : System Domain)
    → IsKeyed store.executions
    → Reach subject handler (record { store = store; domain = d; workers = []; committed = [] }) y
    → IsDistinct y.committed
committed-IsDistinct subject handler store d y keyed r =
    (Reach-Inv subject handler r
      (record { keyed = keyed; shaped = tt; fresh = tt; logged = tt; distinct = tt })).distinct
