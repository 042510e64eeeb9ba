-- ===== src/Delivery/Policy.antt =====
-- app/app/infrastructure/messaging/durable_delivery.py: `DurableDelivery`. Each statement reads
-- `clock_timestamp()` once; a method that raises leaves the store as it was.
pub mod Claims
pub mod Journal
pub mod Finish
pub mod Reconcile
pub mod Unstuck
pub mod Replay
use tpl_backend.Base.{
  ℕ, ◌+◌, ◌^◌, min, Bool, true, false, not, ◌&&◌, ◌||◌, Option, none, some, is_some, List, [], ◌∷◌,
  ◌++◌, map, Text, codes, text_eq, any, filter, find?, take, is_empty, update, ltb, leb, ◌==◌,
  if◌then◌else◌, Result, ok, err, ◌>>=◌, ◌>>◌, require, contains,
}
use tpl_backend.Delivery.Store.{
  Stamp, neg_infinity, at, stamp_le, seconds, Status, pending, published, is_pending, is_delivering,
  is_published, Message, DeadLetter, Execution, Store, DeliveryError, invalid_policy, lease_lost,
  outside_policy, not_dead_lettered, not_before_due, cast_raises, malformed_header, expired_by,
  is_live_letter, is_dead, is_received, in_order,
}
use tpl_backend.Delivery.Outbox.{lease_message, update_held}

-- `topics` names the consumer that must acknowledge a topic, if any.
pub record Policy : Type 0 where
  pub topics : List (Text × Option Text)
  pub lease_seconds : ℕ
  pub max_attempts : ℕ

-- `DurableDelivery.__init__`
unfoldable pub make_policy : List (Text × Option Text) → ℕ → ℕ → Result DeliveryError Policy
make_policy topics lease attempts =
    if not (leb 1 lease && leb lease 3600) || not (leb 1 attempts && leb attempts 100)
    then err invalid_policy
    else ok (record { topics = topics; lease_seconds = lease; max_attempts = attempts })

-- `m.topic = ANY(:topics)`
unfoldable pub in_policy : Policy → Message → Bool
in_policy p m = contains (map (λ t. t.0) p.topics) m.topic

-- `status='pending' OR (status='delivering' AND lease_expires_at<=clock_timestamp())`
unfoldable pub is_open : ℕ → Message → Bool
is_open t m = is_pending m.status || is_delivering m.status && expired_by m.lease_expires_at t

unfoldable pub is_claimable : Policy → ℕ → Store → Message → Bool
unfolding in_policy is_open not_before_due is_dead
is_claimable p t s m =
    in_policy p m
    && stamp_le m.available_at t
    && not_before_due m.headers t
    && is_open t m
    && not (is_dead s m.id)

-- `ORDER BY … FOR UPDATE OF m SKIP LOCKED LIMIT 1`
unfoldable pub delivery_candidate : Policy → ℕ → (ℕ → Bool) → Store → Option Message
unfolding is_claimable in_order
delivery_candidate p t locked s =
    find? (λ m. is_claimable p t s m && not (locked m.id)) (in_order s.messages)

-- PostgreSQL tests the conditions of a row in the order of the `WHERE`, and sorts before the limit.
unfoldable pub claim_raises : Policy → ℕ → Store → Bool
unfolding in_policy cast_raises
claim_raises p t s =
    any (λ m. in_policy p m && stamp_le m.available_at t && cast_raises m.headers) s.messages

-- The statement of `claim_delivery` when no cast raises.
unfoldable pub lease_candidate :
    Policy → ℕ → (ℕ → Bool) → Text → Store → Result DeliveryError (Option Message) × Store
unfolding delivery_candidate lease_message
lease_candidate p t locked owner s = elim (delivery_candidate p t locked s) [
  | none ↦ (ok none, s)
  | some c ↦ (
    ok (some (lease_message owner t p.lease_seconds c)),
    record s {
      messages = update (λ m. m.id == c.id) (lease_message owner t p.lease_seconds) s.messages;
    },
  )
]

-- `owner` is the text of the fresh `uuid4`. An empty policy asks nothing of the database.
unfoldable pub claim_delivery :
    Policy → ℕ → (ℕ → Bool) → Text → Store → Result DeliveryError (Option Message) × Store
unfolding claim_raises lease_candidate
claim_delivery p t locked owner s =
    if claim_raises p t s then (err malformed_header, s) else lease_candidate p t locked owner s

-- `_dead_letter`, with the upsert of the journal.
unfoldable pub dead_letter : ℕ → ℕ → Text → Store → Store
dead_letter t id error s =
    let code = take 256 error in
    let is_row : DeadLetter → Bool = λ d. d.message_id == id in
    if any is_row s.dead_letters
    then record s {
      dead_letters =
          update is_row (λ d. record d { error_code = code; failed_at = t; replayed_at = none })
            s.dead_letters;
    }
    else record s {
      dead_letters =
          s.dead_letters
          ++ record { message_id = id; error_code = code; failed_at = t; replayed_at = none } ∷ [];
    }

unfoldable pub retry_delay : ℕ → ℕ
retry_delay attempts = min 300 (2 ^ min attempts 8)

-- `if error`, which the empty text is not.
abbrev pub is_truthy : Option Text → Bool
is_truthy none = false
is_truthy (some e) = not (is_empty e)

unfoldable pub set_finished : ℕ → ℕ → Option Text → Message → Message
unfolding retry_delay
set_finished t attempts error m = record m {
  status = if is_truthy error then pending else published;
  published_at = if is_some error then m.published_at else some t;
  lease_owner = none;
  lease_expires_at = none;
  last_error = error;
  available_at = at (t + seconds (retry_delay attempts));
  updated_at = t;
}

-- The dead letter of a last failed attempt.
unfoldable pub bury_exhausted : Policy → ℕ → Message → Option Text → Store → Store
unfolding dead_letter
bury_exhausted p t message none s = s
bury_exhausted p t message (some e) s =
    if not (is_empty e) && leb p.max_attempts message.attempt_count
    then dead_letter t message.id e s
    else s

-- `message` is the row that `claim_delivery` returned; a NULL owner matches no row.
unfoldable pub finish_delivery :
    Policy → ℕ → Message → Option Text → Store → Result DeliveryError Store
unfolding update_held set_finished bury_exhausted
finish_delivery p t message error s = elim message.lease_owner [
  | none ↦ err lease_lost
  | some owner ↦ do
    s' ← update_held lease_lost message.id owner t (set_finished t message.attempt_count error) s
    ok (bury_exhausted p t message error s')
]

unfoldable pub is_exhausted : Policy → ℕ → Store → Message → Bool
unfolding in_policy is_open is_dead
is_exhausted p t s m =
    in_policy p m && leb p.max_attempts m.attempt_count && is_open t m && not (is_dead s m.id)

-- What the statements of one round of `reconcile` read: the clock and the rows that other transactions
-- hold when it selects its rows, and the clock of the statement on each of them, by the row's id.
pub record Reading : Type 0 where
  pub now : ℕ
  pub locked : ℕ → Bool
  pub row_at : ℕ → ℕ

unfoldable pub bury_all : (ℕ → ℕ) → Text → List Message → Store → Store
bury_all row_at error [] s = s
bury_all row_at error (m ∷ ms) s = bury_all row_at error ms (dead_letter (row_at m.id) m.id error s)

-- The first statement of `reconcile` and its loop.
unfoldable pub reconcile_exhausted : Policy → Reading → Store → Store
unfolding is_exhausted bury_all dead_letter
reconcile_exhausted p r s =
    bury_all r.row_at (codes "delivery_attempts_exhausted")
      (filter (λ m. is_exhausted p r.now s m && not (r.locked m.id)) s.messages) s

-- `l.message_id=m.id AND l.expires_at>clock_timestamp()`
unfoldable pub is_executing : Store → ℕ → ℕ → Bool
is_executing s t id = any (λ l. l.message_id == id && not (stamp_le l.expires_at t)) s.executions

abbrev pub published_before : Option ℕ → ℕ → ℕ → Bool
published_before none ttl t = false
published_before (some then_at) ttl t = ltb (then_at + seconds ttl) t

unfoldable pub is_unacknowledged : Policy → ℕ → Text → Text → Store → Message → Bool
unfolding is_received is_executing is_dead
is_unacknowledged p t topic consumer s m =
    text_eq m.topic topic
    && is_published m.status
    && published_before m.published_at p.lease_seconds t
    && not (is_received s consumer m.id)
    && not (is_executing s t m.id)
    && not (is_dead s m.id)

unfoldable pub set_pending : ℕ → Message → Message
set_pending t m = record m { status = pending; available_at = neg_infinity; updated_at = t }

abbrev pub consumer_unacknowledged : Text
consumer_unacknowledged = codes "consumer_unacknowledged"

-- One row of the loop over the unacknowledged rows of a topic, with `count`.
unfoldable pub recover_row : Policy → ℕ → Message → ℕ × Store → ℕ × Store
unfolding dead_letter set_pending
recover_row p t m (count, s) =
    if leb p.max_attempts m.attempt_count
    then (count, dead_letter t m.id consumer_unacknowledged s)
    else (count + 1, record s { messages = update (λ n. n.id == m.id) (set_pending t) s.messages })

unfoldable pub recover_rows : Policy → (ℕ → ℕ) → List Message → ℕ × Store → ℕ × Store
unfolding recover_row
recover_rows p row_at [] r = r
recover_rows p row_at (m ∷ ms) r = recover_rows p row_at ms (recover_row p (row_at m.id) m r)

-- One round of the loop over the topics. A topic with no consumer has no acknowledgement.
unfoldable pub recover_topic : Policy → Reading → Text → Option Text → ℕ × Store → ℕ × Store
unfolding is_unacknowledged recover_rows
recover_topic p u topic none r = r
recover_topic p u topic (some consumer) (count, s) =
    recover_rows p u.row_at
      (filter (λ m. is_unacknowledged p u.now topic consumer s m && not (u.locked m.id)) s.messages)
      (count, s)

unfoldable pub recover_topics :
    Policy → (ℕ → Reading) → ℕ → List (Text × Option Text) → ℕ × Store → ℕ × Store
unfolding recover_topic
recover_topics p us n [] r = r
recover_topics p us n ((topic, consumer) ∷ rest) r =
    recover_topics p us (n + 1) rest (recover_topic p (us n) topic consumer r)

-- Round 0 is that of the exhausted rows, and the topics have those from 1 on.
unfoldable pub reconcile : Policy → (ℕ → Reading) → Store → ℕ × Store
unfolding reconcile_exhausted recover_topics
reconcile p us s = recover_topics p us 1 p.topics (0, reconcile_exhausted p (us 0) s)

unfoldable pub set_replayed : ℕ → Message → Message
set_replayed t m = record m {
  status = pending;
  attempt_count = 0;
  available_at = neg_infinity;
  last_error = none;
  lease_owner = none;
  lease_expires_at = none;
  updated_at = t;
}

unfoldable pub replay : Policy → ℕ → ℕ → Store → Result DeliveryError Store
unfolding in_policy is_live_letter set_replayed
replay p t id s = do
  require (any (λ m. m.id == id && in_policy p m) s.messages) outside_policy
  require (any (is_live_letter id) s.dead_letters) not_dead_lettered
  ok (record s {
    dead_letters =
        update (is_live_letter id) (λ d. record d { replayed_at = some t }) s.dead_letters;
    messages = update (λ m. m.id == id) (set_replayed t) s.messages;
  })
