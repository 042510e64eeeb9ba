-- ===== src/Delivery/Outbox.antt =====
-- app/app/infrastructure/repositories/outbox.py: `SqlOutboxRepository`. A statement reads the
-- transaction's start (`NOW()`) and `clock_timestamp()` once; a method that raises leaves the store.
pub mod Receipts
pub mod Enqueue
use tpl_backend.Base.{
  ℕ, ◌+◌, Bool, true, false, not, ◌&&◌, ◌||◌, Option, none, some, List, [], ◌∷◌, ◌++◌, map, Text,
  text_eq, length, any, filter, find?, take, is_empty, update, ltb, leb, ◌==◌, if◌then◌else◌,
  Result, ok, err, ◌>>=◌, ◌>>◌, require,
}
use tpl_backend.Base.Json.{Json}
use tpl_backend.Delivery.Event.{OutboxEvent, Headers, EventError, model_validate, transport_headers}
use tpl_backend.Delivery.Store.{
  Stamp, neg_infinity, at, stamp_le, seconds, Status, pending, delivering, published, is_pending,
  is_delivering, Message, Receipt, Store, DeliveryError, invalid_event, invalid_parameters,
  different_intent, ownership_lost, not_before_due, cast_raises, malformed_header, expired_before,
  unexpired, owned_by, is_received, in_order,
}

-- The clocks that a statement reads.
pub record Clock : Type 0 where
  pub now : ℕ
  pub reading : ℕ

-- Equality of `jsonb` values, which PostgreSQL decides.
pub record Jsonb : Type 0 where
  pub same_payload : Json → Json → Bool
  pub same_headers : Headers → Headers → Bool

-- The row that `INSERT` proposes. `created_at` and `updated_at` default to `NOW()`.
unfoldable pub new_message : ℕ → ℕ → OutboxEvent → Message
unfolding transport_headers
new_message id now e = record {
  id = id;
  topic = e.topic;
  aggregate_key = e.aggregate_key;
  deduplication_key = e.deduplication_key;
  payload = e.payload;
  headers = transport_headers e;
  status = pending;
  attempt_count = 0;
  available_at = elim e.not_before [ none ↦ neg_infinity | some t ↦ at t ];
  lease_owner = none;
  lease_expires_at = none;
  published_at = none;
  last_error = none;
  created_at = now;
  updated_at = now;
}

-- The `WHERE` of `DO UPDATE`.
unfoldable pub same_intent : Jsonb → Message → Message → Bool
same_intent j old new =
    text_eq old.topic new.topic
    && text_eq old.aggregate_key new.aggregate_key
    && j.same_payload old.payload new.payload
    && j.same_headers old.headers new.headers

abbrev pub has_dedup_key : Text → Message → Bool
has_dedup_key k m = text_eq m.deduplication_key k

-- `INSERT … ON CONFLICT (deduplication_key) DO UPDATE … RETURNING id`. The update writes the key
-- that the row has.
unfoldable pub upsert_message : Jsonb → Message → Store → Option ℕ × Store
unfolding same_intent
upsert_message j new s = elim (find? (has_dedup_key new.deduplication_key) s.messages) [
  | none ↦ (some new.id, record s { messages = s.messages ++ new ∷ [] })
  | some old ↦ (if same_intent j old new then some old.id else none, s)
]

-- A pydantic `ValidationError` is a `ValueError`.
abbrev pub validated {ℓ} : {A : Type ℓ} → Result EventError A → Result DeliveryError A
validated (ok a) = ok a
validated (err _) = err invalid_event

-- `scalar_one_or_none`, and the exception when the update touched no row.
abbrev pub or_different : Option ℕ × Store → Result DeliveryError (ℕ × Store)
or_different (none, s) = err different_intent
or_different (some id, s) = ok (id, s)

-- `id` is the fresh `uuid4`.
unfoldable pub enqueue : Jsonb → Clock → ℕ → OutboxEvent → Store → Result DeliveryError (ℕ × Store)
enqueue j c id event s = do
  e ← validated (model_validate event)
  or_different (upsert_message j (new_message id c.now e) s)

-- The `WHERE` of the candidates.
unfoldable pub is_batch_candidate : Clock → Message → Bool
unfolding not_before_due
is_batch_candidate c m =
    stamp_le m.available_at c.now
    && not_before_due m.headers c.reading
    && (is_pending m.status || is_delivering m.status && expired_before m.lease_expires_at c.now)

-- PostgreSQL tests the conditions of a row in the order of the `WHERE`.
unfoldable pub batch_raises : Clock → Store → Bool
unfolding cast_raises
batch_raises c s = any (λ m. stamp_le m.available_at c.now && cast_raises m.headers) s.messages

-- `FOR UPDATE SKIP LOCKED LIMIT :limit`: `locked` are the rows that other transactions hold.
unfoldable pub batch_candidates : Clock → (ℕ → Bool) → ℕ → Store → List Message
unfolding is_batch_candidate in_order
batch_candidates c locked limit s =
    take limit (filter (λ m. is_batch_candidate c m && not (locked m.id)) (in_order s.messages))

-- The row that a claim leaves.
unfoldable pub lease_message : Text → ℕ → ℕ → Message → Message
lease_message owner now ttl m = record m {
  status = delivering;
  lease_owner = some owner;
  lease_expires_at = some (now + seconds ttl);
  attempt_count = m.attempt_count + 1;
  updated_at = now;
}

abbrev pub id_in : List Message → Message → Bool
id_in cs m = any (λ c. c.id == m.id) cs

unfoldable pub claim_batch :
    Clock → (ℕ → Bool) → Text → ℕ → ℕ → Store → Result DeliveryError (List Message × Store)
unfolding batch_candidates lease_message batch_raises
claim_batch c locked owner limit lease_seconds s = do
  require (not (is_empty owner || ltb 128 (length owner) || not (leb 1 limit && leb limit 1000)))
      invalid_parameters
  require (leb 1 lease_seconds && leb lease_seconds 3600) invalid_parameters
  require (not (batch_raises c s)) malformed_header
  let chosen = batch_candidates c locked limit s
  let after = update (id_in chosen) (lease_message owner c.now lease_seconds) s.messages
  ok (filter (id_in chosen) after, record s { messages = after })

-- `id = :id AND status = 'delivering' AND lease_owner = :owner AND lease_expires_at > clock`
unfoldable pub holds_lease : ℕ → Text → ℕ → Message → Bool
holds_lease id owner clock m =
    m.id == id
    && is_delivering m.status
    && owned_by m.lease_owner owner
    && unexpired m.lease_expires_at clock

-- An `UPDATE … RETURNING id` under the lease, and the exception when it touched no row.
unfoldable pub update_held :
    DeliveryError → ℕ → Text → ℕ → (Message → Message) → Store → Result DeliveryError Store
unfolding holds_lease
update_held e id owner clock f s =
    if any (holds_lease id owner clock) s.messages
    then ok (record s { messages = update (holds_lease id owner clock) f s.messages })
    else err e

unfoldable pub set_published : ℕ → Message → Message
set_published now m = record m {
  status = published;
  published_at = some now;
  lease_owner = none;
  lease_expires_at = none;
  last_error = none;
  updated_at = now;
}

unfoldable pub mark_published : Clock → ℕ → Text → Store → Result DeliveryError Store
unfolding update_held set_published
mark_published c id owner s = update_held ownership_lost id owner c.reading (set_published c.now) s

unfoldable pub set_failed : ℕ → Text → ℕ → Message → Message
set_failed now error_code retry m = record m {
  status = pending;
  available_at = at (now + seconds retry);
  lease_owner = none;
  lease_expires_at = none;
  last_error = some error_code;
  updated_at = now;
}

unfoldable pub mark_failed : Clock → ℕ → Text → Text → ℕ → Store → Result DeliveryError Store
unfolding update_held set_failed
mark_failed c id owner error_code retry s = do
  require
      (not (
        is_empty error_code || ltb 256 (length error_code) || not (leb 1 retry && leb retry 86400)))
      invalid_parameters
  update_held ownership_lost id owner c.reading (set_failed c.now error_code retry) s

-- `INSERT … ON CONFLICT (consumer, message_id) DO NOTHING RETURNING message_id`
unfoldable pub insert_receipt : ℕ → Text → ℕ → Store → Bool × Store
unfolding is_received
insert_receipt now consumer id s = if is_received s consumer id then (false, s) else (
  true,
  record s {
    inbox = s.inbox ++ record { consumer = consumer; message_id = id; processed_at = now } ∷ [];
  },
)

unfoldable pub claim_inbox_once : ℕ → Text → ℕ → Store → Result DeliveryError (Bool × Store)
unfolding insert_receipt
claim_inbox_once now consumer id s =
    if is_empty consumer || ltb 128 (length consumer)
    then err invalid_parameters
    else ok (insert_receipt now consumer id s)
