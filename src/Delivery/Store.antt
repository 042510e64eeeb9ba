-- ===== src/Delivery/Store.antt =====
-- The tables of the delivery: app/app/infrastructure/models/outbox.py, the tables of
-- app/app/infrastructure/messaging/delivery_schema.py, and the not-before predicate of
-- delivery_schedule.py. Message ids, lease owners made by `uuid4` and instants are numbers;
-- instants are microseconds since the year 1.
pub mod Order
use tpl_backend.Base.{
  ℕ, ◌+◌, ◌*◌, Bool, true, false, ◌&&◌, ◌||◌, Option, none, some, List, [], ◌∷◌, Text, text_eq, any,
  ltb, leb, ◌==◌, if◌then◌else◌,
}
use tpl_backend.Base.Json.{Json}
use tpl_backend.Delivery.Event.{HeaderValue, plain, instant, Headers, not_before_header}

-- A `timestamptz`: an instant, or '-infinity'.
pub data Stamp : Type 0 where
  neg_infinity : Stamp
  at : ℕ → Stamp

abbrev pub stamp_le : Stamp → ℕ → Bool
stamp_le neg_infinity now = true
stamp_le (at t) now = leb t now

-- `seconds * INTERVAL '1 second'`
abbrev pub seconds : ℕ → ℕ
seconds n = n * 1000000

pub data Status : Type 0 where
  pending delivering published : Status

abbrev pub is_pending : Status → Bool
is_pending pending = true
is_pending _ = false

abbrev pub is_delivering : Status → Bool
is_delivering delivering = true
is_delivering _ = false

abbrev pub is_published : Status → Bool
is_published published = true
is_published _ = false

pub record Message : Type 0 where
  pub id : ℕ
  pub topic : Text
  pub aggregate_key : Text
  pub deduplication_key : Text
  pub payload : Json
  pub headers : Headers
  pub status : Status
  pub attempt_count : ℕ
  pub available_at : Stamp
  pub lease_owner : Option Text
  pub lease_expires_at : Option ℕ
  pub published_at : Option ℕ
  pub last_error : Option Text
  pub created_at : ℕ
  pub updated_at : ℕ

pub record Receipt : Type 0 where
  pub consumer : Text
  pub message_id : ℕ
  pub processed_at : ℕ

pub record DeadLetter : Type 0 where
  pub message_id : ℕ
  pub error_code : Text
  pub failed_at : ℕ
  pub replayed_at : Option ℕ

pub record Execution : Type 0 where
  pub resource_key : Text
  pub message_id : ℕ
  pub owner : ℕ
  pub epoch : ℕ
  pub expires_at : Stamp

pub record Store : Type 0 where
  pub messages : List Message
  pub inbox : List Receipt
  pub dead_letters : List DeadLetter
  pub executions : List Execution

pub data DeliveryError : Type 0 where
  invalid_event invalid_parameters different_intent ownership_lost lease_lost : DeliveryError
  outside_policy not_dead_lettered invalid_policy malformed_header : DeliveryError

-- `headers->>'…'` of the row.
unfoldable pub header : Text → Headers → Option HeaderValue
header k [] = none
header k ((j, v) ∷ hs) = if text_eq j k then some v else header k hs

-- The cast of NOT_BEFORE_DUE_SQL raises on a text that is no timestamp, and with it the statement.
unfoldable pub cast_raises : Headers → Bool
unfolding header
cast_raises hs = elim (header not_before_header hs) [
  | none ↦ false
  | some (plain s) ↦ true
  | some (instant t) ↦ false
]

-- NOT_BEFORE_DUE_SQL, in a statement of which no cast raises: each statement below asks
-- `cast_raises` of its rows first.
unfoldable pub not_before_due : Headers → ℕ → Bool
unfolding header
not_before_due hs clock = elim (header not_before_header hs) [
  | none ↦ true
  | some (plain s) ↦ false
  | some (instant t) ↦ leb t clock
]

-- `lease_expires_at < now`, which is not true of NULL.
abbrev pub expired_before : Option ℕ → ℕ → Bool
expired_before none now = false
expired_before (some t) now = ltb t now

-- `lease_expires_at <= now`
abbrev pub expired_by : Option ℕ → ℕ → Bool
expired_by none now = false
expired_by (some t) now = leb t now

-- `lease_expires_at > now`
abbrev pub unexpired : Option ℕ → ℕ → Bool
unexpired none now = false
unexpired (some t) now = ltb now t

abbrev pub owned_by : Option Text → Text → Bool
owned_by none owner = false
owned_by (some o) owner = text_eq o owner

-- `d.message_id=m.id AND d.replayed_at IS NULL`
abbrev pub is_unreplayed : Option ℕ → Bool
is_unreplayed none = true
is_unreplayed (some _) = false

unfoldable pub is_live_letter : ℕ → DeadLetter → Bool
is_live_letter id d = d.message_id == id && is_unreplayed d.replayed_at

-- EXISTS(SELECT 1 FROM outbox_dead_letter d WHERE …)
unfoldable pub is_dead : Store → ℕ → Bool
unfolding is_live_letter
is_dead s id = any (is_live_letter id) s.dead_letters

unfoldable pub is_receipt : Text → ℕ → Receipt → Bool
is_receipt consumer id i = text_eq i.consumer consumer && i.message_id == id

-- EXISTS(SELECT 1 FROM inbox_message i WHERE i.consumer=… AND i.message_id=…)
unfoldable pub is_received : Store → Text → ℕ → Bool
unfolding is_receipt
is_received s consumer id = any (is_receipt consumer id) s.inbox

-- `ORDER BY created_at, id`
unfoldable pub row_before : Message → Message → Bool
row_before a b = ltb a.created_at b.created_at || a.created_at == b.created_at && leb a.id b.id

insert_row : Message → List Message → List Message
insert_row m [] = m ∷ []
insert_row m (n ∷ ns) =
    let rest = insert_row m ns in if row_before m n then m ∷ n ∷ ns else n ∷ rest

unfoldable pub in_order : List Message → List Message
unfolding insert_row row_before
in_order [] = []
in_order (m ∷ ms) = insert_row m (in_order ms)
