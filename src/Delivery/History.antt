-- ===== src/Delivery/History.antt =====
-- Any sequence of calls of `SqlOutboxRepository`, `DurableDelivery` and `DurableTasks` on one
-- database, and the log of accepted intents that clients see in it.
pub mod Rows
pub mod Commits
pub mod Calls
pub mod Recoveries
pub mod Executions
pub mod Refines
mod Tests
use tpl_backend.Base.{
  ℕ, Bool, true, false, Option, none, some, List, [], ◌∷◌, ◌++◌, map, any, Text, text_eq,
  if◌then◌else◌, Result, ok, err,
}
use tpl_backend.Base.Json.{Json}
use tpl_backend.Delivery.Event.{OutboxEvent, Headers, EventError, model_validate}
use tpl_backend.Delivery.Store.{Message, Store, DeliveryError}
use tpl_backend.Delivery.Outbox.{
  Clock, Jsonb, new_message, enqueue, claim_batch, mark_published, mark_failed, claim_inbox_once,
}
use tpl_backend.Delivery.Policy.{
  Policy, Reading, claim_delivery, finish_delivery, reconcile, replay,
}
use tpl_backend.Delivery.Tasks.{ConsumerLease, claim_execution, renew, release}

-- The calls that write, each with the clocks, the fresh identifiers and the locks that it meets.
pub data Call : Type 0 where
  enqueues : Jsonb → Clock → ℕ → OutboxEvent → Call
  claims_batch : Clock → (ℕ → Bool) → Text → ℕ → ℕ → Call
  marks_published : Clock → ℕ → Text → Call
  marks_failed : Clock → ℕ → Text → Text → ℕ → Call
  claims_inbox : ℕ → Text → ℕ → Call
  claims_delivery : Policy → ℕ → (ℕ → Bool) → Text → Call
  finishes : Policy → ℕ → Message → Option Text → Call
  reconciles : Policy → (ℕ → Reading) → Call
  replays : Policy → ℕ → ℕ → Call
  claims_execution : Policy → ℕ → ℕ → ℕ → ℕ → Store → Call
  renews : Policy → ConsumerLease → ℕ → Call
  releases : ConsumerLease → Call

-- A transaction that raises is rolled back.
abbrev pub committed : Store → Result DeliveryError Store → Store
committed s (ok s') = s'
committed s (err e) = s

abbrev pub committed_with : {A : Type 0} → Store → Result DeliveryError (A × Store) → Store
committed_with s (ok (a, s')) = s'
committed_with s (err e) = s

unfoldable pub step : Call → Store → Store
step (enqueues j c id e) s = committed_with s (enqueue j c id e s)
step (claims_batch c locked owner limit ttl) s =
    committed_with s (claim_batch c locked owner limit ttl s)
step (marks_published c id owner) s = committed s (mark_published c id owner s)
step (marks_failed c id owner code retry) s = committed s (mark_failed c id owner code retry s)
step (claims_inbox now consumer id) s = committed_with s (claim_inbox_once now consumer id s)
step (claims_delivery p t locked owner) s = (claim_delivery p t locked owner s).1
step (finishes p t m error) s = committed s (finish_delivery p t m error s)
step (reconciles p us) s = (reconcile p us s).1
step (replays p t id) s = committed s (replay p t id s)
step (claims_execution p t t' owner id seen) s = (claim_execution p t t' owner id seen s).1
step (renews p l t) s = committed s (renew p l t s)
step (releases l) s = release l s

unfoldable pub run : List Call → Store → Store
run [] s = s
run (c ∷ cs) s = run cs (step c s)

-- What a row says for ever: the event that it was made of.
pub record Intent : Type 0 where
  pub id : ℕ
  pub topic : Text
  pub aggregate_key : Text
  pub deduplication_key : Text
  pub payload : Json
  pub headers : Headers
  pub created_at : ℕ

abbrev pub intent_of : Message → Intent
intent_of m = record {
  id = m.id;
  topic = m.topic;
  aggregate_key = m.aggregate_key;
  deduplication_key = m.deduplication_key;
  payload = m.payload;
  headers = m.headers;
  created_at = m.created_at;
}

abbrev pub intents : Store → List Intent
intents s = map intent_of s.messages

-- The specification: a log that takes each deduplication key once.
abbrev pub has_key : Text → Intent → Bool
has_key k i = text_eq i.deduplication_key k

abbrev pub accept : Intent → List Intent → List Intent
accept i log = if any (has_key i.deduplication_key) log then log else log ++ i ∷ []

abbrev pub accept_valid : Clock → ℕ → Result EventError OutboxEvent → List Intent → List Intent
accept_valid c id (err e) log = log
accept_valid c id (ok e) log = accept (intent_of (new_message id c.now e)) log

unfoldable pub log_step : Call → List Intent → List Intent
log_step (enqueues j c id e) log = accept_valid c id (model_validate e) log
log_step _ log = log

unfoldable pub log_run : List Call → List Intent → List Intent
log_run [] log = log
log_run (c ∷ cs) log = log_run cs (log_step c log)
