-- ===== src/Delivery/Observation.antt =====
-- app/app/infrastructure/messaging/delivery_observation.py: the gauges of the delivery. Receipts are
-- finite instants; the two float gauges are in microseconds here, before `extract` and the cast.
pub mod Counts
pub mod Publishable
mod Tests
use tpl_backend.Base.{
  ℕ, ◌+◌, ◌-◌, Bool, true, false, not, ◌&&◌, ◌||◌, Option, none, some, is_some, max, List, [], ◌∷◌,
  ◌++◌, map, any, filter, length, Text, text_eq, text_lt, contains, leb, ltb, if◌then◌else◌, Result,
  ok, err, ◌>>=◌, ◌>>◌, require,
}
use tpl_backend.Delivery.Event.{HeaderValue, plain, instant, Headers, not_before_header, is_topic}
use tpl_backend.Delivery.Store.{
  Stamp, neg_infinity, at, stamp_le, Status, is_pending, is_delivering, is_published, Message,
  Receipt, Store, header, expired_by, is_dead, is_receipt,
}
use tpl_backend.Delivery.Policy.{Policy, is_executing, published_before}

-- The refusals, and a header that is no timestamp, which makes the statement raise.
pub data ObservationError : Type 0 where
  too_many_policies invalid_name invalid_topic too_many_topics invalid_header : ObservationError

-- `(m.headers->>'…')::timestamptz`, where it is a timestamp or missing.
unfoldable pub due_at : Headers → Stamp
unfolding header
due_at hs = elim (header not_before_header hs) [
  | none ↦ neg_infinity
  | some (plain s) ↦ neg_infinity
  | some (instant t) ↦ at t
]

unfoldable pub is_timestamp : Headers → Bool
unfolding header
is_timestamp hs = elim (header not_before_header hs) [
  | none ↦ true
  | some (plain s) ↦ false
  | some (instant t) ↦ true
]

-- A row of `facts`.
pub record Fact : Type 0 where
  pub status : Status
  pub created_at : ℕ
  pub available_at : Stamp
  pub lease_expires_at : Option ℕ
  pub published_at : Option ℕ
  pub due : Stamp
  pub receipt_at : Option ℕ
  pub done : Bool
  pub executing : Bool
  pub dead : Bool

-- The `LEFT JOIN` on the receipts of the message for the consumer: a consumer that is NULL has none.
abbrev pub or_null : List Receipt → List (Option ℕ)
or_null [] = none ∷ []
or_null (r ∷ rs) = map (λ q. some q.processed_at) (r ∷ rs)

unfoldable pub joined : Option Text → Store → ℕ → List (Option ℕ)
unfolding is_receipt
joined none s id = none ∷ []
joined (some consumer) s id = or_null (filter (is_receipt consumer id) s.inbox)

abbrev pub is_done : Option Text → Status → Option ℕ → Bool
is_done none status receipt = is_published status
is_done (some _) status receipt = is_some receipt

-- `t` is the `clock_timestamp()` of the statement.
unfoldable pub fact_of : ℕ → Option Text → Store → Message → Option ℕ → Fact
unfolding is_executing is_dead due_at
fact_of t consumer s m receipt = record {
  status = m.status;
  created_at = m.created_at;
  available_at = m.available_at;
  lease_expires_at = m.lease_expires_at;
  published_at = m.published_at;
  due = due_at m.headers;
  receipt_at = receipt;
  done = is_done consumer m.status receipt;
  executing = is_executing s t m.id;
  dead = is_dead s m.id;
}

unfoldable pub facts_of : ℕ → Option Text → Store → Message → List Fact
unfolding fact_of joined
facts_of t consumer s m = map (fact_of t consumer s m) (joined consumer s m.id)

unfoldable pub facts : ℕ → Option Text → Store → List Message → List Fact
unfolding facts_of
facts t consumer s [] = []
facts t consumer s (m ∷ ms) = facts_of t consumer s m ++ facts t consumer s ms

abbrev pub count : {A : Type 0} → (A → Bool) → List A → ℕ
count p xs = length (filter p xs)

-- The conditions of the filters. `now` is the instant at which the observation began.
unfoldable pub is_publishable : ℕ → Fact → Bool
is_publishable now f =
    not f.done
    && not f.dead
    && not f.executing
    && stamp_le f.due now
    && stamp_le f.available_at now
    && (is_pending f.status || is_delivering f.status && expired_by f.lease_expires_at now)

unfoldable pub is_candidate : ℕ → ℕ → Option Text → Fact → Bool
is_candidate now ttl consumer f =
    not f.done
    && not f.executing
    && not f.dead
    && is_some consumer
    && is_published f.status
    && published_before f.published_at ttl now

-- `now - greatest(created_at, due_at)`, at least 0.
abbrev pub age : ℕ → ℕ → Stamp → ℕ
age now created neg_infinity = now - created
age now created (at due) = now - max created due

unfoldable pub oldest : ℕ → List Fact → ℕ
oldest now [] = 0
oldest now (f ∷ fs) =
    let rest = oldest now fs in
    if not f.done && not f.dead && stamp_le f.due now
    then max (age now f.created_at f.due) rest
    else rest

unfoldable pub latest : List Fact → ℕ
latest [] = 0
latest (f ∷ fs) = let rest = latest fs in elim f.receipt_at [ none ↦ rest | some r ↦ max r rest ]

pub record Observation : Type 0 where
  pub policy : Text
  pub topic : Text
  pub receipt_required : Bool
  pub messages : ℕ
  pub retained_receipt_messages : ℕ
  pub latest_receipt_recorded : ℕ
  pub incomplete_messages : ℕ
  pub scheduled_messages : ℕ
  pub publishable_messages : ℕ
  pub awaiting_receipt_messages : ℕ
  pub active_execution_messages : ℕ
  pub expired_publisher_leases : ℕ
  pub dead_letter_messages : ℕ
  pub reconcile_candidates : ℕ
  pub oldest_due_incomplete_age : ℕ

abbrev pub rows_of : Text → Store → List Message
rows_of topic s = filter (λ m. text_eq m.topic topic) s.messages

unfoldable pub gauges : Text → Policy → ℕ → ℕ → Text → Option Text → List Fact → Observation
unfolding is_publishable is_candidate oldest latest
gauges name p now t topic consumer fs = record {
  policy = name;
  topic = topic;
  receipt_required = is_some consumer;
  messages = length fs;
  retained_receipt_messages = count (λ f. is_some f.receipt_at) fs;
  latest_receipt_recorded = latest fs;
  incomplete_messages = count (λ f. not f.done) fs;
  scheduled_messages = count (λ f. not f.done && not (stamp_le f.due now)) fs;
  publishable_messages = count (is_publishable now) fs;
  awaiting_receipt_messages =
      count (λ f. not f.done && is_published f.status && is_some consumer) fs;
  active_execution_messages = count (λ f. not f.done && f.executing) fs;
  expired_publisher_leases =
      count (λ f. not f.done && is_delivering f.status && expired_by f.lease_expires_at now) fs;
  dead_letter_messages = count (λ f. f.dead) fs;
  reconcile_candidates = count (is_candidate now p.lease_seconds consumer) fs;
  oldest_due_incomplete_age = oldest now fs;
}

-- The statement for one topic, at `t`.
unfoldable pub observe :
    Text → Policy → ℕ → ℕ → Text → Option Text → Store → Result ObservationError Observation
unfolding gauges facts is_timestamp
observe name p now t topic consumer s =
    if any (λ m. not (is_timestamp m.headers)) (rows_of topic s)
    then err invalid_header
    else ok (gauges name p now t topic consumer (facts t consumer s (rows_of topic s)))

-- `sorted(….items())`, by the names, which are distinct.
insert_item : {B : Type 0} → Text × B → List (Text × B) → List (Text × B)
insert_item (k, v) [] = (k, v) ∷ []
insert_item (k, v) ((j, w) ∷ is) =
    let rest = insert_item (k, v) is in if text_lt k j then (k, v) ∷ (j, w) ∷ is else (j, w) ∷ rest

unfoldable pub sorted_items : {B : Type 0} → List (Text × B) → List (Text × B)
unfolding insert_item text_lt
sorted_items [] = []
sorted_items (i ∷ is) = insert_item i (sorted_items is)

-- The topics of one policy, each new and well formed.
unfoldable pub check_topics :
    List (Text × Option Text) → List Text → Result ObservationError (List Text)
unfolding is_topic
check_topics [] seen = ok seen
check_topics ((topic, consumer) ∷ ts) seen = do
  require (is_topic topic && not (contains seen topic)) invalid_topic
  check_topics ts (topic ∷ seen)

unfoldable pub check_policies :
    List (Text × Policy) → List Text → Result ObservationError (List Text)
unfolding is_topic check_topics
check_policies [] seen = ok seen
check_policies ((name, p) ∷ ps) seen = do
  require (is_topic name) invalid_name
  topics ← check_topics p.topics seen
  check_policies ps topics

unfoldable pub observe_topics :
    Text
    → Policy
    → ℕ
    → (Text → ℕ)
    → List (Text × Option Text)
    → Store
    → Result ObservationError (List Observation)
unfolding observe
observe_topics name p now clock [] s = ok []
observe_topics name p now clock ((topic, consumer) ∷ ts) s = do
  first ← observe name p now (clock topic) topic consumer s
  rest ← observe_topics name p now clock ts s
  ok (first ∷ rest)

unfoldable pub observe_policies :
    ℕ → (Text → ℕ) → List (Text × Policy) → Store → Result ObservationError (List Observation)
unfolding observe_topics sorted_items
observe_policies now clock [] s = ok []
observe_policies now clock ((name, p) ∷ ps) s = do
  first ← observe_topics name p now clock (sorted_items p.topics) s
  rest ← observe_policies now clock ps s
  ok (first ++ rest)

pub record Snapshot : Type 0 where
  pub observed_at : ℕ
  pub unregistered_messages : ℕ
  pub topics : List Observation

-- One `REPEATABLE READ` transaction on `s`; `clock` is the instant of the statement of a topic. The
-- timeouts are left out.
unfoldable pub collect_delivery_snapshot :
    ℕ → (Text → ℕ) → List (Text × Policy) → Store → Result ObservationError Snapshot
unfolding check_policies observe_policies sorted_items
collect_delivery_snapshot now clock ps s = do
  require (leb (length ps) 16) too_many_policies
  topics ← check_policies ps []
  require (leb (length topics) 128) too_many_topics
  observations ← observe_policies now clock (sorted_items ps) s
  ok (record {
    observed_at = now;
    unregistered_messages = count (λ m. not (contains topics m.topic)) s.messages;
    topics = observations;
  })
