-- ===== src/Delivery/Observation/Tests.antt =====
-- Observations of small stores.
use tpl_backend.Base.{
  ◌≡◌, refl, Bool, false, none, some, [], ◌∷◌, codes, text_eq, filter, length, ok, arith,
}
use tpl_backend.Base.Json.{null}
use tpl_backend.Delivery.Store.{neg_infinity, pending, published, Message, Store}
use tpl_backend.Delivery.Policy.{Policy, is_unacknowledged, claim_raises, claim_delivery}
use tpl_backend.Delivery.Observation.{Observation, Snapshot, observe, collect_delivery_snapshot}
use tpl_backend.Delivery.Observation.Counts.{observe-unacknowledged}
use tpl_backend.Delivery.Observation.Publishable.{observe-claims}

abbrev waiting : Message
waiting = record {
  id = 7;
  topic = codes "mail";
  aggregate_key = codes "u1";
  deduplication_key = codes "k1";
  payload = null;
  headers = [];
  status = pending;
  attempt_count = 0;
  available_at = neg_infinity;
  lease_owner = none;
  lease_expires_at = none;
  published_at = none;
  last_error = none;
  created_at = 5;
  updated_at = 5;
}

-- Published, and never acknowledged.
abbrev lost : Message
lost = record waiting {
  id = 8;
  deduplication_key = codes "k2";
  status = published;
  published_at = some 10;
}

abbrev policy : Policy
policy = record {
  topics = (codes "mail", some (codes "mail")) ∷ [];
  lease_seconds = 60;
  max_attempts = 3;
}

abbrev two : Store
two = record { messages = waiting ∷ lost ∷ []; inbox = []; dead_letters = []; executions = [] }

abbrev seen : Observation
seen = record {
  policy = codes "mail";
  topic = codes "mail";
  receipt_required = Bool.true;
  messages = 2;
  retained_receipt_messages = 0;
  latest_receipt_recorded = 0;
  incomplete_messages = 2;
  scheduled_messages = 0;
  publishable_messages = 1;
  awaiting_receipt_messages = 1;
  active_execution_messages = 0;
  expired_publisher_leases = 0;
  dead_letter_messages = 0;
  reconcile_candidates = 1;
  oldest_due_incomplete_age = 99999995;
}

abbrev snapshot : Snapshot
snapshot = record { observed_at = 100000000; unregistered_messages = 0; topics = seen ∷ [] }

collect_two :
    collect_delivery_snapshot 100000000 (λ _. 100000000) ((codes "mail", policy) ∷ []) two
    ≡ ok snapshot
unfolding collect_delivery_snapshot text_eq
collect_two = refl

observe_them :
    observe (codes "mail") policy 100000000 100000000 (codes "mail") (some (codes "mail")) two
    ≡ ok seen
unfolding observe text_eq
observe_them = refl

observe-unacknowledged_example :
    1
    ≡ length
        (filter (is_unacknowledged policy 100000000 (codes "mail") (codes "mail") two) two.messages)
observe-unacknowledged_example =
    observe-unacknowledged (codes "mail") policy 100000000 (codes "mail") (codes "mail") two seen
      observe_them

observe-claims_example :
    (m : Message) × ((claim_delivery policy 100000000 (λ _. false) (codes "a") two).0 ≡ ok (some m))
unfolding text_eq claim_raises
observe-claims_example =
    observe-claims (codes "mail") policy 100000000 (codes "mail") (some (codes "mail")) two seen
      (λ _. false) (codes "a") observe_them (omega arith) refl (λ _. refl) refl
