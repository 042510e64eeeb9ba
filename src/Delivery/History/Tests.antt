-- ===== src/Delivery/History/Tests.antt =====
-- A history of calls at concrete inputs.
use tpl_backend.Base.{◌≡◌, true, false, none, some, List, [], ◌∷◌, codes}
use tpl_backend.Base.Json.{null}
use tpl_backend.Delivery.Event.{OutboxEvent}
use tpl_backend.Delivery.Store.{Store}
use tpl_backend.Delivery.Outbox.{Jsonb}
use tpl_backend.Delivery.Policy.{Policy}
use tpl_backend.Delivery.History.{
  Call, enqueues, claims_delivery, reconciles, run, intents, log_run,
}
use tpl_backend.Delivery.History.Refines.{IsWellFormed, run_refines, run-IsWellFormed}

abbrev nothing : Store
nothing = record { messages = []; inbox = []; dead_letters = []; executions = [] }

abbrev always : Jsonb
always = record { same_payload = λ _ _. true; same_headers = λ _ _. true }

abbrev event : OutboxEvent
event = record {
  topic = codes "mail";
  aggregate_key = codes "u1";
  deduplication_key = codes "k1";
  payload = null;
  headers = [];
  not_before = none;
}

abbrev policy : Policy
policy = record {
  topics = (codes "mail", some (codes "mail")) ∷ [];
  lease_seconds = 60;
  max_attempts = 1;
}

abbrev calls : List Call
calls =
    enqueues always (record { now = 5; reading = 5 }) 7 event
    ∷ claims_delivery policy 100 (λ _. false) (codes "a")
    ∷ enqueues always (record { now = 9; reading = 9 }) 8 event
    ∷ reconciles policy
        (λ _. record { now = 100000000; locked = λ _. false; row_at = λ _. 100000000 })
    ∷ []

run_refines_example : intents (run calls nothing) ≡ log_run calls (intents nothing)
run_refines_example = run_refines calls nothing

run-IsWellFormed_example : IsWellFormed (run calls nothing)
run-IsWellFormed_example =
    run-IsWellFormed calls nothing (record { keys = tt; leased = tt; single = tt; keyed = tt })
