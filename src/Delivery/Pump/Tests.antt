-- ===== src/Delivery/Pump/Tests.antt =====
-- A run of the pump over a small store.
use tpl_backend.Base.{ℕ, ◌≡◌, refl, false, none, some, [], ◌∷◌, codes, text_eq, ok}
use tpl_backend.Base.Json.{null}
use tpl_backend.Delivery.Store.{neg_infinity, at, pending, published, Message, Store}
use tpl_backend.Delivery.Policy.{Policy, Reading}
use tpl_backend.Delivery.Pump.{Round, pump}

abbrev waiting : Message
waiting = record {
  id = 7;
  topic = codes "mail";
  aggregate_key = codes "u1";
  deduplication_key = codes "k1";
  payload = null;
  headers = [];
  status = pending;
  attempt_count = 0;
  available_at = neg_infinity;
  lease_owner = none;
  lease_expires_at = none;
  published_at = none;
  last_error = none;
  created_at = 5;
  updated_at = 5;
}

abbrev policy : Policy
policy = record {
  topics = (codes "mail", some (codes "mail")) ∷ [];
  lease_seconds = 60;
  max_attempts = 3;
}

abbrev one : Store
one = record { messages = waiting ∷ []; inbox = []; dead_letters = []; executions = [] }

abbrev round : ℕ → Round
round _ = record {
  claimed_at = 100;
  locked = λ _. false;
  owner = codes "a";
  publish = λ _. none;
  finished_at = 200;
  before_claim = λ s. s;
  before_finish = λ s. s;
}

abbrev reading : ℕ → Reading
reading _ = record { now = 50; locked = λ _. false; row_at = λ _. 50 }

abbrev sent : Message
sent = record waiting {
  status = published;
  attempt_count = 1;
  available_at = at 2000200;
  published_at = some 200;
  updated_at = 200;
}

pump_them : pump policy reading round 9 one ≡ ok (1, record one { messages = sent ∷ [] })
unfolding pump text_eq
pump_them = refl
