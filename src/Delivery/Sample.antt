-- ===== src/Delivery/Sample.antt =====
-- A message, a policy and a store that the tests share.
use tpl_backend.Base.{ℕ, Bool, false, none, some, [], ◌∷◌, codes}
use tpl_backend.Base.Json.{null}
use tpl_backend.Delivery.Store.{neg_infinity, pending, Message, Store}
use tpl_backend.Delivery.Policy.{Policy}

abbrev pub waiting : Message
waiting = record {
  id = 7;
  topic = codes "mail";
  aggregate_key = codes "u1";
  deduplication_key = codes "k1";
  payload = null;
  headers = [];
  status = pending;
  attempt_count = 0;
  available_at = neg_infinity;
  lease_owner = none;
  lease_expires_at = none;
  published_at = none;
  last_error = none;
  created_at = 5;
  updated_at = 5;
}

abbrev pub policy : Policy
policy = record {
  topics = (codes "mail", some (codes "mail")) ∷ [];
  lease_seconds = 60;
  max_attempts = 1;
}

abbrev pub one_waiting : Store
one_waiting = record { messages = waiting ∷ []; inbox = []; dead_letters = []; executions = [] }

abbrev pub nobody : ℕ → Bool
nobody _ = false
