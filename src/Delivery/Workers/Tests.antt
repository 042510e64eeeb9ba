-- ===== src/Delivery/Workers/Tests.antt =====
-- Two workers that take the same message, one after the other's lease ran out: one commit.
use tpl_backend.Base.{ℕ, refl, inl, none, some, [], ◌∷◌, Text, codes, text_eq, ◌+◌}
use tpl_backend.Base.Json.{null}
use tpl_backend.Delivery.Store.{neg_infinity, pending, Message, Store}
use tpl_backend.Delivery.Policy.{Policy}
use tpl_backend.Delivery.Tasks.{Handler, claim_execution, commit_run, execute}
use tpl_backend.Delivery.Workers.{Worker, System, Reach, here, next, claims, commits, IsDistinct}
use tpl_backend.Delivery.Workers.AtMostOnce.{committed-IsDistinct}

abbrev mail : Message
mail = record {
  id = 7;
  topic = codes "mail";
  aggregate_key = codes "u1";
  deduplication_key = codes "k1";
  payload = null;
  headers = [];
  status = pending;
  attempt_count = 0;
  available_at = neg_infinity;
  lease_owner = none;
  lease_expires_at = none;
  published_at = none;
  last_error = none;
  created_at = 5;
  updated_at = 5;
}

abbrev policy : Policy
policy = record {
  topics = (codes "mail", some (codes "mail")) ∷ [];
  lease_seconds = 60;
  max_attempts = 1;
}

abbrev start : Store
start = record { messages = mail ∷ []; inbox = []; dead_letters = []; executions = [] }

abbrev subject : ℕ → Text × Text
subject _ = (codes "mail", codes "u1")

abbrev add_one : Handler ℕ
add_one n _ = some (n + 1)

abbrev first : Worker
first = record {
  lease = record { resource_key = codes "mail:u1"; message_id = 7; owner = 3; epoch = 1 };
  message = mail;
}

-- The lease of `first` has run out.
abbrev second : Worker
second = record {
  lease = record { resource_key = codes "mail:u1"; message_id = 7; owner = 4; epoch = 2 };
  message = mail;
}

abbrev after_first : Store
after_first = (claim_execution policy 100 100 3 7 start start).1

abbrev after_second : Store
after_second = (claim_execution policy 70000000 70000000 4 7 after_first after_first).1

abbrev after_commit : Store
after_commit = record after_second {
  inbox = record { consumer = codes "mail"; message_id = 7; processed_at = 70000010 } ∷ [];
}

abbrev initial : System ℕ
initial = record { store = start; domain = 0; workers = []; committed = [] }

abbrev one_at_work : System ℕ
one_at_work = record { store = after_first; domain = 0; workers = first ∷ []; committed = [] }

abbrev two_at_work : System ℕ
two_at_work = record {
  store = after_second;
  domain = 0;
  workers = second ∷ first ∷ [];
  committed = [];
}

abbrev final : System ℕ
final = record {
  store = after_commit;
  domain = 1;
  workers = first ∷ [];
  committed = (codes "mail", 7) ∷ [];
}

run : Reach subject add_one initial final
unfolding claim_execution text_eq execute commit_run
run =
    next
      (next (next here (claims initial policy 100 100 3 7 start first (refl, tt) refl))
        (claims one_at_work policy 70000000 70000000 4 7 after_first second (refl, tt) refl))
      (commits two_at_work second 70000005 70000010 70000020 after_second after_commit 1 (inl refl)
        refl)

committed-IsDistinct_example : IsDistinct final.committed
committed-IsDistinct_example = committed-IsDistinct subject add_one start 0 final tt run
