-- ===== src/Delivery/Tasks/Tests.antt =====
-- Small runs of the consumer, and its theorems at concrete inputs.
use tpl_backend.Base.{ℕ, ◌≡◌, refl, none, some, [], ◌∷◌, ◌+◌, codes, text_eq}
use tpl_backend.Base.Json.{Json}
use tpl_backend.Delivery.Store.{at, Store}
use tpl_backend.Delivery.Tasks.{
  ConsumerLease, claim_execution, check_lease, runnable, commit_run, release,
}
use tpl_backend.Delivery.Tasks.Runs.{Work, last, progress, Schedule, consume, run_tasks, run_work}
use tpl_backend.Delivery.Tasks.Leases.{claim_execution_exclusive}
use tpl_backend.Delivery.Sample.{policy, one_waiting}

abbrev lease : ConsumerLease
lease = record { resource_key = codes "mail:u1"; message_id = 7; owner = 3; epoch = 1 }

abbrev running : Store
running = record one_waiting {
  executions =
      record {
        resource_key = codes "mail:u1";
        message_id = 7;
        owner = 3;
        epoch = 1;
        expires_at = at 60000100;
      }
      ∷ [];
}

claim_execution_exclusive_example :
    claim_execution policy 200 200 4 7 running running ≡ (none, running)
unfolding check_lease runnable text_eq
claim_execution_exclusive_example =
    claim_execution_exclusive policy 200 200 4 7 running running lease (refl, tt) refl (λ m e. cc)

abbrev add_one : Json → Work ℕ
add_one _ = progress (λ n. some (n + 1)) (λ d. last (λ n. some (n + 1)))

abbrev alone : Schedule ℕ
alone = record {
  selected_at = 100;
  upsert_at = 100;
  started_at = 110;
  begun_at = λ n. 110;
  commit_at = λ n. 120;
  before_upsert = λ s. s;
  before_start = λ s. s;
  before_commit = λ n w. w;
  before_release = λ w. w;
  heartbeat_lost = none;
}

consume_adds_two : (consume policy add_one alone 3 7 (one_waiting, 0)).1.1 ≡ 2
unfolding consume text_eq claim_execution run_tasks run_work commit_run check_lease release
consume_adds_two = refl
