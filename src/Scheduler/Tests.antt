-- ===== src/Scheduler/Tests.antt =====
-- A scheduler that ticks, and a probe.
use tpl_backend.Base.{◌≡◌, ◌==◌, refl, true, none, some, codes, text_eq, if◌then◌else◌, ok, arith}
use tpl_backend.Base.Json.{str, int, obj, Fields, end, field, get_or_null}
use tpl_backend.Scheduler.{
  File, Node, Numbers, Snapshot, Scheduler, read_activity, tick, activity_fields,
}
use tpl_backend.Scheduler.Activity.{IsBelieved, read_activity-IsBelieved}
use tpl_backend.Scheduler.Written.{IsLater, read_activity-tick}

abbrev node : Node
node = record {
  boottime = 5000000;
  boot_id = codes "b";
  identity = λ pid. if pid == 7 then some (codes "S", codes "99") else none;
}

abbrev later : Node
later = record node { boottime = 6000000 }

abbrev fields : Fields
fields = field (codes "schema_version") (int 1) (
    field (codes "pid") (int 7) (
      field (codes "process_start") (str (codes "99")) (
        field (codes "boot_id") (str (codes "b")) (
          field (codes "tick_boottime") (int 5000000) (
            field (codes "tick_count") (int 3) (
              field (codes "publish_returns") (int 1)
                (field (codes "publish_errors") (int 0) end)))))))

abbrev numbers : Numbers
numbers = record {
  dumps = λ _. codes "t";
  loads = λ _. some (obj fields);
  of_time = int;
  time_of = λ v. elim v [ int t ↦ some t | _ ↦ none ];
}

abbrev scheduler : Scheduler numbers
scheduler = record {
  tick_count = 2;
  publish_returns = 1;
  publish_errors = 0;
  last_write_attempt = some 100;
}

abbrev file : File
file = record { regular = true; own = true; content = codes "t" }

abbrev probed : Snapshot
probed = record {
  pid = 7;
  loop_age = 1000000;
  tick_count = 3;
  publish_returns = 1;
  publish_errors = 0;
}

read_probed : read_activity numbers 2000000 later (some file) ≡ ok probed
unfolding read_activity get_or_null text_eq
read_probed = refl

read_activity-IsBelieved_example : IsBelieved numbers 2000000 later (some file) probed
read_activity-IsBelieved_example =
    read_activity-IsBelieved numbers 2000000 later (some file) probed read_probed

look : IsLater 7 2000000 (codes "99") node later
unfolding text_eq
look = record {
  state = codes "S";
  running = refl;
  live = refl;
  same_boot = refl;
  later = omega arith;
  recent = omega arith;
}

read_activity-tick_example :
    read_activity numbers 2000000 later (tick numbers 1000100 node 7 true scheduler none).1
    ≡ ok probed
unfolding activity_fields
read_activity-tick_example =
    read_activity-tick numbers (λ t. refl) 7 2000000 (codes "99") node later look (omega arith)
      1000100 true scheduler none (codes "S") refl refl refl (omega arith) (omega arith)
      (omega arith) refl
