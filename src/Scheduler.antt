-- ===== src/Scheduler.antt =====
-- app/app/infrastructure/messaging/scheduler_activity.py: the activity that Beat leaves in a file, and
-- how a probe on the same node reads it. Instants are microseconds since the boot.
pub mod Activity
pub mod Written
mod Tests
use tpl_backend.Base.{
  ℕ, ◌+◌, ◌-◌, Bool, true, false, not, ◌&&◌, Option, none, some, List, [], ◌∷◌, Text, codes,
  text_eq, contains, length, leb, ltb, ◌==◌, if◌then◌else◌, Result, ok, err, ◌>>=◌, ◌>>◌, require,
  or_raise,
}
use tpl_backend.Base.Json.{Json, null, str, int, obj, Fields, end, field, get_or_null}

-- The exceptions of `read_activity`.
pub data ActivityError : Type 0 where
  invalid_budget no_file invalid_file too_large invalid_json invalid_schema : ActivityError
  invalid_counter no_tick invalid_tick stale inactive no_process : ActivityError

-- The file, as `fstat` and `read` show it; its content is a list of bytes.
pub record File : Type 0 where
  pub regular : Bool
  pub own : Bool
  pub content : Text

-- What the node shows: the clock, the boot, and of a process its state and its start.
pub record Node : Type 0 where
  pub boottime : ℕ
  pub boot_id : Text
  pub identity : ℕ → Option (Text × Text)

-- The codec of the file: `json.dump`, `json.loads`, and the finite numbers from 0 that are no `bool`.
pub record Numbers : Type 0 where
  pub dumps : Json → Text
  pub loads : Text → Option Json
  pub of_time : ℕ → Json
  pub time_of : Json → Option ℕ

pub record Snapshot : Type 0 where
  pub pid : ℕ
  pub loop_age : ℕ
  pub tick_count : ℕ
  pub publish_returns : ℕ
  pub publish_errors : ℕ

abbrev pub max_bytes : ℕ
max_bytes = 4096

abbrev pub write_interval : ℕ
write_interval = 1000000

-- `type(snapshot.get(key)) is int`, and not negative.
abbrev pub counter : Json → Result ActivityError ℕ
counter (int n) = ok n
counter _ = err invalid_counter

abbrev pub document : Json → Result ActivityError Fields
document (obj fs) = ok fs
document _ = err invalid_schema

abbrev pub is_one : Json → Bool
is_one (int n) = n == 1
is_one _ = false

-- Whether a value of the file is the given text.
abbrev pub is_value : Json → Text → Bool
is_value (str s) t = text_eq s t
is_value _ t = false

abbrev pub live_states : List Text
live_states = codes "R" ∷ codes "S" ∷ codes "D" ∷ codes "I" ∷ []

module _ (c : Numbers) where
  -- The checks on the decoded file.
  unfoldable pub check_snapshot : ℕ → Node → Fields → Result ActivityError Snapshot
  unfolding get_or_null text_eq
  check_snapshot max_age node fs = do
    require (is_one (get_or_null (codes "schema_version") fs)) invalid_schema
    pid ← counter (get_or_null (codes "pid") fs)
    ticks ← counter (get_or_null (codes "tick_count") fs)
    returns ← counter (get_or_null (codes "publish_returns") fs)
    errors ← counter (get_or_null (codes "publish_errors") fs)
    require (not (pid == 0) && not (ticks == 0)) no_tick
    tick_at ← or_raise (c.time_of (get_or_null (codes "tick_boottime") fs)) invalid_tick
    require
        (leb tick_at node.boottime
          && leb (node.boottime - tick_at) max_age
          && is_value (get_or_null (codes "boot_id") fs) node.boot_id)
        stale
    process ← or_raise (node.identity pid) no_process
    require
        (contains live_states process.0
          && is_value (get_or_null (codes "process_start") fs) process.1)
        inactive
    ok (record {
      pid = pid;
      loop_age = node.boottime - tick_at;
      tick_count = ticks;
      publish_returns = returns;
      publish_errors = errors;
    })

  -- `read_activity`; none is a file that cannot be opened.
  unfoldable pub read_activity : ℕ → Node → Option File → Result ActivityError Snapshot
  unfolding check_snapshot
  read_activity max_age node found = do
    require (ltb 0 max_age && leb max_age 3600000000) invalid_budget
    file ← or_raise found no_file
    require (file.regular && file.own) invalid_file
    require (leb (length file.content) max_bytes) too_large
    raw ← or_raise (c.loads file.content) invalid_json
    fs ← document raw
    check_snapshot max_age node fs

  -- `ObservedScheduler`; no write was attempted before the first.
  pub record Scheduler : Type 0 where
    pub tick_count : ℕ
    pub publish_returns : ℕ
    pub publish_errors : ℕ
    pub last_write_attempt : Option ℕ

  -- `apply_async`, with whether it returned.
  unfoldable pub apply_async : Bool → Scheduler → Scheduler
  apply_async true s = record s { publish_returns = s.publish_returns + 1 }
  apply_async false s = record s { publish_errors = s.publish_errors + 1 }

  unfoldable pub activity_fields : Node → ℕ → Text → Scheduler → Fields
  activity_fields node pid start s = field (codes "schema_version") (int 1) (
      field (codes "pid") (int pid) (
        field (codes "process_start") (str start) (
          field (codes "boot_id") (str node.boot_id) (
            field (codes "tick_boottime") (c.of_time node.boottime) (
              field (codes "tick_count") (int s.tick_count) (
                field (codes "publish_returns") (int s.publish_returns)
                  (field (codes "publish_errors") (int s.publish_errors) end)))))))

  -- `attempt_at - last < interval`
  abbrev pub is_too_soon : Option ℕ → ℕ → Bool
  is_too_soon none attempt_at = false
  is_too_soon (some last) attempt_at = ltb attempt_at (last + write_interval)

  -- The file after an attempted write. `saved` tells whether the rest of the attempt went through: the
  -- reads of the boot's clock and identifier, the test of the schedule's filename, and `atomic_write`.
  abbrev pub written :
      Node → ℕ → Option (Text × Text) → Bool → Scheduler → Option File → Option File
  written node pid none saved s old = old
  written node pid (some process) false s old = old
  written node pid (some process) true s old = some (record {
    regular = true;
    own = true;
    content = c.dumps (obj (activity_fields node pid process.1 s));
  })

  -- `tick`, after the tick of Celery's scheduler. The file is replaced as a whole; a failure on the way
  -- to it leaves the old one.
  unfoldable pub tick : ℕ → Node → ℕ → Bool → Scheduler → Option File → Scheduler × Option File
  unfolding activity_fields
  tick attempt_at node pid saved s old =
      let counted = record s { tick_count = s.tick_count + 1 } in
      let attempted = record counted { last_write_attempt = some attempt_at } in
      if is_too_soon s.last_write_attempt attempt_at
      then (counted, old)
      else (attempted, written node pid (node.identity pid) saved attempted old)
