-- ===== src/Scheduler/Written.antt =====
-- The probe reads what the tick of app/app/infrastructure/messaging/scheduler_activity.py wrote.
use tpl_backend.Base.{
  ℕ, ◌+◌, ◌-◌, ◌≤◌, ◌<◌, ◌≡◌, refl, Bool, true, false, Option, some, Text, text_eq, text_eq_refl,
  contains, length, leb, ltb, ◌==◌, ok, arith,
}
use tpl_backend.Base.Json.{obj, get_or_null}
use tpl_backend.Scheduler.{
  File, Node, Numbers, Snapshot, max_bytes, live_states, check_snapshot, read_activity, Scheduler,
  activity_fields, is_too_soon, tick,
}

-- A later look at the process `pid` on the same boot.
pub record IsLater (pid max_age : ℕ) (start : Text) (node node' : Node) : Type 0 where
  pub state : Text
  pub running : node'.identity pid ≡ some (state, start)
  pub live : contains live_states state ≡ true
  pub same_boot : node'.boot_id ≡ node.boot_id
  pub later : node.boottime ≤ node'.boottime
  pub recent : node'.boottime - node.boottime ≤ max_age

nonzero : (n : ℕ) → 0 < n → (n == 0) ≡ false
nonzero n h = ground arith

leb-true : (m n : ℕ) → m ≤ n → leb m n ≡ true
leb-true m n h = ground arith

ltb-true : (m n : ℕ) → m < n → ltb m n ≡ true
ltb-true m n h = ground arith

module _ (c : Numbers) (time_of-of_time : (t : ℕ) → c.time_of (c.of_time t) ≡ some t)
    (pid max_age : ℕ) (start : Text) (node node' : Node)
    (look : IsLater pid max_age start node node') (known : 0 < pid) where
  abbrev pub seen : Scheduler c → Snapshot
  seen s = record {
    pid = pid;
    loop_age = node'.boottime - node.boottime;
    tick_count = s.tick_count;
    publish_returns = s.publish_returns;
    publish_errors = s.publish_errors;
  }

  check_snapshot-written :
      (s : Scheduler c)
      → 0 < s.tick_count
      → check_snapshot c max_age node' (activity_fields c node pid start s) ≡ ok (seen s)
  unfolding check_snapshot activity_fields get_or_null text_eq
  check_snapshot-written s ticked =
      rw
        (
          nonzero pid known,
          nonzero s.tick_count ticked,
          time_of-of_time,
          leb-true node.boottime node'.boottime look.later,
          leb-true (node'.boottime - node.boottime) max_age look.recent,
          look.same_boot,
          text_eq_refl node.boot_id,
          look.running,
          look.live,
          text_eq_refl start,
        )
        refl

  -- The scheduler after a tick that attempted a write.
  abbrev pub after : ℕ → Scheduler c → Scheduler c
  after attempt_at s = record s {
    tick_count = s.tick_count + 1;
    last_write_attempt = some attempt_at;
  }

  abbrev pub content : ℕ → Scheduler c → Text
  content attempt_at s = c.dumps (obj (activity_fields c node pid start (after attempt_at s)))

  tick-written :
      (attempt_at : ℕ) (s : Scheduler c) (old : Option File) (state : Text)
      → is_too_soon c s.last_write_attempt attempt_at ≡ false
      → node.identity pid ≡ some (state, start)
      → tick c attempt_at node pid true s old ≡ (
        after attempt_at s,
        some (record { regular = true; own = true; content = content attempt_at s }),
      )
  unfolding tick
  tick-written attempt_at s old state soon own = rw (tick, soon, own) refl

  -- What a tick writes is what a later probe reads: if the tick attempted a write, could see its own
  -- process and no step of the write raised, then a probe on the same boot that finds the process running, with the same start, within
  -- its budget of age, returns the counters after that tick and the time since it; for a codec that
  -- reads what it wrote, and a file that is not too large.
  pub read_activity-tick :
      (attempt_at : ℕ) (saved : Bool) (s : Scheduler c) (old : Option File) (state : Text)
      → is_too_soon c s.last_write_attempt attempt_at ≡ false
      → node.identity pid ≡ some (state, start)
      → saved ≡ true
      → 0 < max_age
      → max_age ≤ 3600000000
      → length (content attempt_at s) ≤ max_bytes
      → c.loads (content attempt_at s)
        ≡ some (obj (activity_fields c node pid start (after attempt_at s)))
      → read_activity c max_age node' (tick c attempt_at node pid saved s old).1
        ≡ ok (seen (after attempt_at s))
  unfolding read_activity
  read_activity-tick attempt_at saved s old state soon own went positive budget small reads =
      rw
        (
          went,
          tick-written attempt_at s old state soon own,
          read_activity,
          ltb-true 0 max_age positive,
          leb-true max_age 3600000000 budget,
          leb-true (length (content attempt_at s)) max_bytes small,
          reads,
        )
        (check_snapshot-written (after attempt_at s) (omega arith))
