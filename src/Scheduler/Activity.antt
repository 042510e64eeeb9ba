-- ===== src/Scheduler/Activity.antt =====
-- What the reader of the activity of Beat believes, and that it believes what Beat wrote.
use tpl_backend.Base.{
  ℕ, ◌+◌, ◌-◌, ◌≤◌, ◌<◌, ◌≡◌, ap, ◌∙◌, Bool, true, not, ◌&&◌, Option, none, some, Text, codes,
  text_eq_sound, contains, contains_sound, In, length, leb, ltb, ◌==◌, ok, >>=-elim, require,
  or_raise, ok-injective, ok-to, arith,
}
use tpl_backend.Base.Json.{Json, int, str, obj, Fields, get_or_null}
use tpl_backend.Settings.Profiles.{require-true}
use tpl_backend.Scheduler.{
  ActivityError, invalid_budget, no_file, invalid_file, too_large, invalid_json, invalid_schema,
  no_tick, invalid_tick, stale, inactive, no_process, File, Node, Numbers, Snapshot, max_bytes,
  counter, document, is_one, is_value, live_states, check_snapshot, read_activity,
}

or_raise-ok :
    {A : Type 0} (o : Option A) (e : ActivityError) (a : A) → or_raise o e ≡ ok a → o ≡ some a
or_raise-ok none e a h = cc
or_raise-ok (some b) e a h = ap (λ q. some q) (ok-injective {E = ActivityError} h)

counter-int : (v : Json) (n : ℕ) → counter v ≡ ok n → v ≡ int n
counter-int (int m) n h = ap (λ q. int q) (ok-injective {E = ActivityError} h)
counter-int _ n h = cc

value-str : (v : Json) (t : Text) → is_value v t ≡ true → v ≡ str t
value-str (str s) t h = ap (λ q. str q) (text_eq_sound s t h)
value-str _ t h = cc

document-obj : (v : Json) (fs : Fields) → document v ≡ ok fs → v ≡ obj fs
document-obj (obj fs) gs h = ap (λ q. obj q) (ok-injective {E = ActivityError} h)
document-obj _ gs h = cc

module _ (c : Numbers) (max_age : ℕ) (node : Node) where
  -- The decoded file is of a scheduler that is alive on this boot and has ticked lately.
  pub record IsAlive (fs : Fields) (a : Snapshot) : Type 0 where
    pub pid_is : get_or_null (codes "pid") fs ≡ int a.pid
    pub ticks_is : get_or_null (codes "tick_count") fs ≡ int a.tick_count
    pub ticked : 0 < a.tick_count
    pub tick_at : ℕ
    pub tick_is : c.time_of (get_or_null (codes "tick_boottime") fs) ≡ some tick_at
    pub aged : tick_at + a.loop_age ≡ node.boottime
    pub recent : a.loop_age ≤ max_age
    pub same_boot : get_or_null (codes "boot_id") fs ≡ str node.boot_id
    pub process : Text × Text
    pub running : node.identity a.pid ≡ some process
    pub live : In process.0 live_states
    pub same_process : get_or_null (codes "process_start") fs ≡ str process.1

  two : (p q : Bool) → (p && q) ≡ true → (p ≡ true) × (q ≡ true)
  two p q h = ground arith

  three : (p q r : Bool) → (p && q && r) ≡ true → (p ≡ true) × (q ≡ true) × (r ≡ true)
  three p q r h = (ground arith, ground arith, ground arith)

  positive : (n : ℕ) → not (n == 0) ≡ true → 0 < n
  positive n h = ground arith

  elapsed : (t b : ℕ) → leb t b ≡ true → t + (b - t) ≡ b
  elapsed t b h = ground arith

  at_most : (m n : ℕ) → leb m n ≡ true → m ≤ n
  at_most m n h = ground arith

  check_snapshot-IsAlive :
      (fs : Fields) (a : Snapshot) → check_snapshot c max_age node fs ≡ ok a → IsAlive fs a
  unfolding check_snapshot
  check_snapshot-IsAlive fs a h =
      let schema = is_one (get_or_null (codes "schema_version") fs) in
      >>=-elim (require schema invalid_schema) _ h λ u0 e0 h0.
        >>=-elim (counter (get_or_null (codes "pid") fs)) _ h0 λ pid e1 h1.
          >>=-elim (counter (get_or_null (codes "tick_count") fs)) _ h1 λ ticks e2 h2.
            >>=-elim (counter (get_or_null (codes "publish_returns") fs)) _ h2 λ returns e3 h3.
              >>=-elim (counter (get_or_null (codes "publish_errors") fs)) _ h3 λ errors e4 h4.
                >>=-elim (require (not (pid == 0) && not (ticks == 0)) no_tick) _ h4 λ u5 e5 h5.
                  >>=-elim
                    (or_raise (c.time_of (get_or_null (codes "tick_boottime") fs)) invalid_tick) _
                    h5
                    λ tick_at e6 h6.
                      >>=-elim
                        (require
                          (leb tick_at node.boottime
                            && leb (node.boottime - tick_at) max_age
                            && is_value (get_or_null (codes "boot_id") fs) node.boot_id)
                          stale)
                        _ h6
                        λ u7 e7 h7.
                          >>=-elim (or_raise (node.identity pid) no_process) _ h7 λ process e8 h8.
                            >>=-elim
                              (require
                                (contains live_states process.0
                                  && is_value (get_or_null (codes "process_start") fs) process.1)
                                inactive)
                              _ h8
                              λ u9 e9 h9.
                                let (not_zero, ticked) = two _ _ (require-true _ _ u5 e5) in
                                let (past, recent, boot) = three _ _ _ (require-true _ _ u7 e7) in
                                let (live, started) = two _ _ (require-true _ _ u9 e9) in
                                ok-to {E = ActivityError} (IsAlive fs) h9 (record {
                                  pid_is = counter-int _ pid e1;
                                  ticks_is = counter-int _ ticks e2;
                                  ticked = positive ticks ticked;
                                  tick_at = tick_at;
                                  tick_is = or_raise-ok _ _ tick_at e6;
                                  aged = elapsed tick_at node.boottime past;
                                  recent = at_most _ max_age recent;
                                  same_boot = value-str _ _ boot;
                                  process = process;
                                  running = or_raise-ok _ _ process e8;
                                  live = contains_sound live_states process.0 live;
                                  same_process = value-str _ _ started;
                                })

  pub record IsBelieved (found : Option File) (a : Snapshot) : Type 0 where
    pub file : File
    pub opened : found ≡ some file
    pub regular : file.regular ≡ true
    pub own : file.own ≡ true
    pub bounded : length file.content ≤ max_bytes
    pub fields : Fields
    pub decoded : c.loads file.content ≡ some (obj fields)
    pub alive : IsAlive fields a

  -- Where `read_activity` returns, it has read a regular file of this user of at most 4096 bytes
  -- that names a process which is running with the start that the file gives, on this boot, and a
  -- completed tick that is no longer ago than the budget; age, process and ticks are the file's.
  pub read_activity-IsBelieved :
      (found : Option File) (a : Snapshot)
      → read_activity c max_age node found ≡ ok a
      → IsBelieved found a
  unfolding read_activity
  read_activity-IsBelieved found a h =
      >>=-elim (require (ltb 0 max_age && leb max_age 3600000000) invalid_budget) _ h λ u0 e0 h0.
        >>=-elim (or_raise found no_file) _ h0 λ file e1 h1.
          >>=-elim (require (file.regular && file.own) invalid_file) _ h1 λ u2 e2 h2.
            >>=-elim (require (leb (length file.content) max_bytes) too_large) _ h2 λ u3 e3 h3.
              >>=-elim (or_raise (c.loads file.content) invalid_json) _ h3 λ raw e4 h4.
                >>=-elim (document raw) _ h4 λ fs e5 h5.
                  let (regular, own) = two _ _ (require-true _ _ u2 e2) in
                  record {
                    file = file;
                    opened = or_raise-ok found _ file e1;
                    regular = regular;
                    own = own;
                    bounded = at_most _ max_bytes (require-true _ _ u3 e3);
                    fields = fs;
                    decoded = or_raise-ok _ _ raw e4 ∙ ap (λ q. some q) (document-obj raw fs e5);
                    alive = check_snapshot-IsAlive fs a h5;
                  }
