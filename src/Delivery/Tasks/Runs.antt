-- ===== src/Delivery/Tasks/Runs.antt =====
-- `consume` of durable_tasks.py: the handler's transactions, the heartbeat and the release. The guard of
-- a commit is an exception that no handler catches.
use tpl_backend.Base.{
  ℕ, ◌+◌, Bool, true, false, Option, none, some, leb, if◌then◌else◌, Result, ok, err,
}
use tpl_backend.Base.Json.{Json}
use tpl_backend.Delivery.Store.{Message, Store, lease_lost, malformed_header}
use tpl_backend.Delivery.Policy.{Policy}
use tpl_backend.Delivery.Tasks.{
  ConsumerLease, claim_execution, select_raises, check_lease, assert_execution_current, release,
  TaskError, delivery, handler_failed, lift, commit_run,
}

-- A handler at work: the transaction that it leaves to `consume` to commit, or one that it commits
-- itself, and how it goes on. `none` is an exception.
pub data Work (Domain : Type 0) : Type 0 where
  last : (Domain → Option Domain) → Work Domain
  progress : (Domain → Option Domain) → (Domain → Work Domain) → Work Domain

-- What other transactions commit while `consume` runs, and the clocks of its statements; the
-- transactions of the handler are numbered.
pub record Schedule (Domain : Type 0) : Type 0 where
  pub selected_at : ℕ
  pub upsert_at : ℕ
  pub started_at : ℕ
  pub begun_at : ℕ → ℕ
  pub commit_at : ℕ → ℕ
  pub before_upsert : Store → Store
  pub before_start : Store → Store
  pub before_commit : ℕ → Store × Domain → Store × Domain
  pub before_release : Store × Domain → Store × Domain
  -- the heartbeat raised while `execute` ran, or with it: before which transaction of the handler the
  -- cancellation came, if there was one left
  pub heartbeat_lost : Option ℕ

-- Whether the heartbeat has raised by the transaction `n`.
abbrev pub is_cancelled : Option ℕ → ℕ → Bool
is_cancelled none n = false
is_cancelled (some k) n = leb k n

module _ {Domain : Type 0} where
  -- `s.commit()` at the end of `execute`, or its exception; `w` is what others have left.
  abbrev pub keep_last :
      Store × Domain → Result TaskError (Store × Domain) → Result TaskError Bool × (Store × Domain)
  keep_last w (err e) = (err e, w)
  keep_last w (ok w') = (ok true, w')

  -- The handler at its transaction `n`, with the guard of each commit, and the receipt in the last.
  unfoldable pub run_work :
      Schedule Domain
      → ConsumerLease
      → Message
      → ℕ
      → Work Domain
      → Store × Domain
      → Result TaskError Bool × (Store × Domain)
  unfolding commit_run check_lease
  run_work c l m n (last f) w =
      let v = c.before_commit n w in
      if is_cancelled c.heartbeat_lost n then (err (delivery lease_lost), v) else elim (f v.1) [
        | none ↦ (err handler_failed, v)
        | some d ↦ keep_last v (commit_run l m (c.begun_at n) (c.commit_at n) v.0 d)
      ]
  run_work c l m n (progress f k) w =
      let v = c.before_commit n w in
      if is_cancelled c.heartbeat_lost n then (err (delivery lease_lost), v) else elim (f v.1) [
        | none ↦ (err handler_failed, v)
        | some d ↦
            let rest = run_work c l m (n + 1) (k d) (v.0, d) in
            if check_lease l (c.commit_at n) v.0 then rest else (err (delivery lease_lost), v)
      ]

  -- `if renewal in done: await renewal` comes before the result of `execute`, which may have committed.
  abbrev pub settle :
      Option ℕ → Result TaskError Bool × (Store × Domain) → Result TaskError Bool × (Store × Domain)
  settle none r = r
  settle (some n) r = (err (delivery lease_lost), r.1)

  -- `assert_execution_current`, before the handler starts.
  abbrev pub begin_work :
      Result TaskError (Unit {0})
      → Store × Domain
      → Result TaskError Bool × (Store × Domain)
      → Result TaskError Bool × (Store × Domain)
  begin_work (err e) w r = (err e, w)
  begin_work (ok u) w r = r

  -- The body of `consume` under a lease, up to its `finally`.
  unfoldable pub run_tasks :
      (Json → Work Domain)
      → Schedule Domain
      → ConsumerLease
      → Message
      → Store
      → Domain
      → Result TaskError Bool × (Store × Domain)
  unfolding assert_execution_current run_work
  run_tasks handler c l m s d =
      let started = c.before_start s in
      settle c.heartbeat_lost (
        begin_work (lift (assert_execution_current (some l) c.started_at started)) (started, d)
          (run_work c l m 0 (handler m.payload) (started, d)))

  -- The `finally` of `consume`.
  abbrev pub finally :
      Schedule Domain
      → ConsumerLease
      → Result TaskError Bool × (Store × Domain)
      → Result TaskError Bool × (Store × Domain)
  finally c l (result, w) = let (s, d) = c.before_release w in (result, (release l s, d))

  abbrev pub consume_claimed :
      (Json → Work Domain)
      → Schedule Domain
      → Domain
      → Option (ConsumerLease × Message)
      → Store
      → Result TaskError Bool × (Store × Domain)
  consume_claimed handler c d none s = (ok false, (s, d))
  consume_claimed handler c d (some (l, m)) s = finally c l (run_tasks handler c l m s d)

  unfoldable pub consume :
      Policy
      → (Json → Work Domain)
      → Schedule Domain
      → ℕ
      → ℕ
      → Store × Domain
      → Result TaskError Bool × (Store × Domain)
  unfolding claim_execution run_tasks release select_raises
  consume p handler c owner id (s, d) =
      let claimed = claim_execution p c.selected_at c.upsert_at owner id s (c.before_upsert s) in
      if select_raises p id s
      then (err (delivery malformed_header), (s, d))
      else consume_claimed handler c d claimed.0 claimed.1
