-- ===== src/Delivery/History/Refines.antt =====
-- The tables refine the log of accepted intents, and stay well formed.
use tpl_backend.Base.{
  ℕ, ◌≡◌, refl, sym, ap, ap₂, subst, ◌∙◌, inl, inr, Bool, true, false, ◌||◌, List, [], ◌∷◌, ◌++◌,
  map, any, find?, Text, text_eq_sym, All, All-append, Bool-cases, Option-cases, Result, ok, err,
  Result-cases, arith, is_some,
}
use tpl_backend.Delivery.Event.{OutboxEvent, EventError, model_validate}
use tpl_backend.Delivery.Store.{Message, Store, pending}
use tpl_backend.Delivery.Outbox.{
  Clock, Jsonb, new_message, same_intent, has_dedup_key, upsert_message, or_different, enqueue,
}
use tpl_backend.Delivery.Tasks.Epochs.{IsKeyed}
use tpl_backend.Delivery.History.{
  Call, enqueues, claims_batch, marks_published, marks_failed, claims_inbox, claims_delivery,
  finishes, reconciles, replays, claims_execution, renews, releases, committed_with, step, run,
  Intent, intent_of, intents, has_key, accept, accept_valid, log_step, log_run,
}
use tpl_backend.Delivery.History.Rows.{IsLeased, IsLeased-pending, IsSingle, Preserves}
use tpl_backend.Delivery.History.Calls
use tpl_backend.Delivery.History.Recoveries
use tpl_backend.Delivery.History.Executions

-- Each key once.
abbrev pub IsKeyedLog : List Intent → Type 0
IsKeyedLog [] = Unit
IsKeyedLog (i ∷ is) = (any (has_key i.deduplication_key) is ≡ false) × IsKeyedLog is

pub record IsWellFormed (s : Store) : Type 0 where
  pub keys : IsKeyedLog (intents s)
  pub leased : All IsLeased s.messages
  pub single : IsSingle s.inbox
  pub keyed : IsKeyed s.executions

has_key-find? :
    (k : Text) (ms : List Message)
    → any (has_key k) (map intent_of ms) ≡ is_some (find? (has_dedup_key k) ms)
has_key-find? k [] = refl
has_key-find? k (m ∷ ms) = ground (arith, has_key-find? k ms)

map-append :
    (ms : List Message) (m : Message)
    → map intent_of (ms ++ m ∷ []) ≡ map intent_of ms ++ intent_of m ∷ []
map-append [] m = refl
map-append (n ∷ ms) m = rw (map-append ms m) refl

-- What an insertion is: the key was there and nothing changes, or it is new and the row is added.
data Inserted (new : Message) (s : Store) : Store → Type 0 where
  held : any (has_key new.deduplication_key) (intents s) ≡ true → Inserted new s s
  added :
      any (has_key new.deduplication_key) (intents s) ≡ false
      → Inserted new s (record s { messages = s.messages ++ new ∷ [] })

upsert_message-Inserted :
    (j : Jsonb) (new : Message) (s : Store)
    → Inserted new s (committed_with s (or_different (upsert_message j new s)))
unfolding upsert_message
upsert_message-Inserted j new s =
    elim (Option-cases (find? (has_dedup_key new.deduplication_key) s.messages)) [
      | inl e ↦
          let free : any (has_key new.deduplication_key) (intents s) ≡ false =
            has_key-find? new.deduplication_key s.messages ∙ ap is_some e in
          rw (e, upsert_message) (added free)
      | inr (old, e) ↦
          let busy : any (has_key new.deduplication_key) (intents s) ≡ true =
            has_key-find? new.deduplication_key s.messages ∙ ap is_some e in
          elim (Bool-cases (same_intent j old new)) [
            | inl f ↦ rw (e, upsert_message, f) (held busy)
            | inr f ↦ rw (e, upsert_message, f) (held busy)
          ]
    ]

Inserted-log :
    {new : Message} {s s' : Store}
    → Inserted new s s'
    → intents s' ≡ accept (intent_of new) (intents s)
Inserted-log (held h) = rw h refl
Inserted-log {new} {s} (added h) = rw h (map-append s.messages new)

enqueue-log :
    (j : Jsonb) (c : Clock) (id : ℕ) (e : OutboxEvent) (s : Store)
    → intents (committed_with s (enqueue j c id e s))
      ≡ accept_valid c id (model_validate e) (intents s)
unfolding enqueue
enqueue-log j c id e s = elim (Result-cases (model_validate e)) [
  | inl (e', valid) ↦
      rw (valid, enqueue) (Inserted-log (upsert_message-Inserted j (new_message id c.now e') s))
  | inr (x, bad) ↦ rw (bad, enqueue) refl
]

Inserted-leased :
    {new : Message} {s s' : Store}
    → new.status ≡ pending
    → Inserted new s s'
    → All IsLeased s.messages
    → All IsLeased s'.messages
Inserted-leased p (held h) all = all
Inserted-leased {new} {s} p (added h) all =
    All-append IsLeased s.messages (new ∷ []) all (IsLeased-pending new p, tt)

Inserted-inbox : {new : Message} {s s' : Store} → Inserted new s s' → s'.inbox ≡ s.inbox
Inserted-inbox (held h) = refl
Inserted-inbox (added h) = refl

Inserted-executions :
    {new : Message} {s s' : Store} → Inserted new s s' → s'.executions ≡ s.executions
Inserted-executions (held h) = refl
Inserted-executions (added h) = refl

-- `enqueue` on the other tables, and on the leases.
record Adds (s s' : Store) : Type 0 where
  pub leased : All IsLeased s.messages → All IsLeased s'.messages
  pub inbox : s'.inbox ≡ s.inbox
  pub executions : s'.executions ≡ s.executions

enqueue-Adds :
    (j : Jsonb) (c : Clock) (id : ℕ) (e : OutboxEvent) (s : Store)
    → Adds s (committed_with s (enqueue j c id e s))
unfolding enqueue new_message
enqueue-Adds j c id e s = elim (Result-cases (model_validate e)) [
  | inl (e', valid) ↦
      let i = upsert_message-Inserted j (new_message id c.now e') s in
      rw (valid, enqueue)
        (record {
          leased = Inserted-leased refl i;
          inbox = Inserted-inbox i;
          executions = Inserted-executions i;
        })
  | inr (x, bad) ↦ rw (bad, enqueue) (record { leased = λ h. h; inbox = refl; executions = refl })
]

-- What one call does, by the specification.
record Refined (c : Call) (s s' : Store) : Type 0 where
  pub log : intents s' ≡ log_step c (intents s)
  pub leased : All IsLeased s.messages → All IsLeased s'.messages
  pub single : IsSingle s.inbox → IsSingle s'.inbox
  pub keyed : IsKeyed s.executions → IsKeyed s'.executions

kept :
    (c : Call) (s s' : Store) → log_step c (intents s) ≡ intents s → Preserves s s' → Refined c s s'
kept c s s' e p = record {
  log = p.log ∙ sym e;
  leased = p.leased;
  single = p.single;
  keyed = p.keyed;
}

enqueued :
    (j : Jsonb) (c : Clock) (id : ℕ) (e : OutboxEvent) (s : Store)
    → Refined (enqueues j c id e) s (step (enqueues j c id e) s)
unfolding step log_step
enqueued j c id e s =
    let a = enqueue-Adds j c id e s in
    record {
      log = enqueue-log j c id e s;
      leased = a.leased;
      single = λ h. rw a.inbox h;
      keyed = λ h. rw a.executions h;
    }

step-Refined : (c : Call) (s : Store) → Refined c s (step c s)
unfolding step log_step
step-Refined (enqueues j c id e) s = enqueued j c id e s
step-Refined (claims_batch c locked owner limit ttl) s =
    kept _ s _ refl (Calls.claim_batch-Preserves c locked owner limit ttl s)
step-Refined (marks_published c id owner) s =
    kept _ s _ refl (Calls.mark_published-Preserves c id owner s)
step-Refined (marks_failed c id owner code retry) s =
    kept _ s _ refl (Calls.mark_failed-Preserves c id owner code retry s)
step-Refined (claims_inbox now consumer id) s =
    kept _ s _ refl (Calls.claim_inbox_once-Preserves now consumer id s)
step-Refined (claims_delivery p t locked owner) s =
    kept _ s _ refl (Calls.claim_delivery-Preserves p t locked owner s)
step-Refined (finishes p t m error) s =
    kept _ s _ refl (Recoveries.finish_delivery-Preserves p t m error s)
step-Refined (reconciles p us) s = kept _ s _ refl (Recoveries.reconcile-Preserves p us s)
step-Refined (replays p t id) s = kept _ s _ refl (Recoveries.replay-Preserves p t id s)
step-Refined (claims_execution p t t' owner id seen) s =
    kept _ s _ refl (Executions.claim_execution-Preserves p t t' owner id seen s)
step-Refined (renews p l t) s = kept _ s _ refl (Executions.renew-Preserves p l t s)
step-Refined (releases l) s = kept _ s _ refl (Executions.release-Preserves l s)

-- Whatever is called, in whatever order and with whatever clocks and locks: the rows of the outbox
-- say what the log says in which each `enqueue` of a valid event appends its intent if its
-- deduplication key is new, and in which no other call leaves a trace.
pub run_refines : (cs : List Call) (s : Store) → intents (run cs s) ≡ log_run cs (intents s)
unfolding run log_run
run_refines [] s = refl
run_refines (c ∷ cs) s = run_refines cs (step c s) ∙ ap (log_run cs) (step-Refined c s).log

any-append_intent :
    (k : Text) (log : List Intent) (i : Intent)
    → any (has_key k) (log ++ i ∷ []) ≡ (any (has_key k) log || has_key k i)
any-append_intent k [] i = ground arith
any-append_intent k (x ∷ log) i = ground (arith, any-append_intent k log i)

or_none : (a b : Bool) → (a || b) ≡ false → (a ≡ false) × (b ≡ false)
or_none a b h = ground arith

IsKeyedLog-append :
    (log : List Intent) (i : Intent)
    → IsKeyedLog log
    → any (has_key i.deduplication_key) log ≡ false
    → IsKeyedLog (log ++ i ∷ [])
IsKeyedLog-append [] i h n = (refl, tt)
IsKeyedLog-append (x ∷ log) i (k, h) n =
    let (here, rest) = or_none (has_key i.deduplication_key x) _ n in
    (
      any-append_intent x.deduplication_key log i
          ∙ ap₂ ◌||◌ k (text_eq_sym i.deduplication_key x.deduplication_key ∙ here),
      IsKeyedLog-append log i h rest,
    )

accept-IsKeyedLog : (i : Intent) (log : List Intent) → IsKeyedLog log → IsKeyedLog (accept i log)
accept-IsKeyedLog i log h = elim (Bool-cases (any (has_key i.deduplication_key) log)) [
  | inl e ↦ rw (e, accept) h
  | inr e ↦ rw (e, accept) (IsKeyedLog-append log i h e)
]

accept_valid-IsKeyedLog :
    (c : Clock) (id : ℕ) (v : Result EventError OutboxEvent) (log : List Intent)
    → IsKeyedLog log
    → IsKeyedLog (accept_valid c id v log)
accept_valid-IsKeyedLog c id (err e) log h = h
accept_valid-IsKeyedLog c id (ok e) log h =
    accept-IsKeyedLog (intent_of (new_message id c.now e)) log h

log_step-IsKeyedLog : (c : Call) (log : List Intent) → IsKeyedLog log → IsKeyedLog (log_step c log)
unfolding log_step
log_step-IsKeyedLog (enqueues j c id e) log h =
    accept_valid-IsKeyedLog c id (model_validate e) log h
log_step-IsKeyedLog _ log h = h

step-IsWellFormed : (c : Call) (s : Store) → IsWellFormed s → IsWellFormed (step c s)
step-IsWellFormed c s w =
    let r = step-Refined c s in
    record {
      keys = subst IsKeyedLog (sym r.log) (log_step-IsKeyedLog c (intents s) w.keys);
      leased = r.leased w.leased;
      single = r.single w.single;
      keyed = r.keyed w.keyed;
    }

-- From a database that is well formed, every sequence of calls leads to one that is: no two rows have
-- a deduplication key in common, every row in delivery has an owner and an end of its lease, and a
-- consumer has at most one receipt for a message and a resource at most one execution.
pub run-IsWellFormed : (cs : List Call) (s : Store) → IsWellFormed s → IsWellFormed (run cs s)
unfolding run
run-IsWellFormed [] s w = w
run-IsWellFormed (c ∷ cs) s w = run-IsWellFormed cs (step c s) (step-IsWellFormed c s w)
