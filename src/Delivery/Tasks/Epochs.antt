-- ===== src/Delivery/Tasks/Epochs.antt =====
-- The fencing epochs of durable_tasks.py: what each operation on `outbox_execution` does to them.
use tpl_backend.Base.{
  ℕ, ◌+◌, ◌≤◌, ◌≡◌, refl, ◌∙◌, inl, inr, Bool, false, Option, none, some, List, [], ◌∷◌, ◌++◌, Text,
  text_eq, text_eq_refl, text_eq_iff, any, find?, update, if◌then◌else◌, Bool-cases, Option-cases,
  arith,
}
use tpl_backend.Delivery.Store.{stamp_le, Execution, Store}
use tpl_backend.Delivery.Tasks.{has_resource, upsert_execution}

-- The epoch of a resource, 0 where it has no row.
unfoldable pub epoch_at : Text → List Execution → ℕ
epoch_at k [] = 0
epoch_at k (r ∷ rs) = if text_eq r.resource_key k then r.epoch else epoch_at k rs

-- One row for a key, as the primary key has it.
abbrev pub IsKeyed : List Execution → Type 0
IsKeyed [] = Unit
IsKeyed (r ∷ rs) = (any (has_resource r.resource_key) rs ≡ false) × IsKeyed rs

-- What an operation that commits no receipt does.
pub record Advances (s s' : Store) : Type 0 where
  pub inbox : s'.inbox ≡ s.inbox
  pub epochs : (k : Text) → epoch_at k s.executions ≤ epoch_at k s'.executions
  pub keyed : IsKeyed s.executions → IsKeyed s'.executions

pub Advances-refl : (s : Store) → Advances s s
Advances-refl s = record { inbox = refl; epochs = λ k. omega arith; keyed = λ h. h }

module _ (p : Execution → Bool) (f : Execution → Execution)
    (same_key : (r : Execution) → (f r).resource_key ≡ r.resource_key) where
  any-update :
      (k : Text) (rs : List Execution)
      → any (has_resource k) (update p f rs) ≡ any (has_resource k) rs
  any-update k [] = refl
  any-update k (r ∷ rs) = ground (arith, same_key r, any-update k rs)

  IsKeyed-update : (rs : List Execution) → IsKeyed rs → IsKeyed (update p f rs)
  IsKeyed-update [] h = tt
  IsKeyed-update (r ∷ rs) (q, h) = elim (Bool-cases (p r)) [
    | inl e ↦ rw (e, same_key r, any-update r.resource_key rs) (q, IsKeyed-update rs h)
    | inr e ↦ rw (e, any-update r.resource_key rs) (q, IsKeyed-update rs h)
  ]

  epoch_at-update_le :
      ((r : Execution) → r.epoch ≤ (f r).epoch)
      → (k : Text) (rs : List Execution) → epoch_at k rs ≤ epoch_at k (update p f rs)
  unfolding epoch_at
  epoch_at-update_le up k [] = omega arith
  epoch_at-update_le up k (r ∷ rs) = ground (arith, same_key r, up r, epoch_at-update_le up k rs)

-- An update of rows that lowers no epoch and moves no key.
pub update-Advances :
    (p : Execution → Bool) (f : Execution → Execution) (s : Store)
    → ((r : Execution) → (f r).resource_key ≡ r.resource_key)
    → ((r : Execution) → r.epoch ≤ (f r).epoch)
    → Advances s (record s { executions = update p f s.executions })
update-Advances p f s same up = record {
  inbox = refl;
  epochs = λ k. epoch_at-update_le p f same up k s.executions;
  keyed = IsKeyed-update p f same s.executions;
}

epoch_at-append :
    (k : Text) (rs : List Execution) (n : Execution) → epoch_at k rs ≤ epoch_at k (rs ++ n ∷ [])
unfolding epoch_at
epoch_at-append k [] n = omega arith
epoch_at-append k (r ∷ rs) n = ground (arith, epoch_at-append k rs n)

any-append_other :
    (k : Text) (rs : List Execution) (n : Execution)
    → text_eq n.resource_key k ≡ false
    → any (has_resource k) (rs ++ n ∷ []) ≡ any (has_resource k) rs
any-append_other k [] n h = rw h
any-append_other k (r ∷ rs) n h = rw (any-append_other k rs n h)

text_eq_sym_false : (s t : Text) → text_eq s t ≡ false → text_eq t s ≡ false
text_eq_sym_false s t h = ground (arith, text_eq_iff s t, text_eq_iff t s)

IsKeyed-append :
    (rs : List Execution) (n : Execution)
    → IsKeyed rs
    → find? (has_resource n.resource_key) rs ≡ none
    → IsKeyed (rs ++ n ∷ [])
IsKeyed-append [] n h e = (refl, tt)
IsKeyed-append (r ∷ rs) n (q, h) e = elim (Bool-cases (text_eq r.resource_key n.resource_key)) [
  | inl same ↦ let found : some r ≡ none = rw same at e in cc
  | inr other ↦ (
    any-append_other r.resource_key rs n (text_eq_sym_false _ _ other) ∙ q,
    IsKeyed-append rs n h (rw other at e),
  )
]

append-Advances :
    (s : Store) (n : Execution)
    → find? (has_resource n.resource_key) s.executions ≡ none
    → Advances s (record s { executions = s.executions ++ n ∷ [] })
append-Advances s n e = record {
  inbox = refl;
  epochs = λ k. epoch_at-append k s.executions n;
  keyed = λ h. IsKeyed-append s.executions n h e;
}

epoch_at-none :
    (k : Text) (rs : List Execution) → find? (has_resource k) rs ≡ none → epoch_at k rs ≡ 0
unfolding epoch_at
epoch_at-none k [] e = refl
epoch_at-none k (r ∷ rs) e = ground (arith, epoch_at-none k rs)

epoch_at-append_new :
    (rs : List Execution) (n : Execution)
    → find? (has_resource n.resource_key) rs ≡ none
    → epoch_at n.resource_key (rs ++ n ∷ []) ≡ n.epoch
unfolding epoch_at
epoch_at-append_new [] n e = ground (arith, text_eq_refl n.resource_key)
epoch_at-append_new (r ∷ rs) n e = ground (arith, epoch_at-append_new rs n)

epoch_at-some :
    (k : Text) (rs : List Execution) (r : Execution)
    → find? (has_resource k) rs ≡ some r
    → epoch_at k rs ≡ r.epoch
unfolding epoch_at
epoch_at-some k [] r e = cc
epoch_at-some k (q ∷ rs) r e = ground (arith, epoch_at-some k rs r)

epoch_at-update_self :
    (k : Text) (rs : List Execution) (r : Execution) (f : Execution → Execution)
    → ((q : Execution) → (f q).resource_key ≡ q.resource_key)
    → ((q : Execution) → (f q).epoch ≡ q.epoch + 1)
    → find? (has_resource k) rs ≡ some r
    → epoch_at k (update (has_resource k) f rs) ≡ r.epoch + 1
unfolding epoch_at
epoch_at-update_self k [] r f same up e = cc
epoch_at-update_self k (q ∷ rs) r f same up e =
    ground (arith, same q, up q, epoch_at-update_self k rs r f same up)

-- The epoch that the upsert returns is the resource's new one, and one above its old one.
pub record Bumped (k : Text) (s s' : Store) (e : ℕ) : Type 0 where
  pub advances : Advances s s'
  pub old : epoch_at k s.executions + 1 ≡ e
  pub new : epoch_at k s'.executions ≡ e

-- What the upsert does: a new row, a free row taken over, or a held row left alone.
data Upserted (k : Text) (s : Store) : Option ℕ → Store → Type 0 where
  inserted :
      (n : Execution)
      → find? (has_resource k) s.executions ≡ none
      → n.resource_key ≡ k
      → n.epoch ≡ 1
      → Upserted k s (some 1) (record s { executions = s.executions ++ n ∷ [] })
  taken :
      (l : Execution) (f : Execution → Execution)
      → find? (has_resource k) s.executions ≡ some l
      → ((r : Execution) → (f r).resource_key ≡ r.resource_key)
      → ((r : Execution) → (f r).epoch ≡ r.epoch + 1)
      → Upserted k s
          (some (l.epoch + 1))
          (record s { executions = update (has_resource k) f s.executions })
  held : Upserted k s none s

upsert_execution-Upserted :
    (t : ℕ) (k : Text) (id owner ttl : ℕ) (s : Store)
    → Upserted k s (upsert_execution t k id owner ttl s).0 (upsert_execution t k id owner ttl s).1
unfolding upsert_execution
upsert_execution-Upserted t k id owner ttl s =
    elim (Option-cases (find? (has_resource k) s.executions)) [
      | inl e ↦ rw (e, upsert_execution) (inserted _ e refl refl)
      | inr (l, e) ↦ elim (Bool-cases (stamp_le l.expires_at t)) [
        | inl free ↦ rw (e, upsert_execution, free) (taken l _ e (λ r. refl) (λ r. refl))
        | inr busy ↦ rw (e, upsert_execution, busy) held
      ]
    ]

Upserted-Advances : {k : Text} {s s' : Store} {o : Option ℕ} → Upserted k s o s' → Advances s s'
Upserted-Advances {s} (inserted n e key one) = append-Advances s n (rw key e)
Upserted-Advances {s} (taken l f e same up) =
    update-Advances _ f s same (λ r. let u = up r in omega arith)
Upserted-Advances {s} held = Advances-refl s

Upserted-Bumped :
    {k : Text} {s s' : Store} {o : Option ℕ} (e : ℕ)
    → Upserted k s o s'
    → o ≡ some e
    → Bumped k s s' e
Upserted-Bumped {k} {s} e (inserted n missing key one) h =
    let same : 1 ≡ e = ground arith in
    record {
      advances = append-Advances s n (rw key missing);
      old = omega (arith, epoch_at-none k s.executions missing);
      new = rw (← key) (epoch_at-append_new s.executions n (rw key missing)) ∙ one ∙ same;
    }
Upserted-Bumped {k} {s} e (taken l f found same up) h =
    let eq : l.epoch + 1 ≡ e = ground arith in
    record {
      advances = update-Advances _ f s same (λ r. let u = up r in omega arith);
      old = omega (arith, epoch_at-some k s.executions l found);
      new = epoch_at-update_self k s.executions l f same up found ∙ eq;
    }
Upserted-Bumped e held h = cc

module _ (t : ℕ) (k : Text) (id owner ttl : ℕ) (s : Store) where
  pub upsert_execution-Advances : Advances s (upsert_execution t k id owner ttl s).1
  upsert_execution-Advances = Upserted-Advances (upsert_execution-Upserted t k id owner ttl s)

  pub upsert_execution-Bumped :
      (e : ℕ)
      → (upsert_execution t k id owner ttl s).0 ≡ some e
      → Bumped k s (upsert_execution t k id owner ttl s).1 e
  upsert_execution-Bumped e h = Upserted-Bumped e (upsert_execution-Upserted t k id owner ttl s) h
