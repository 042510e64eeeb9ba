-- ===== src/Delivery/History/Rows.antt =====
-- What the calls other than `enqueue` keep of the tables.
use tpl_backend.Base.{
  ℕ, ◌≡◌, refl, sym, ap, ap₂, text_eq_sym, ◌∙◌, inl, inr, Bool, false, ◌||◌, some, List, [], ◌∷◌,
  ◌++◌, Text, any, map, update, All, All-update, Bool-cases, arith,
}
use tpl_backend.Delivery.Store.{
  Status, pending, delivering, published, Message, Receipt, Store, is_receipt, is_received,
}
use tpl_backend.Delivery.Outbox.{insert_receipt}
use tpl_backend.Delivery.Policy.{dead_letter}
use tpl_backend.Delivery.Policy.Journal.{
  dead_letter-messages, dead_letter-inbox, dead_letter-executions,
}
use tpl_backend.Delivery.Tasks.Epochs.{IsKeyed, Advances}
use tpl_backend.Delivery.History.{intent_of, intents}

-- A row in delivery has an owner and an end of its lease, so that it can be claimed again.
unfoldable pub IsLeased : Message → Type 0
IsLeased m =
    m.status ≡ delivering
    → ((o : Text) × (m.lease_owner ≡ some o)) × ((t : ℕ) × (m.lease_expires_at ≡ some t))

-- One receipt for a consumer and a message, as the primary key has it.
abbrev pub IsSingle : List Receipt → Type 0
IsSingle [] = Unit
IsSingle (r ∷ rs) = (any (is_receipt r.consumer r.message_id) rs ≡ false) × IsSingle rs

pub record Preserves (s s' : Store) : Type 0 where
  pub log : intents s' ≡ intents s
  pub leased : All IsLeased s.messages → All IsLeased s'.messages
  pub single : IsSingle s.inbox → IsSingle s'.inbox
  pub keyed : IsKeyed s.executions → IsKeyed s'.executions

pub Preserves-refl : (s : Store) → Preserves s s
Preserves-refl s = record { log = refl; leased = λ h. h; single = λ h. h; keyed = λ h. h }

pub Preserves-trans : {a b c : Store} → Preserves a b → Preserves b c → Preserves a c
Preserves-trans ab bc = record {
  log = bc.log ∙ ab.log;
  leased = λ h. bc.leased (ab.leased h);
  single = λ h. bc.single (ab.single h);
  keyed = λ h. bc.keyed (ab.keyed h);
}

map-update :
    (p : Message → Bool) (f : Message → Message) (ms : List Message)
    → ((m : Message) → intent_of (f m) ≡ intent_of m)
    → map intent_of (update p f ms) ≡ map intent_of ms
map-update p f [] same = refl
map-update p f (m ∷ ms) same = elim (Bool-cases (p m)) [
  | inl e ↦ rw (e, same m, map-update p f ms same) refl
  | inr e ↦ rw (e, map-update p f ms same) refl
]

-- An update of rows that keeps what they were made of, and leaves none in delivery without a lease.
pub update-Preserves :
    (p : Message → Bool) (f : Message → Message) (s : Store)
    → ((m : Message) → intent_of (f m) ≡ intent_of m)
    → ((m : Message) → IsLeased (f m))
    → Preserves s (record s { messages = update p f s.messages })
update-Preserves p f s same leased = record {
  log = map-update p f s.messages same;
  leased = λ h. All-update IsLeased p f s.messages (λ m e q. leased m) h;
  single = λ h. h;
  keyed = λ h. h;
}

-- A status other than `delivering` needs no lease.
pub IsLeased-pending : (m : Message) → m.status ≡ pending → IsLeased m
unfolding IsLeased
IsLeased-pending m e d = let no : ◌≡◌ {A = Status} pending delivering = sym e ∙ d in cc

pub IsLeased-published : (m : Message) → m.status ≡ published → IsLeased m
unfolding IsLeased
IsLeased-published m e d = let no : ◌≡◌ {A = Status} published delivering = sym e ∙ d in cc

pub same_tables-Preserves :
    (s s' : Store)
    → s'.messages ≡ s.messages
    → s'.inbox ≡ s.inbox
    → (IsKeyed s.executions → IsKeyed s'.executions)
    → Preserves s s'
same_tables-Preserves s s' m i k = record {
  log = ap (map intent_of) m;
  leased = λ h. rw m h;
  single = λ h. rw i h;
  keyed = k;
}

pub dead_letter-Preserves : (t id : ℕ) (e : Text) (s : Store) → Preserves s (dead_letter t id e s)
dead_letter-Preserves t id e s =
    same_tables-Preserves s (dead_letter t id e s) (dead_letter-messages t id e s)
      (dead_letter-inbox t id e s) (λ h. rw (dead_letter-executions t id e s) h)

pub Advances-Preserves : (s s' : Store) → s'.messages ≡ s.messages → Advances s s' → Preserves s s'
Advances-Preserves s s' m a = same_tables-Preserves s s' m a.inbox a.keyed

any-append_row :
    (consumer : Text) (id : ℕ) (rs : List Receipt) (r : Receipt)
    → any (is_receipt consumer id) (rs ++ r ∷ [])
      ≡ (any (is_receipt consumer id) rs || is_receipt consumer id r)
any-append_row consumer id [] r = ground arith
any-append_row consumer id (q ∷ rs) r = ground (arith, any-append_row consumer id rs r)

is_receipt-apart :
    (q r : Receipt)
    → is_receipt r.consumer r.message_id q ≡ false
    → is_receipt q.consumer q.message_id r ≡ false
unfolding is_receipt
is_receipt-apart q r h = ground (arith, text_eq_sym q.consumer r.consumer)

or_none : (a b : Bool) → (a || b) ≡ false → (a ≡ false) × (b ≡ false)
or_none a b h = ground arith

IsSingle-append :
    (rs : List Receipt) (r : Receipt)
    → IsSingle rs
    → any (is_receipt r.consumer r.message_id) rs ≡ false
    → IsSingle (rs ++ r ∷ [])
IsSingle-append [] r h n = (refl, tt)
IsSingle-append (q ∷ rs) r (k, h) n =
    let apart = is_receipt-apart q r (or_none _ _ n).0 in
    (
      any-append_row q.consumer q.message_id rs r ∙ ap₂ ◌||◌ k apart,
      IsSingle-append rs r h (or_none (is_receipt r.consumer r.message_id q) _ n).1,
    )

pub insert_receipt-Preserves :
    (now : ℕ) (consumer : Text) (id : ℕ) (s : Store)
    → Preserves s (insert_receipt now consumer id s).1
unfolding insert_receipt is_received
insert_receipt-Preserves now consumer id s = elim (Bool-cases (is_received s consumer id)) [
  | inl old ↦ rw (old, insert_receipt) (Preserves-refl s)
  | inr new ↦
      rw (new, insert_receipt)
        (record {
          log = refl;
          leased = λ h. h;
          single = λ h. IsSingle-append s.inbox _ h new;
          keyed = λ h. h;
        })
]
