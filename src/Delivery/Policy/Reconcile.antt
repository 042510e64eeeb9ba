-- ===== src/Delivery/Policy/Reconcile.antt =====
-- `reconcile` of durable_delivery.py: no message stays stuck.
use tpl_backend.Base.{
  ℕ, ◌+◌, ◌≡◌, ◌⊎◌, refl, sym, ap, ◌∙◌, inl, inr, Bool, true, not, ◌&&◌, ◌||◌, Option, none, some,
  List, [], ◌∷◌, Text, filter, update, leb, ◌==◌, ==_refl, Bool-cases, In, Updated, kept, assigned,
  In-update, arith,
}
use tpl_backend.Delivery.Store.{Store, Message, is_pending, is_dead}
use tpl_backend.Delivery.Policy.{
  Policy, Reading, dead_letter, set_pending, is_unacknowledged, recover_row, recover_rows,
  consumer_unacknowledged, recover_topic, recover_topics, bury_all,
}
use tpl_backend.Delivery.Policy.Journal.{
  is_dead-dead_letter, dead_letter-messages, dead_letter-inbox, dead_letter-executions,
}

-- A row of this id that is pending.
abbrev pub IsPendingIn : Store → ℕ → Type 0
IsPendingIn s id = (n : Message) × In n s.messages × (n.id ≡ id) × (is_pending n.status ≡ true)

-- What every statement of `reconcile` keeps: receipts and executions stay, dead letters stay, no row
-- goes, and a row that changes becomes pending.
pub record Recovering (s s' : Store) : Type 0 where
  pub inbox : s'.inbox ≡ s.inbox
  pub executions : s'.executions ≡ s.executions
  pub dead : (id : ℕ) → is_dead s id ≡ true → is_dead s' id ≡ true
  pub rows : (n : Message) → In n s'.messages → In n s.messages ⊎ (is_pending n.status ≡ true)
  pub forward : (n : Message) → In n s.messages → In n s'.messages ⊎ IsPendingIn s' n.id

pub Recovering-refl : (s : Store) → Recovering s s
Recovering-refl s = record {
  inbox = refl;
  executions = refl;
  dead = λ id h. h;
  rows = λ n m. inl m;
  forward = λ n m. inl m;
}

pub IsPendingIn-Recovering :
    (s s' : Store) (id : ℕ) → Recovering s s' → IsPendingIn s id → IsPendingIn s' id
IsPendingIn-Recovering s s' id r (n, m, e, h) = elim (r.forward n m) [
  | inl m' ↦ (n, m', e, h)
  | inr (n', m', e', h') ↦ (n', m', e' ∙ e, h')
]

forward_trans :
    (b c : Store) (n : Message)
    → Recovering b c
    → In n b.messages ⊎ IsPendingIn b n.id
    → In n c.messages ⊎ IsPendingIn c n.id
forward_trans b c n bc (inl m) = bc.forward n m
forward_trans b c n bc (inr k) = inr (IsPendingIn-Recovering b c n.id bc k)

rows_trans :
    (a b : Store) (n : Message)
    → Recovering a b
    → In n b.messages ⊎ (is_pending n.status ≡ true)
    → In n a.messages ⊎ (is_pending n.status ≡ true)
rows_trans a b n ab (inl m) = ab.rows n m
rows_trans a b n ab (inr h) = inr h

pub Recovering-trans : {a b c : Store} → Recovering a b → Recovering b c → Recovering a c
Recovering-trans {a} {b} {c} ab bc = record {
  inbox = bc.inbox ∙ ab.inbox;
  executions = bc.executions ∙ ab.executions;
  dead = λ id h. bc.dead id (ab.dead id h);
  rows = λ n m. rows_trans a b n ab (bc.rows n m);
  forward = λ n m. forward_trans b c n bc (ab.forward n m);
}

or_right : (a b : Bool) → b ≡ true → (a || b) ≡ true
or_right a b h = ground arith

dead_letter-Recovering : (t id : ℕ) (e : Text) (s : Store) → Recovering s (dead_letter t id e s)
dead_letter-Recovering t id e s = record {
  inbox = dead_letter-inbox t id e s;
  executions = dead_letter-executions t id e s;
  dead = λ id' h. is_dead-dead_letter t id e s id' ∙ or_right _ _ h;
  rows = λ n m. inl (rw dead_letter-messages at m);
  forward = λ n m. inl (rw dead_letter-messages m);
}

assigned-pending :
    (t id : ℕ) (ms : List Message) (n : Message)
    → Updated (λ k. k.id == id) (set_pending t) ms n
    → In n ms ⊎ (is_pending n.status ≡ true)
unfolding set_pending
assigned-pending t id ms n (kept m e) = inl m
assigned-pending t id ms n (assigned k m e same) = inr (rw same refl)

pending-rows :
    (t id : ℕ) (ms : List Message) (n : Message)
    → In n (update (λ k. k.id == id) (set_pending t) ms)
    → In n ms ⊎ (is_pending n.status ≡ true)
pending-rows t id ms n m = assigned-pending t id ms n (In-update _ _ ms n m)

-- A row stays, or is there as pending.
pending-forward :
    (t id : ℕ) (ms : List Message) (n : Message)
    → In n ms
    → In n (update (λ k. k.id == id) (set_pending t) ms)
      ⊎ ((n' : Message) × In n' (update (λ k. k.id == id) (set_pending t) ms)
          × (n'.id ≡ n.id)
          × (is_pending n'.status ≡ true))
unfolding set_pending
pending-forward t id [] n m = absurd m
pending-forward t id (k ∷ ms) n (inl e) = elim (Bool-cases (k.id == id)) [
  | inl f ↦ inr (set_pending t k, rw f (inl refl), ap (λ q. q.id) (sym e), refl)
  | inr f ↦ inl (rw f (inl e))
]
pending-forward t id (k ∷ ms) n (inr m) = elim (pending-forward t id ms n m) [
  | inl m' ↦ inl (inr m')
  | inr (n', m', e, h) ↦ inr (n', inr m', e, h)
]

set_pending-Recovering :
    (t id : ℕ) (s : Store)
    → Recovering s (record s { messages = update (λ k. k.id == id) (set_pending t) s.messages })
unfolding is_dead
set_pending-Recovering t id s = record {
  inbox = refl;
  executions = refl;
  dead = λ id' h. h;
  rows = pending-rows t id s.messages;
  forward = pending-forward t id s.messages;
}

reset_row :
    (t id : ℕ) (ms : List Message) (n : Message)
    → n.id ≡ id
    → Updated (λ k. k.id == id) (set_pending t) ms n
    → is_pending n.status ≡ true
unfolding set_pending
reset_row t id ms n same (kept m e) = ground arith
reset_row t id ms n same (assigned k m e is) = rw is refl

-- A message that `reconcile` has dealt with.
abbrev pub Settled : Store → ℕ → Type 0
Settled s id =
    (is_dead s id ≡ true)
    ⊎ ((n : Message) → In n s.messages → n.id ≡ id → is_pending n.status ≡ true)

settled_row :
    (s : Store) (id : ℕ) (n : Message)
    → n.id ≡ id
    → ((k : Message) → In k s.messages → k.id ≡ id → is_pending k.status ≡ true)
    → In n s.messages ⊎ (is_pending n.status ≡ true)
    → is_pending n.status ≡ true
settled_row s id n e f (inl m) = f n m e
settled_row s id n e f (inr h) = h

pub Settled-Recovering : (s s' : Store) (id : ℕ) → Recovering s s' → Settled s id → Settled s' id
Settled-Recovering s s' id r (inl d) = inl (r.dead id d)
Settled-Recovering s s' id r (inr f) = inr (λ n m e. settled_row s id n e f (r.rows n m))

module _ (p : Policy) (t : ℕ) (m : Message) (r : ℕ × Store) where
  recover_row-Recovering : Recovering r.1 (recover_row p t m r).1
  unfolding recover_row
  recover_row-Recovering = elim (Bool-cases (leb p.max_attempts m.attempt_count)) [
    | inl e ↦ rw (e, recover_row) (dead_letter-Recovering t m.id consumer_unacknowledged r.1)
    | inr e ↦ rw (e, recover_row) (set_pending-Recovering t m.id r.1)
  ]

  recover_row-Settled : Settled (recover_row p t m r).1 m.id
  unfolding recover_row
  recover_row-Settled = elim (Bool-cases (leb p.max_attempts m.attempt_count)) [
    | inl e ↦
        rw (e, recover_row)
          (inl
            (is_dead-dead_letter t m.id consumer_unacknowledged r.1 m.id ∙ rw (==_refl m.id) refl))
    | inr e ↦
        rw (e, recover_row)
          (inr (λ n k same. reset_row t m.id r.1.messages n same (In-update _ _ r.1.messages n k)))
  ]

pub recover_rows-Recovering :
    (p : Policy) (t : ℕ → ℕ) (ms : List Message) (r : ℕ × Store)
    → Recovering r.1 (recover_rows p t ms r).1
unfolding recover_rows
recover_rows-Recovering p t [] r = Recovering-refl r.1
recover_rows-Recovering p t (m ∷ ms) r =
    Recovering-trans (recover_row-Recovering p (t m.id) m r)
      (recover_rows-Recovering p t ms (recover_row p (t m.id) m r))

pub recover_rows-Settled :
    (p : Policy) (t : ℕ → ℕ) (ms : List Message) (r : ℕ × Store) (n : Message)
    → In n ms
    → Settled (recover_rows p t ms r).1 n.id
unfolding recover_rows
recover_rows-Settled p t [] r n k = absurd k
recover_rows-Settled p t (m ∷ ms) r n (inl e) = rw e (
    Settled-Recovering (recover_row p (t m.id) m r).1 _ m.id
      (recover_rows-Recovering p t ms (recover_row p (t m.id) m r))
      (recover_row-Settled p (t m.id) m r))
recover_rows-Settled p t (m ∷ ms) r n (inr k) =
    recover_rows-Settled p t ms (recover_row p (t m.id) m r) n k

pub recover_topic-Recovering :
    (p : Policy) (u : Reading) (topic : Text) (c : Option Text) (r : ℕ × Store)
    → Recovering r.1 (recover_topic p u topic c r).1
unfolding recover_topic
recover_topic-Recovering p u topic none r = Recovering-refl r.1
recover_topic-Recovering p u topic (some consumer) r =
    recover_rows-Recovering p u.row_at
      (filter (λ m. is_unacknowledged p u.now topic consumer r.1 m && not (u.locked m.id))
        r.1.messages)
      r

pub recover_topics-Recovering :
    (p : Policy) (us : ℕ → Reading) (n : ℕ) (ts : List (Text × Option Text)) (r : ℕ × Store)
    → Recovering r.1 (recover_topics p us n ts r).1
unfolding recover_topics
recover_topics-Recovering p us n [] r = Recovering-refl r.1
recover_topics-Recovering p us n ((topic, c) ∷ ts) r =
    Recovering-trans (recover_topic-Recovering p (us n) topic c r)
      (recover_topics-Recovering p us (n + 1) ts (recover_topic p (us n) topic c r))

pub bury_all-Recovering :
    (t : ℕ → ℕ) (e : Text) (ms : List Message) (s : Store) → Recovering s (bury_all t e ms s)
unfolding bury_all
bury_all-Recovering t e [] s = Recovering-refl s
bury_all-Recovering t e (m ∷ ms) s =
    Recovering-trans (dead_letter-Recovering (t m.id) m.id e s)
      (bury_all-Recovering t e ms (dead_letter (t m.id) m.id e s))

pub bury_all-dead :
    (t : ℕ → ℕ) (e : Text) (ms : List Message) (s : Store) (n : Message)
    → In n ms
    → is_dead (bury_all t e ms s) n.id ≡ true
unfolding bury_all
bury_all-dead t e [] s n k = absurd k
bury_all-dead t e (m ∷ ms) s n (inl same) = rw same (
    (bury_all-Recovering t e ms (dead_letter (t m.id) m.id e s)).dead m.id
      (is_dead-dead_letter (t m.id) m.id e s m.id ∙ rw (==_refl m.id) refl))
bury_all-dead t e (m ∷ ms) s n (inr k) = bury_all-dead t e ms (dead_letter (t m.id) m.id e s) n k
