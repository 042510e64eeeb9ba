-- ===== src/Delivery/Policy/Unstuck.antt =====
-- After `reconcile` of durable_delivery.py no unlocked message is stuck.
use mathlib.Core.Bool.{false≢true}
use tpl_backend.Base.{
  ℕ, ◌+◌, ◌≤◌, any, none, ◌==◌, ◌≡◌, ◌⊎◌, refl, sym, subst, ◌∙◌, inl, inr, Bool, true, false, not,
  ◌&&◌, Option, some, List, [], ◌∷◌, Text, codes, text_eq, filter, In, In-filter_of, arith,
}
use tpl_backend.Delivery.Store.{
  Stamp, neg_infinity, at, stamp_le, Execution, Store, Message, is_pending, is_published, is_dead,
  is_received,
}
use tpl_backend.Delivery.Policy.{
  Policy, Reading, is_executing, published_before, is_unacknowledged, recover_rows, recover_topic,
  recover_topics, is_exhausted, bury_all, reconcile_exhausted, reconcile,
}
use tpl_backend.Delivery.Policy.Reconcile.{
  Recovering, Recovering-trans, recover_rows-Recovering, recover_rows-Settled,
  recover_topics-Recovering, bury_all-dead, bury_all-Recovering, Settled, Settled-Recovering,
}

dead-not : (a b : Bool) → (a ≡ true → b ≡ true) → b ≡ false → a ≡ false
dead-not true b h e = sym (h refl) ∙ e
dead-not false b h e = refl

module _ (p : Policy) (t : ℕ) (topic consumer : Text) (s s' : Store) (r : Recovering s s')
    (n : Message) where
  abbrev stuck : Store → Bool
  stuck z = is_unacknowledged p t topic consumer z n

  same_receipts : is_received s' consumer n.id ≡ is_received s consumer n.id
  unfolding is_received
  same_receipts = rw r.inbox

  same_executions : is_executing s' t n.id ≡ is_executing s t n.id
  unfolding is_executing
  same_executions = rw r.executions

  parts :
      (z : Store)
      → stuck z ≡ (
          text_eq n.topic topic
          && is_published n.status
          && published_before n.published_at p.lease_seconds t
          && not (is_received z consumer n.id)
          && not (is_executing z t n.id)
          && not (is_dead z n.id))
  unfolding is_unacknowledged
  parts z = refl

  stuck-alive : stuck s' ≡ true → is_dead s' n.id ≡ false
  stuck-alive h = let e = sym (parts s') ∙ h in ground arith

  stuck-published : stuck s' ≡ true → is_pending n.status ≡ false
  stuck-published h = let e = sym (parts s') ∙ h in ground arith

  -- What is stuck afterwards was stuck before.
  stuck-before : stuck s' ≡ true → stuck s ≡ true
  stuck-before h =
      let e = sym (parts s') ∙ h in
      let a = dead-not (is_dead s n.id) (is_dead s' n.id) (r.dead n.id) (stuck-alive h) in
      parts s ∙ ground (arith, same_receipts, same_executions)

  unsettled : Settled s' n.id → In n s'.messages → stuck s' ≡ true → ⊥
  unsettled (inl d) m h = false≢true (sym (stuck-alive h) ∙ d)
  unsettled (inr f) m h = false≢true (sym (stuck-published h) ∙ f n m refl)

  no_row : In n s.messages ⊎ (is_pending n.status ≡ true) → stuck s' ≡ true → In n s.messages
  no_row (inl m) h = m
  no_row (inr e) h = absurd (false≢true (sym (stuck-published h) ∙ e))

unstuck : (b : Bool) → (b ≡ true → ⊥) → b ≡ false
unstuck true f = absurd (f refl)
unstuck false f = refl

stuck-listed :
    (p : Policy) (t : ℕ) (locked : ℕ → Bool) (topic consumer : Text) (s : Store) (n : Message)
    → In n s.messages
    → is_unacknowledged p t topic consumer s n ≡ true
    → locked n.id ≡ false
    → In n (filter (λ m. is_unacknowledged p t topic consumer s m && not (locked m.id)) s.messages)
stuck-listed p t locked topic consumer s n m h free = In-filter_of _ s.messages n m (both h free)
  where
    both :
        is_unacknowledged p t topic consumer s n ≡ true
        → locked n.id ≡ false
        → (is_unacknowledged p t topic consumer s n && not (locked n.id)) ≡ true
    both e f = rw (e, f) refl

-- After the round of its topic, a row that nobody holds is not stuck, and stays so.
topic-unstuck :
    (p : Policy) (u : Reading) (topic consumer : Text) (c : ℕ) (s s' : Store) (n : Message)
    → Recovering (recover_topic p u topic (some consumer) (c, s)).1 s'
    → u.locked n.id ≡ false
    → In n s'.messages
    → is_unacknowledged p u.now topic consumer s' n ≡ false
unfolding recover_topic
topic-unstuck p u topic consumer c s s' n later free m =
    unstuck (is_unacknowledged p u.now topic consumer s' n) λ h.
      let rows =
        filter (λ k. is_unacknowledged p u.now topic consumer s k && not (u.locked k.id))
          s.messages in
      let here = recover_rows-Recovering p u.row_at rows (c, s) in
      let all = Recovering-trans here later in
      let h₀ = stuck-before p u.now topic consumer s s' all n h in
      let m₀ = no_row p u.now topic consumer s s' all n (all.rows n m) h in
      let done =
        recover_rows-Settled p u.row_at rows (c, s) n
          (stuck-listed p u.now u.locked topic consumer s n m₀ h₀ free) in
      unsettled p u.now topic consumer s s' all n
        (Settled-Recovering (recover_rows p u.row_at rows (c, s)).1 s' n.id later done) m h

-- A topic's rows are not stuck at the clock of its round.
topics-unstuck :
    (p : Policy) (us : ℕ → Reading) (i : ℕ) (ts : List (Text × Option Text)) (r : ℕ × Store)
    (topic consumer : Text) (n : Message)
    → In (topic, some consumer) ts
    → ((j : ℕ) → (us j).locked n.id ≡ false)
    → In n (recover_topics p us i ts r).1.messages
    → (j : ℕ) × (is_unacknowledged p (us j).now topic consumer (recover_topics p us i ts r).1 n
        ≡ false)
unfolding recover_topics
topics-unstuck p us i [] r topic consumer n k free m = absurd k
topics-unstuck p us i ((topic', c) ∷ ts) r topic consumer n (inl e) free m = (
  i,
  topic-unstuck p (us i) topic consumer r.0 r.1
      (recover_topics p us (i + 1) ts (recover_topic p (us i) topic' c r)).1 n
      (subst
        (λ (q : Text × Option Text).
          Recovering (recover_topic p (us i) q.0 q.1 r).1
            (recover_topics p us (i + 1) ts (recover_topic p (us i) topic' c r)).1)
        (sym e) (recover_topics-Recovering p us (i + 1) ts (recover_topic p (us i) topic' c r)))
      (free i) m,
)
topics-unstuck p us i ((topic', c) ∷ ts) r topic consumer n (inr k) free m =
    topics-unstuck p us (i + 1) ts (recover_topic p (us i) topic' c r) topic consumer n k free m

-- After `reconcile` no row that nobody holds is stuck, at the clock of some round.
reconcile-settles :
    (p : Policy) (us : ℕ → Reading) (s : Store) (topic consumer : Text) (n : Message)
    → In (topic, some consumer) p.topics
    → ((j : ℕ) → (us j).locked n.id ≡ false)
    → In n (reconcile p us s).1.messages
    → (j : ℕ) × (is_unacknowledged p (us j).now topic consumer (reconcile p us s).1 n ≡ false)
unfolding reconcile
reconcile-settles p us s topic consumer n k free m =
    topics-unstuck p us 1 p.topics (0, reconcile_exhausted p (us 0) s) topic consumer n k free m

reconcile-Recovering :
    (p : Policy) (us : ℕ → Reading) (s : Store) → Recovering s (reconcile p us s).1
unfolding reconcile reconcile_exhausted
reconcile-Recovering p us s =
    Recovering-trans
      (bury_all-Recovering (us 0).row_at (codes "delivery_attempts_exhausted")
        (filter (λ k. is_exhausted p (us 0).now s k && not ((us 0).locked k.id)) s.messages) s)
      (recover_topics-Recovering p us 1 p.topics (0, reconcile_exhausted p (us 0) s))

-- A row that is stuck no more has a live dead letter.
stuck-dead :
    (p : Policy) (t : ℕ) (topic consumer : Text) (s s' : Store) (r : Recovering s s') (n : Message)
    → is_unacknowledged p t topic consumer s n ≡ true
    → is_unacknowledged p t topic consumer s' n ≡ false
    → is_dead s' n.id ≡ true
stuck-dead p t topic consumer s s' r n h k =
    let before = sym (parts p t topic consumer s s' r n s) ∙ h in
    let after = sym (parts p t topic consumer s s' r n s') ∙ k in
    let same = same_receipts p t topic consumer s s' r n in
    let same' = same_executions p t topic consumer s s' r n in ground arith

Stamp-cases : (x : Stamp) → (x ≡ neg_infinity) ⊎ ((t : ℕ) × (x ≡ at t))
Stamp-cases neg_infinity = inl refl
Stamp-cases (at t) = inr (t, refl)

expired-later :
    (t t' : ℕ) (id : ℕ) (ls : List Execution)
    → t ≤ t'
    → any (λ l. l.message_id == id && not (stamp_le l.expires_at t)) ls ≡ false
    → any (λ l. l.message_id == id && not (stamp_le l.expires_at t')) ls ≡ false
expired-later t t' id [] le h = refl
expired-later t t' id (l ∷ ls) le h = elim (Stamp-cases l.expires_at) [
  | inl e ↦ ground (arith, expired-later t t' id ls le, e)
  | inr (x, e) ↦ ground (arith, expired-later t t' id ls le, e)
]

published-later :
    (p : Option ℕ) (ttl t t' : ℕ)
    → t ≤ t'
    → published_before p ttl t ≡ true
    → published_before p ttl t' ≡ true
published-later none ttl t t' le h = cc
published-later (some x) ttl t t' le h = ground arith

all_parts :
    (a b c c' d e e' f : Bool)
    → (c ≡ true → c' ≡ true)
    → (e ≡ false → e' ≡ false)
    → (a && b && c && not d && not e && not f) ≡ true
    → (a && b && c' && not d && not e' && not f) ≡ true
all_parts true true true c' false false e' false h k m = rw (h refl, k refl) refl
all_parts _ _ _ _ _ _ _ _ h k m = ground arith

-- What is stuck stays so while the clock goes on.
stuck-later :
    (p : Policy) (t t' : ℕ) (topic consumer : Text) (s : Store) (n : Message)
    → t ≤ t'
    → is_unacknowledged p t topic consumer s n ≡ true
    → is_unacknowledged p t' topic consumer s n ≡ true
unfolding is_unacknowledged is_executing
stuck-later p t t' topic consumer s n le h =
    all_parts (text_eq n.topic topic) (is_published n.status)
      (published_before n.published_at p.lease_seconds t)
      (published_before n.published_at p.lease_seconds t') (is_received s consumer n.id)
      (is_executing s t n.id) (is_executing s t' n.id) (is_dead s n.id)
      (published-later n.published_at p.lease_seconds t t' le)
      (expired-later t t' n.id s.executions le) h

-- A message of a topic with a consumer that is stuck before any clock of `reconcile`, and that nobody
-- else locks during it, has a live dead letter afterwards, or its row is pending. Stuck is: published
-- longer ago than a lease, with no receipt, no running execution and no live dead letter.
pub reconcile_unstuck :
    (p : Policy) (us : ℕ → Reading) (t : ℕ) (s : Store) (topic consumer : Text) (n : Message)
    → In (topic, some consumer) p.topics
    → ((j : ℕ) → (us j).locked n.id ≡ false)
    → ((j : ℕ) → t ≤ (us j).now)
    → In n s.messages
    → is_unacknowledged p t topic consumer s n ≡ true
    → (is_dead (reconcile p us s).1 n.id ≡ true)
      ⊎ ((n' : Message) × In n' (reconcile p us s).1.messages
          × (n'.id ≡ n.id)
          × (is_pending n'.status ≡ true))
reconcile_unstuck p us t s topic consumer n k free past m stuck =
    let r = reconcile-Recovering p us s in
    elim (r.forward n m) [
      | inl m' ↦
          let (j, settled) = reconcile-settles p us s topic consumer n k free m' in
          inl (
            stuck-dead p (us j).now topic consumer s _ r n
              (stuck-later p t (us j).now topic consumer s n (past j) stuck) settled)
      | inr pending ↦ inr pending
    ]

-- Every open message of the policy that has used its attempts at the clock of the first statement, and
-- that nobody else has locked then, has a live dead letter after `reconcile`.
pub reconcile_buries :
    (p : Policy) (us : ℕ → Reading) (s : Store) (n : Message)
    → In n s.messages
    → is_exhausted p (us 0).now s n ≡ true
    → (us 0).locked n.id ≡ false
    → is_dead (reconcile p us s).1 n.id ≡ true
unfolding reconcile reconcile_exhausted
reconcile_buries p us s n m h free =
    let rows = filter (λ k. is_exhausted p (us 0).now s k && not ((us 0).locked k.id)) s.messages in
    let code = codes "delivery_attempts_exhausted" in
    let listed =
      In-filter_of (λ k. is_exhausted p (us 0).now s k && not ((us 0).locked k.id)) s.messages n m
        (rw (h, free) refl) in
    (recover_topics-Recovering p us 1 p.topics (0, bury_all (us 0).row_at code rows s)).dead n.id
      (bury_all-dead (us 0).row_at code rows s n listed)
