-- ===== src/Delivery/Policy/Claims.antt =====
-- `claim_delivery` of durable_delivery.py: which row it leases, and that a lease is exclusive.
use tpl_backend.Base.{
  ℕ, ◌+◌, ◌<◌, ◌≡◌, ◌≢◌, refl, sym, ap, ◌∙◌, inl, inr, Bool, true, false, not, ◌&&◌, Option, none,
  some, List, [], ◌∷◌, Text, update, ◌==◌, Bool-cases, Option-cases, In, All, All-in, find?-none,
  subst, arith, ◌⊎◌, Result, ok, err,
}
use mathlib.Core.Bool.{false≢true}
use tpl_backend.Delivery.Store.{
  DeliveryError, malformed_header, Store, Message, seconds, stamp_le, not_before_due, is_dead,
  in_order,
}
use tpl_backend.Delivery.Store.Order.{IsFirst, find?-in_order, In-in_order_of}
use tpl_backend.Delivery.Outbox.{lease_message}
use tpl_backend.Delivery.Policy.{
  Policy, in_policy, is_open, is_claimable, delivery_candidate, claim_raises, lease_candidate,
  claim_delivery,
}

-- What a claim that returned `m` did: it leased the earliest row that was claimable and not locked.
pub record Leased (p : Policy) (t : ℕ) (locked : ℕ → Bool) (owner : Text) (s : Store) (m : Message)
    (s' : Store) : Type 0 where
  pub row : Message
  pub first : IsFirst (λ n. is_claimable p t s n && not (locked n.id)) s.messages row
  pub returned : m ≡ lease_message owner t p.lease_seconds row
  pub store : s' ≡ record s {
    messages = update (λ n. n.id == row.id) (lease_message owner t p.lease_seconds) s.messages;
  }

open_of : (a b c d e f : Bool) → (((((a && b) && c) && d) && e) && f) ≡ true → d ≡ true
open_of a b c d e f h = ground arith

alive_of : (a b c d e f : Bool) → (((((a && b) && c) && d) && not e) && f) ≡ true → e ≡ false
alive_of a b c d e f h = ground arith

unlocked : (b l : Bool) → l ≡ false → (b && not l) ≡ false → b ≡ false
unlocked b l h k = ground arith

differ : (a b : ℕ) → (a == b) ≡ false → a ≡ b → ⊥
differ a b h e = ground arith

candidate-IsFirst :
    (p : Policy) (t : ℕ) (locked : ℕ → Bool) (s : Store) (c : Message)
    → delivery_candidate p t locked s ≡ some c
    → IsFirst (λ n. is_claimable p t s n && not (locked n.id)) s.messages c
unfolding delivery_candidate
candidate-IsFirst p t locked s c h = find?-in_order _ s.messages c h

-- A claim raises and changes nothing, or takes the candidate.
pub claim_delivery-cases :
    (p : Policy) (t : ℕ) (locked : ℕ → Bool) (owner : Text) (s : Store)
    → ((claim_raises p t s ≡ true)
        × (claim_delivery p t locked owner s ≡ (err malformed_header, s)))
      ⊎ ((claim_raises p t s ≡ false)
          × (claim_delivery p t locked owner s ≡ lease_candidate p t locked owner s))
unfolding claim_delivery
claim_delivery-cases p t locked owner s = elim (Bool-cases (claim_raises p t s)) [
  | inl e ↦ inl (e, rw (claim_delivery, e) refl)
  | inr e ↦ inr (e, rw (claim_delivery, e) refl)
]

pub claim_delivery-raises :
    (p : Policy) (t : ℕ) (locked : ℕ → Bool) (owner : Text) (s : Store)
    → claim_raises p t s ≡ true
    → (claim_delivery p t locked owner s).0 ≡ err malformed_header
claim_delivery-raises p t locked owner s bad = elim (claim_delivery-cases p t locked owner s) [
  | inl (e, k) ↦ rw k refl
  | inr (e, k) ↦ absurd (false≢true (sym e ∙ bad))
]

-- A claim that returns is that of the candidate.
pub claim_delivery-ok :
    (p : Policy) (t : ℕ) (locked : ℕ → Bool) (owner : Text) (s : Store) (o : Option Message)
    → (claim_delivery p t locked owner s).0 ≡ ok o
    → claim_delivery p t locked owner s ≡ lease_candidate p t locked owner s
claim_delivery-ok p t locked owner s o h = elim (claim_delivery-cases p t locked owner s) [
  | inl (e, k) ↦
      let no : ◌≡◌ {A = Result DeliveryError (Option Message)} (err malformed_header) (ok o) =
        rw k at h in
      cc
  | inr (e, k) ↦ k
]

lease_candidate-Leased :
    (p : Policy) (t : ℕ) (locked : ℕ → Bool) (owner : Text) (s : Store) (m : Message)
    → (lease_candidate p t locked owner s).0 ≡ ok (some m)
    → Leased p t locked owner s m (lease_candidate p t locked owner s).1
unfolding lease_candidate
lease_candidate-Leased p t locked owner s m h =
    elim (Option-cases (delivery_candidate p t locked s)) [
      | inl e ↦
          let no : ◌≡◌ {A = Result DeliveryError (Option Message)} (ok none) (ok (some m)) =
            rw (e, lease_candidate) at h in
          cc
      | inr (c, e) ↦
          let yes : ◌≡◌ {A = Result DeliveryError (Option Message)}
              (ok (some (lease_message owner t p.lease_seconds c))) (ok (some m)) =
            rw (e, lease_candidate) at h in
          record {
            row = c;
            first = candidate-IsFirst p t locked s c e;
            returned = cc (yes);
            store = rw (e, lease_candidate) refl;
          }
    ]

-- A claim that returns a message has leased the earliest row, by creation and id, that was in the
-- policy, available, due, open and without a live dead letter, and that no one else had locked; the
-- message is that row with the lease, and no row of another id has changed.
pub claim_delivery-Leased :
    (p : Policy) (t : ℕ) (locked : ℕ → Bool) (owner : Text) (s : Store) (m : Message)
    → (claim_delivery p t locked owner s).0 ≡ ok (some m)
    → Leased p t locked owner s m (claim_delivery p t locked owner s).1
claim_delivery-Leased p t locked owner s m h =
    let k = claim_delivery-ok p t locked owner s (some m) h in
    rw k (lease_candidate-Leased p t locked owner s m (ap (λ q. q.0) (sym k) ∙ h))

candidate_none :
    (p : Policy) (t : ℕ) (locked : ℕ → Bool) (s : Store) (n : Message)
    → delivery_candidate p t locked s ≡ none
    → In n s.messages
    → (is_claimable p t s n && not (locked n.id)) ≡ false
unfolding delivery_candidate
candidate_none p t locked s n h m =
    All-in _ (in_order s.messages) n (find?-none _ (in_order s.messages) h)
      (In-in_order_of s.messages n m)

-- A claim comes back empty only when no unlocked row is claimable.
pub claim_delivery-none :
    (p : Policy) (t : ℕ) (locked : ℕ → Bool) (owner : Text) (s : Store) (n : Message)
    → (claim_delivery p t locked owner s).0 ≡ ok none
    → In n s.messages
    → locked n.id ≡ false
    → is_claimable p t s n ≡ false
unfolding lease_candidate
claim_delivery-none p t locked owner s n h m free =
    let h' = ap (λ q. q.0) (sym (claim_delivery-ok p t locked owner s none h)) ∙ h in
    elim (Option-cases (delivery_candidate p t locked s)) [
      | inl e ↦
          let f = candidate_none p t locked s n e m in unlocked (is_claimable p t s n) _ free f
      | inr (c, e) ↦
          let no : ◌≡◌ {A = Result DeliveryError (Option Message)}
              (ok (some (lease_message owner t p.lease_seconds c))) (ok none) =
            rw (e, lease_candidate) at h' in
          cc
    ]

-- Without a malformed header a claim returns.
pub claim_delivery-returns :
    (p : Policy) (t : ℕ) (locked : ℕ → Bool) (owner : Text) (s : Store)
    → claim_raises p t s ≡ false
    → ((claim_delivery p t locked owner s).0 ≡ ok none)
      ⊎ ((m : Message) × ((claim_delivery p t locked owner s).0 ≡ ok (some m)))
unfolding lease_candidate
claim_delivery-returns p t locked owner s sound = elim (claim_delivery-cases p t locked owner s) [
  | inl (e, k) ↦ absurd (false≢true (sym sound ∙ e))
  | inr (e, k) ↦ elim (Option-cases (delivery_candidate p t locked s)) [
    | inl n ↦ inl (rw (k, n, lease_candidate) refl)
    | inr (c, n) ↦ inr (lease_message owner t p.lease_seconds c, rw (k, n, lease_candidate) refl)
  ]
]

-- A row is held at `t` when no claim may take it.
pub IsHeld : ℕ → ℕ → List Message → Type 0
IsHeld id t ms = All (λ n. n.id ≡ id → is_open t n ≡ false) ms

lease_message-closed :
    (owner : Text) (t ttl t' : ℕ) (n : Message)
    → t' < t + seconds ttl
    → is_open t' (lease_message owner t ttl n) ≡ false
unfolding is_open lease_message
lease_message-closed owner t ttl t' n h = ground arith

update-IsHeld :
    (owner : Text) (t ttl t' id : ℕ) (ms : List Message)
    → t' < t + seconds ttl
    → IsHeld id t' (update (λ n. n.id == id) (lease_message owner t ttl) ms)
unfolding IsHeld
update-IsHeld owner t ttl t' id [] h = tt
update-IsHeld owner t ttl t' id (n ∷ ms) h = elim (Bool-cases (n.id == id)) [
  | inl e ↦
      rw e ((λ _. lease_message-closed owner t ttl t' n h), update-IsHeld owner t ttl t' id ms h)
  | inr e ↦ rw e ((λ same. absurd (differ n.id id e same)), update-IsHeld owner t ttl t' id ms h)
]

claimable-open :
    (p : Policy) (t : ℕ) (s : Store) (n : Message) (b : Bool)
    → (is_claimable p t s n && b) ≡ true
    → is_open t n ≡ true
unfolding is_claimable
claimable-open p t s n b h =
    open_of (in_policy p n) (stamp_le n.available_at t) (not_before_due n.headers t) (is_open t n)
      (not (is_dead s n.id)) b h

pub claimable-alive :
    (p : Policy) (t : ℕ) (s : Store) (n : Message) (b : Bool)
    → (is_claimable p t s n && b) ≡ true
    → is_dead s n.id ≡ false
unfolding is_claimable
claimable-alive p t s n b h =
    alive_of (in_policy p n) (stamp_le n.available_at t) (not_before_due n.headers t) (is_open t n)
      (is_dead s n.id) b h

-- A claim never takes a held row.
claim_delivery-held :
    (p : Policy) (t : ℕ) (locked : ℕ → Bool) (owner : Text) (s : Store) (m : Message) (id : ℕ)
    → IsHeld id t s.messages
    → (claim_delivery p t locked owner s).0 ≡ ok (some m)
    → m.id ≢ id
unfolding IsHeld lease_message
claim_delivery-held p t locked owner s m id held h same =
    let l = claim_delivery-Leased p t locked owner s m h in
    let row_id : l.row.id ≡ id = sym (ap (λ n. n.id) l.returned) ∙ same in
    let closed = All-in _ s.messages l.row held l.first.listed row_id in
    let opened = claimable-open p t s l.row (not (locked l.row.id)) l.first.passes in
    false≢true (sym closed ∙ opened)

-- Until its lease runs out, a message that one publisher has claimed is given to no other, under
-- whatever policy and locks.
pub claim_delivery_exclusive :
    (p q : Policy) (t t' : ℕ) (locked locked' : ℕ → Bool) (owner owner' : Text) (s : Store)
    (m m' : Message)
    → (claim_delivery p t locked owner s).0 ≡ ok (some m)
    → t' < t + seconds p.lease_seconds
    → (claim_delivery q t' locked' owner' (claim_delivery p t locked owner s).1).0 ≡ ok (some m')
    → m'.id ≢ m.id
unfolding lease_message IsHeld
claim_delivery_exclusive p q t t' locked locked' owner owner' s m m' h early h' =
    let l = claim_delivery-Leased p t locked owner s m h in
    let held : IsHeld l.row.id t' (claim_delivery p t locked owner s).1.messages =
      subst (IsHeld l.row.id t') (sym (ap (λ (r : Store). r.messages) l.store))
        (update-IsHeld owner t p.lease_seconds t' l.row.id s.messages early) in
    λ same.
      claim_delivery-held q t' locked' owner' _ m' l.row.id held h'
        (same ∙ ap (λ n. n.id) l.returned)
