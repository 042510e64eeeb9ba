-- ===== src/Delivery/Policy/Replay.antt =====
-- `replay` of durable_delivery.py: what it refuses, and that a replayed message can be claimed again.
use tpl_backend.Base.{
  ℕ, ◌≡◌, refl, sym, true, false, ◌&&◌, some, List, [], ◌∷◌, any, update, ◌==◌, In, Updated, kept,
  assigned, In-update, ok, ok-injective, >>=-eq-ok, require, subst, arith,
}
use tpl_backend.Delivery.Store.{
  Store, Message, DeadLetter, DeliveryError, stamp_le, not_before_due, is_live_letter, is_dead,
}
use tpl_backend.Delivery.Policy.{Policy, in_policy, is_open, is_claimable, set_replayed, replay}

any-replayed :
    (t id : ℕ) (ds : List DeadLetter)
    → any
        (is_live_letter id)
        (update (is_live_letter id) (λ d. record d { replayed_at = some t }) ds)
      ≡ false
unfolding is_live_letter
any-replayed t id [] = refl
any-replayed t id (d ∷ ds) = ground (arith, any-replayed t id ds)

replayed_row :
    (p : Policy) (t t' id : ℕ) (ms : List Message) (n : Message)
    → Updated (λ m. m.id == id) (set_replayed t) ms n
    → n.id ≡ id
    → (stamp_le n.available_at t' ≡ true) × (is_open t' n ≡ true) × (n.attempt_count ≡ 0)
unfolding set_replayed is_open
replayed_row p t t' id ms n (kept m e) same = absurd (ground arith)
replayed_row p t t' id ms n (assigned k m e is) same = rw is (refl, refl, refl)

-- The store of a replay that did not raise.
abbrev Replayed : ℕ → ℕ → Store → Store
Replayed t id s = record s {
  dead_letters = update (is_live_letter id) (λ d. record d { replayed_at = some t }) s.dead_letters;
  messages = update (λ m. m.id == id) (set_replayed t) s.messages;
}

replay-ok : (p : Policy) (t id : ℕ) (s s' : Store) → replay p t id s ≡ ok s' → Replayed t id s ≡ s'
unfolding replay
replay-ok p t id s s' h =
    let (_, _, rest) =
      >>=-eq-ok (require (any (λ m. m.id == id && in_policy p m) s.messages) _) _ h in
    let (_, _, last) = >>=-eq-ok (require (any (is_live_letter id) s.dead_letters) _) _ rest in
    ok-injective {E = DeliveryError} last

Replayed-alive : (t id : ℕ) (s : Store) → is_dead (Replayed t id s) id ≡ false
unfolding is_dead
Replayed-alive t id s = any-replayed t id s.dead_letters

claimable_of :
    (p : Policy) (t : ℕ) (s : Store) (n : Message)
    → in_policy p n ≡ true
    → stamp_le n.available_at t ≡ true
    → not_before_due n.headers t ≡ true
    → is_open t n ≡ true
    → is_dead s n.id ≡ false
    → is_claimable p t s n ≡ true
unfolding is_claimable
claimable_of p t s n a b c d e = rw (a, b, c, d, e) refl

-- A replayed message starts over: with its attempts at 0 and no live dead letter, it can be claimed
-- at every moment at which its not-before has passed.
pub replay-claimable :
    (p : Policy) (t t' id : ℕ) (s s' : Store) (n : Message)
    → replay p t id s ≡ ok s'
    → In n s'.messages
    → n.id ≡ id
    → in_policy p n ≡ true
    → not_before_due n.headers t' ≡ true
    → (is_claimable p t' s' n ≡ true) × (n.attempt_count ≡ 0)
replay-claimable p t t' id s s' n h m same pol due =
    let is = replay-ok p t id s s' h in
    let m' : In n (Replayed t id s).messages = subst (λ (z : Store). In n z.messages) (sym is) m in
    let (available, opened, zero_attempts) =
      replayed_row p t t' id s.messages n (In-update _ _ s.messages n m') same in
    let alive : is_dead s' n.id ≡ false =
      subst (λ z. is_dead z n.id ≡ false) is (rw same (Replayed-alive t id s)) in
    (claimable_of p t' s' n pol available due opened alive, zero_attempts)
