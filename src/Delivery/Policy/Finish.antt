-- ===== src/Delivery/Policy/Finish.antt =====
-- `finish_delivery` of durable_delivery.py after `claim_delivery`: in time, and fenced.
use mathlib.Core.Path.{subst₂}
use tpl_backend.Base.{
  ℕ, zero, suc, ◌+◌, ◌*◌, ◌≤◌, ◌<◌, min, ◌≡◌, ◌≢◌, refl, sym, ap, subst, ◌∙◌, inl, inr, Bool, true,
  false, not, ◌&&◌, ◌||◌, Option, none, some, List, [], ◌∷◌, Text, text_eq_iff, text_eq_refl, any,
  update, leb, ◌==◌, ==_refl, if◌then◌else◌, Bool-cases, In, All, ok, err, arith,
}
use tpl_backend.Delivery.Store.{Store, Message, seconds, pending, published, lease_lost, is_dead}
use tpl_backend.Delivery.Outbox.{lease_message, holds_lease}
use tpl_backend.Delivery.Policy.{
  Policy, claim_delivery, is_truthy, retry_delay, set_finished, bury_exhausted, finish_delivery,
}
use tpl_backend.Delivery.Policy.Claims.{claim_delivery-Leased, claimable-alive}
use tpl_backend.Delivery.Policy.Journal.{is_dead-dead_letter}

-- The back-off is a second before the first attempt, doubles with every attempt, and stays at 256
-- seconds once it is there.
pub retry_delay_bounds :
    (n : ℕ)
    → (retry_delay 0 ≡ 1)
      × (retry_delay (n + 1) ≡ min 256 (2 * retry_delay n))
      × (retry_delay n ≤ 256)
unfolding retry_delay
retry_delay_bounds zero = (refl, refl, omega arith)
retry_delay_bounds (suc zero) = (refl, refl, omega arith)
retry_delay_bounds (suc (suc zero)) = (refl, refl, omega arith)
retry_delay_bounds (suc (suc (suc zero))) = (refl, refl, omega arith)
retry_delay_bounds (suc (suc (suc (suc zero)))) = (refl, refl, omega arith)
retry_delay_bounds (suc (suc (suc (suc (suc zero))))) = (refl, refl, omega arith)
retry_delay_bounds (suc (suc (suc (suc (suc (suc zero)))))) = (refl, refl, omega arith)
retry_delay_bounds (suc (suc (suc (suc (suc (suc (suc zero))))))) = (refl, refl, omega arith)
retry_delay_bounds (suc (suc (suc (suc (suc (suc (suc (suc n)))))))) =
    let n' : ℕ = suc (suc (suc (suc (suc (suc (suc (suc n))))))) in
    let e : min n' 8 ≡ 8 = omega arith in
    let e' : min (n' + 1) 8 ≡ 8 = omega arith in (refl, rw (e, e') refl, rw e (omega arith))

update_held_lost :
    (id : ℕ) (owner owner' : Text) (t t' ttl : ℕ) (ms : List Message)
    → owner ≢ owner'
    → any (holds_lease id owner t) (update (λ n. n.id == id) (lease_message owner' t' ttl) ms)
      ≡ false
unfolding holds_lease lease_message
update_held_lost id owner owner' t t' ttl [] ne = refl
update_held_lost id owner owner' t t' ttl (n ∷ ms) ne =
    ground (arith, update_held_lost id owner owner' t t' ttl ms ne, text_eq_iff owner' owner)

-- Once another publisher has leased the message again, the old one can no longer record its result:
-- `finish_delivery` raises, whatever the clock says.
pub finish_delivery_fenced :
    (p q : Policy) (t t' : ℕ) (locked : ℕ → Bool) (owner owner' : Text) (s : Store)
    (old new : Message) (error : Option Text)
    → (claim_delivery q t locked owner' s).0 ≡ ok (some new)
    → new.id ≡ old.id
    → old.lease_owner ≡ some owner
    → owner ≢ owner'
    → finish_delivery p t' old error (claim_delivery q t locked owner' s).1 ≡ err lease_lost
unfolding finish_delivery lease_message
finish_delivery_fenced p q t t' locked owner owner' s old new error h same held ne =
    let l = claim_delivery-Leased q t locked owner' s new h in
    let id : l.row.id ≡ old.id = sym (ap (λ n. n.id) l.returned) ∙ same in
    let lost : any (holds_lease old.id owner t') (claim_delivery q t locked owner' s).1.messages
        ≡ false =
      subst (λ (r : Store). any (holds_lease old.id owner t') r.messages ≡ false) (sym l.store)
        (rw id (update_held_lost old.id owner owner' t' t q.lease_seconds s.messages ne)) in
    rw (held, finish_delivery, lost)

-- What a row is after `finish_delivery`.
abbrev pub IsFinished : Option Text → Message → Type 0
IsFinished error n =
    (n.status ≡ (if is_truthy error then pending else published))
    × (n.lease_owner ≡ none)
    × (n.lease_expires_at ≡ none)
    × (n.last_error ≡ error)

any-holds_leased :
    (id : ℕ) (owner : Text) (t ttl t' : ℕ) (c : Message) (ms : List Message)
    → t' < t + seconds ttl
    → c.id ≡ id
    → In c ms
    → any (holds_lease id owner t') (update (λ n. n.id == id) (lease_message owner t ttl) ms) ≡ true
unfolding holds_lease lease_message
any-holds_leased id owner t ttl t' c [] early e m = absurd m
any-holds_leased id owner t ttl t' c (n ∷ ms) early e (inl same) =
    let id' : n.id ≡ id = ap (λ k. k.id) (sym same) ∙ e in ground (arith, text_eq_refl owner)
any-holds_leased id owner t ttl t' c (n ∷ ms) early e (inr m) =
    let ih = any-holds_leased id owner t ttl t' c ms early e m in ground arith

update-IsFinished :
    (id : ℕ) (owner : Text) (t ttl t' attempts : ℕ) (error : Option Text) (ms : List Message)
    → t' < t + seconds ttl
    → All
        (λ n. n.id ≡ id → IsFinished error n)
        (update
          (holds_lease id owner t')
          (set_finished t' attempts error)
          (update (λ n. n.id == id) (lease_message owner t ttl) ms))
unfolding holds_lease lease_message set_finished
update-IsFinished id owner t ttl t' attempts error [] early = tt
update-IsFinished id owner t ttl t' attempts error (n ∷ ms) early = (
  (λ e. ground (arith, text_eq_refl owner)),
  update-IsFinished id owner t ttl t' attempts error ms early,
)

module _ (p : Policy) (t : ℕ) (m : Message) (s : Store) where
  buried :
      (error : Option Text)
      → (is_truthy error && leb p.max_attempts m.attempt_count) ≡ true
      → is_dead (bury_exhausted p t m error s) m.id ≡ true
  unfolding bury_exhausted
  buried none h = cc
  buried (some e) h =
      rw (h, bury_exhausted) (is_dead-dead_letter t m.id e s m.id ∙ rw (==_refl m.id) refl)

  kept :
      (error : Option Text)
      → (is_truthy error && leb p.max_attempts m.attempt_count) ≡ false
      → is_dead (bury_exhausted p t m error s) m.id ≡ is_dead s m.id
  unfolding bury_exhausted
  kept none h = refl
  kept (some e) h = rw (h, bury_exhausted)

module _ (p : Policy) (t : ℕ) (m : Message) (error : Option Text) (s : Store) where
  bury_exhausted-messages : (bury_exhausted p t m error s).messages ≡ s.messages
  unfolding bury_exhausted
  bury_exhausted-messages = ground arith

  is_dead-bury_exhausted :
      is_dead (bury_exhausted p t m error s) m.id
      ≡ (is_truthy error && leb p.max_attempts m.attempt_count || is_dead s m.id)
  is_dead-bury_exhausted =
      elim (Bool-cases (is_truthy error && leb p.max_attempts m.attempt_count)) [
        | inl last ↦ rw last (buried p t m s error last)
        | inr more ↦ rw more (kept p t m s error more)
      ]

abbrev InTime : Policy → ℕ → Message → Option Text → Store → Type 0
InTime p t' m error s =
    (s' : Store) × (finish_delivery p t' m error s ≡ ok s')
    × All (λ n. n.id ≡ m.id → IsFinished error n) s'.messages
    × (is_dead s' m.id ≡ (is_truthy error && leb p.max_attempts m.attempt_count))

is_dead-letters :
    (s s' : Store) (id : ℕ) → s'.dead_letters ≡ s.dead_letters → is_dead s' id ≡ is_dead s id
unfolding is_dead
is_dead-letters s s' id e = rw e

or_false : (a b : Bool) → b ≡ false → (a || b) ≡ a
or_false a b h = ground arith

-- The store after the claim of `row`, and after its end.
module _ (p : Policy) (t t' : ℕ) (owner : Text) (s : Store) (row : Message) (error : Option Text)
    (listed : In row s.messages) (alive : is_dead s row.id ≡ false)
    (early : t' < t + seconds p.lease_seconds) where
  abbrev leased : Message
  leased = lease_message owner t p.lease_seconds row

  abbrev claimed : Store
  claimed = record s {
    messages = update (λ n. n.id == row.id) (lease_message owner t p.lease_seconds) s.messages;
  }

  abbrev recorded : Store
  recorded = record claimed {
    messages =
        update (holds_lease row.id owner t') (set_finished t' (row.attempt_count + 1) error)
          claimed.messages;
  }

  finish_leased : InTime p t' leased error claimed
  unfolding finish_delivery lease_message
  finish_leased =
      let held =
        any-holds_leased row.id owner t p.lease_seconds t' row s.messages early refl listed in
      (
        bury_exhausted p t' leased error recorded,
        rw held refl,
        rw (bury_exhausted-messages p t' leased error recorded) (
            update-IsFinished row.id owner t p.lease_seconds t' (row.attempt_count + 1) error
              s.messages early),
        is_dead-bury_exhausted p t' leased error recorded
            ∙ or_false _ _ (is_dead-letters s recorded row.id refl ∙ alive),
      )

-- A claimed message that is finished before its lease runs out is recorded: without an error it is
-- published, with one it is open again, its lease is gone, and it has a live dead letter exactly when
-- a (non-empty) error came on the last attempt.
pub finish_delivery_in_time :
    (p : Policy) (t t' : ℕ) (locked : ℕ → Bool) (owner : Text) (s : Store) (m : Message)
    (error : Option Text)
    → (claim_delivery p t locked owner s).0 ≡ ok (some m)
    → t' < t + seconds p.lease_seconds
    → (s' : Store) × (finish_delivery p t' m error (claim_delivery p t locked owner s).1 ≡ ok s')
      × All (λ n. n.id ≡ m.id → IsFinished error n) s'.messages
      × (is_dead s' m.id ≡ (is_truthy error && leb p.max_attempts m.attempt_count))
finish_delivery_in_time p t t' locked owner s m error h early =
    let l = claim_delivery-Leased p t locked owner s m h in
    let alive = claimable-alive p t s l.row (not (locked l.row.id)) l.first.passes in
    subst₂ (λ n z. InTime p t' n error z) (sym l.returned) (sym l.store)
      (finish_leased p t t' owner s l.row error l.first.listed alive early)
