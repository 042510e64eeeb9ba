-- ===== src/Delivery/History/Commits.antt =====
-- What a call that commits or raises keeps of the tables, and what a guarded update keeps.
use tpl_backend.Base.{
  ℕ, ◌≡◌, refl, ap, inl, inr, Bool, Text, any, update, Bool-cases, Result, ok, err, ok-injective,
  subst,
}
use tpl_backend.Delivery.Store.{Message, Store, DeliveryError}
use tpl_backend.Delivery.Outbox.{lease_message, holds_lease, update_held}
use tpl_backend.Delivery.Policy.{set_pending}
use tpl_backend.Delivery.History.{committed, committed_with}
use tpl_backend.Delivery.History.Rows.{
  IsLeased, IsLeased-pending, Preserves, Preserves-refl, update-Preserves,
}

lease_message-IsLeased :
    (owner : Text) (now ttl : ℕ) (m : Message) → IsLeased (lease_message owner now ttl m)
unfolding lease_message IsLeased
lease_message-IsLeased owner now ttl m h = ((owner, refl), (_, refl))

module _ (p : Message → Bool) (s : Store) where
  pub lease-Preserves :
      (owner : Text) (now ttl : ℕ)
      → Preserves s (record s { messages = update p (lease_message owner now ttl) s.messages })
  unfolding lease_message
  lease-Preserves owner now ttl =
      update-Preserves p (lease_message owner now ttl) s (λ m. refl)
        (lease_message-IsLeased owner now ttl)

  pub set_pending-Preserves :
      (t : ℕ) → Preserves s (record s { messages = update p (set_pending t) s.messages })
  unfolding set_pending
  set_pending-Preserves t =
      update-Preserves p (set_pending t) s (λ m. refl)
        (λ m. IsLeased-pending (set_pending t m) refl)

-- A call that raises is rolled back.
pub committed-Preserves :
    (s : Store) (r : Result DeliveryError Store)
    → ((s' : Store) → r ≡ ok s' → Preserves s s')
    → Preserves s (committed s r)
committed-Preserves s (ok s') h = h s' refl
committed-Preserves s (err e) h = Preserves-refl s

pub committed_with-Preserves :
    {A : Type 0} (s : Store) (r : Result DeliveryError (A × Store))
    → ((a : A) (s' : Store) → r ≡ ok (a, s') → Preserves s s')
    → Preserves s (committed_with s r)
committed_with-Preserves s (ok (a, s')) h = h a s' refl
committed_with-Preserves s (err e) h = Preserves-refl s

pub ok-Preserves :
    (s a b : Store)
    → ◌≡◌ {A = Result DeliveryError Store} (ok a) (ok b)
    → Preserves s a
    → Preserves s b
ok-Preserves s a b h k = rw (← ok-injective {E = DeliveryError} h) k

pub ok_with-Preserves :
    {A : Type 0} (s : Store) (a : A) (b : Store) (a' : A) (s' : Store)
    → ◌≡◌ {A = Result DeliveryError (A × Store)} (ok (a, b)) (ok (a', s'))
    → Preserves s b
    → Preserves s s'
ok_with-Preserves {A = A} s a b a' s' h k =
    subst (Preserves s) (ap (λ (q : A × Store). q.1) (ok-injective {E = DeliveryError} h)) k

pub update_held-Preserves :
    (e : DeliveryError) (id : ℕ) (owner : Text) (clock : ℕ) (f : Message → Message) (s s' : Store)
    → Preserves s (record s { messages = update (holds_lease id owner clock) f s.messages })
    → update_held e id owner clock f s ≡ ok s'
    → Preserves s s'
unfolding update_held
update_held-Preserves e id owner clock f s s' k h =
    elim (Bool-cases (any (holds_lease id owner clock) s.messages)) [
      | inl held ↦ ok-Preserves s _ s' (rw (held, update_held) at h) k
      | inr lost ↦
          let no : ◌≡◌ {A = Result DeliveryError Store} (err e) (ok s') =
            rw (lost, update_held) at h in
          cc
    ]
