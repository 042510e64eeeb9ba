-- ===== src/Delivery/Outbox/Receipts.antt =====
-- The inbox of repositories/outbox.py: what a receipt changes.
use tpl_backend.Base.{
  ℕ, ◌≡◌, refl, inl, inr, Bool, true, false, ◌&&◌, ◌||◌, List, [], ◌∷◌, ◌++◌, Text, text_eq,
  text_eq_sound, and_true, ==_iff, any, is_empty, ltb, length, ◌==◌, Bool-cases, Result, ok, err,
  ok-injective, arith,
}
use tpl_backend.Delivery.Store.{
  Receipt, Store, DeliveryError, invalid_parameters, is_receipt, is_received,
}
use tpl_backend.Delivery.Outbox.{insert_receipt, claim_inbox_once}

or_idle : (b c : Bool) → (c ≡ true → b ≡ true) → b ≡ (b || c)
or_idle true c h = refl
or_idle false true h = h refl
or_idle false false h = refl

any-append_receipt :
    (consumer : Text) (id : ℕ) (rs : List Receipt) (r : Receipt)
    → any (is_receipt consumer id) (rs ++ r ∷ [])
      ≡ (any (is_receipt consumer id) rs || is_receipt consumer id r)
any-append_receipt consumer id [] r = ground arith
any-append_receipt consumer id (q ∷ rs) r = ground (arith, any-append_receipt consumer id rs r)

module _ (now : ℕ) (consumer : Text) (id : ℕ) (s : Store) where
  abbrev receipt : Receipt
  receipt = record { consumer = consumer; message_id = id; processed_at = now }

  insert_receipt_old :
      is_received s consumer id ≡ true → insert_receipt now consumer id s ≡ (false, s)
  unfolding insert_receipt
  insert_receipt_old h = rw (h, insert_receipt)

  insert_receipt_new :
      is_received s consumer id ≡ false
      → insert_receipt now consumer id s ≡ (true, record s { inbox = s.inbox ++ receipt ∷ [] })
  unfolding insert_receipt
  insert_receipt_new h = rw (h, insert_receipt)

  is_received-append :
      (consumer' : Text) (id' : ℕ)
      → is_received (record s { inbox = s.inbox ++ receipt ∷ [] }) consumer' id'
        ≡ (is_received s consumer' id' || (text_eq consumer consumer' && id == id'))
  unfolding is_received
  is_received-append consumer' id' = any-append_receipt consumer' id' s.inbox receipt

  pub insert_receipt-executions : (insert_receipt now consumer id s).1.executions ≡ s.executions
  unfolding insert_receipt
  insert_receipt-executions = ground arith

  same_receipt :
      (consumer' : Text) (id' : ℕ)
      → is_received s consumer id ≡ true
      → (text_eq consumer consumer' && id == id') ≡ true
      → is_received s consumer' id' ≡ true
  same_receipt consumer' id' old e =
      let (p, q) = and_true (text_eq consumer consumer') (id == id') e in
      rw (← text_eq_sound consumer consumer' p, ← (==_iff id id').0 q) old

  -- Afterwards the receipts are those from before and this one.
  pub is_received-insert_receipt :
      (consumer' : Text) (id' : ℕ)
      → is_received (insert_receipt now consumer id s).1 consumer' id'
        ≡ (is_received s consumer' id' || (text_eq consumer consumer' && id == id'))
  is_received-insert_receipt consumer' id' = elim (Bool-cases (is_received s consumer id)) [
    | inl old ↦ rw (insert_receipt_old old) (or_idle _ _ (same_receipt consumer' id' old))
    | inr new ↦ rw (insert_receipt_new new) (is_received-append consumer' id')
  ]

  pub claim_inbox_once-ok :
      (r : Bool × Store)
      → claim_inbox_once now consumer id s ≡ ok r
      → insert_receipt now consumer id s ≡ r
  unfolding claim_inbox_once
  claim_inbox_once-ok r h = elim (Bool-cases (is_empty consumer || ltb 128 (length consumer))) [
    | inl bad ↦
        let no : ◌≡◌ {A = Result DeliveryError (Bool × Store)} (err invalid_parameters) (ok r) =
          rw (bad, claim_inbox_once) at h in
        cc
    | inr fine ↦ ok-injective {E = DeliveryError} (rw (fine, claim_inbox_once) at h)
  ]
