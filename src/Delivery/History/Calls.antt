-- ===== src/Delivery/History/Calls.antt =====
-- Each call of the repository and the claim of a delivery keep the log and the good state of the
-- tables; `enqueue`, which adds to the log, stands apart.
use tpl_backend.Base.{
  ℕ, refl, inl, inr, Bool, not, ◌&&◌, ◌||◌, Text, filter, update, is_empty, length, leb, ltb,
  Option-cases, require, >>=-elim, subst,
}
use tpl_backend.Delivery.Store.{Store, ownership_lost, invalid_parameters, malformed_header}
use tpl_backend.Delivery.Outbox.{
  Clock, batch_candidates, batch_raises, id_in, lease_message, claim_batch, set_published,
  mark_published, set_failed, mark_failed, claim_inbox_once,
}
use tpl_backend.Delivery.Outbox.Receipts.{claim_inbox_once-ok}
use tpl_backend.Delivery.Policy.{Policy, delivery_candidate, lease_candidate, claim_delivery}
use tpl_backend.Delivery.Policy.Claims.{claim_delivery-cases}
use tpl_backend.Delivery.History.{committed, committed_with}
use tpl_backend.Delivery.History.Rows.{
  IsLeased-pending, IsLeased-published, Preserves, Preserves-refl, update-Preserves,
  insert_receipt-Preserves,
}
use tpl_backend.Delivery.History.Commits.{
  lease-Preserves, committed-Preserves, committed_with-Preserves, ok_with-Preserves,
  update_held-Preserves,
}

pub claim_batch-Preserves :
    (c : Clock) (locked : ℕ → Bool) (owner : Text) (limit ttl : ℕ) (s : Store)
    → Preserves s (committed_with s (claim_batch c locked owner limit ttl s))
unfolding claim_batch
claim_batch-Preserves c locked owner limit ttl s =
    committed_with-Preserves s (claim_batch c locked owner limit ttl s) λ a s' h.
      >>=-elim
        (require
          (not (is_empty owner || ltb 128 (length owner) || not (leb 1 limit && leb limit 1000)))
          invalid_parameters)
        _ h
        λ u a1 h1. >>=-elim (require (leb 1 ttl && leb ttl 3600) invalid_parameters) _ h1 λ v a2 h2.
          >>=-elim (require (not (batch_raises c s)) malformed_header) _ h2 λ w a3 h3.
            let chosen = batch_candidates c locked limit s in
            ok_with-Preserves s
              (filter (id_in chosen)
                (update (id_in chosen) (lease_message owner c.now ttl) s.messages))
              _ a s' h3 (lease-Preserves (id_in chosen) s owner c.now ttl)

pub mark_published-Preserves :
    (c : Clock) (id : ℕ) (owner : Text) (s : Store)
    → Preserves s (committed s (mark_published c id owner s))
unfolding mark_published set_published
mark_published-Preserves c id owner s = committed-Preserves s (mark_published c id owner s) λ s' h.
    update_held-Preserves ownership_lost id owner c.reading (set_published c.now) s s'
      (update-Preserves _ (set_published c.now) s (λ m. refl)
        (λ m. IsLeased-published (set_published c.now m) refl))
      h

pub mark_failed-Preserves :
    (c : Clock) (id : ℕ) (owner code : Text) (retry : ℕ) (s : Store)
    → Preserves s (committed s (mark_failed c id owner code retry s))
unfolding mark_failed set_failed
mark_failed-Preserves c id owner code retry s =
    committed-Preserves s (mark_failed c id owner code retry s) λ s' h.
      >>=-elim
        (require
          (not (is_empty code || ltb 256 (length code) || not (leb 1 retry && leb retry 86400)))
          invalid_parameters)
        _ h
        λ u a h1.
          update_held-Preserves ownership_lost id owner c.reading (set_failed c.now code retry) s s'
            (update-Preserves _ (set_failed c.now code retry) s (λ m. refl)
              (λ m. IsLeased-pending (set_failed c.now code retry m) refl))
            h1

pub claim_inbox_once-Preserves :
    (now : ℕ) (consumer : Text) (id : ℕ) (s : Store)
    → Preserves s (committed_with s (claim_inbox_once now consumer id s))
claim_inbox_once-Preserves now consumer id s =
    committed_with-Preserves s (claim_inbox_once now consumer id s) λ a s' h.
      subst (λ (q : Bool × Store). Preserves s q.1)
        (claim_inbox_once-ok now consumer id s (a, s') h)
        (insert_receipt-Preserves now consumer id s)

lease_candidate-Preserves :
    (p : Policy) (t : ℕ) (locked : ℕ → Bool) (owner : Text) (s : Store)
    → Preserves s (lease_candidate p t locked owner s).1
unfolding lease_candidate
lease_candidate-Preserves p t locked owner s =
    elim (Option-cases (delivery_candidate p t locked s)) [
      | inl e ↦ rw (e, lease_candidate) (Preserves-refl s)
      | inr (c, e) ↦ rw (e, lease_candidate) (lease-Preserves _ s owner t p.lease_seconds)
    ]

pub claim_delivery-Preserves :
    (p : Policy) (t : ℕ) (locked : ℕ → Bool) (owner : Text) (s : Store)
    → Preserves s (claim_delivery p t locked owner s).1
claim_delivery-Preserves p t locked owner s = elim (claim_delivery-cases p t locked owner s) [
  | inl (e, k) ↦ rw k (Preserves-refl s)
  | inr (e, k) ↦ rw k (lease_candidate-Preserves p t locked owner s)
]
