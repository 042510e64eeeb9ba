-- ===== src/Delivery/History/Recoveries.antt =====
-- The end of a delivery, the reconciliation and the replay keep the log and the good state of the
-- tables.
use tpl_backend.Base.{
  ◌+◌, ℕ, ◌≡◌, refl, inl, inr, not, ◌&&◌, Option, none, some, List, [], ◌∷◌, Text, codes, any,
  filter, update, is_empty, leb, ◌==◌, Bool-cases, Option-cases, Result, ok, err, require, >>=-elim,
}
use tpl_backend.Delivery.Store.{
  Message, Store, DeliveryError, lease_lost, outside_policy, not_dead_lettered, is_live_letter,
}
use tpl_backend.Delivery.Outbox.{update_held}
use tpl_backend.Delivery.Policy.{
  Policy, Reading, dead_letter, set_finished, bury_exhausted, finish_delivery, bury_all,
  reconcile_exhausted, consumer_unacknowledged, recover_row, recover_rows, recover_topic,
  recover_topics, reconcile, set_replayed, replay, is_truthy, is_unacknowledged, is_exhausted,
  in_policy,
}
use tpl_backend.Delivery.History.{committed}
use tpl_backend.Delivery.History.Rows.{
  IsLeased, IsLeased-pending, IsLeased-published, Preserves, Preserves-refl, Preserves-trans,
  update-Preserves, dead_letter-Preserves,
}
use tpl_backend.Delivery.History.Commits.{
  set_pending-Preserves, committed-Preserves, ok-Preserves, update_held-Preserves,
}

set_finished-IsLeased :
    (t attempts : ℕ) (error : Option Text) (m : Message)
    → IsLeased (set_finished t attempts error m)
unfolding set_finished
set_finished-IsLeased t attempts error m = elim (Bool-cases (is_truthy error)) [
  | inl e ↦ IsLeased-pending (set_finished t attempts error m) (rw e refl)
  | inr e ↦ IsLeased-published (set_finished t attempts error m) (rw e refl)
]

bury_exhausted-Preserves :
    (p : Policy) (t : ℕ) (m : Message) (error : Option Text) (s : Store)
    → Preserves s (bury_exhausted p t m error s)
unfolding bury_exhausted
bury_exhausted-Preserves p t m none s = Preserves-refl s
bury_exhausted-Preserves p t m (some e) s =
    elim (Bool-cases (not (is_empty e) && leb p.max_attempts m.attempt_count)) [
      | inl last ↦ rw (last, bury_exhausted) (dead_letter-Preserves t m.id e s)
      | inr more ↦ rw (more, bury_exhausted) (Preserves-refl s)
    ]

pub finish_delivery-Preserves :
    (p : Policy) (t : ℕ) (m : Message) (error : Option Text) (s : Store)
    → Preserves s (committed s (finish_delivery p t m error s))
unfolding finish_delivery set_finished
finish_delivery-Preserves p t m error s =
    committed-Preserves s (finish_delivery p t m error s) λ s' h.
      elim (Option-cases m.lease_owner) [
        | inl e ↦
            let no : ◌≡◌ {A = Result DeliveryError Store} (err lease_lost) (ok s') =
              rw (e, finish_delivery) at h in
            cc
        | inr (owner, e) ↦
            >>=-elim (update_held lease_lost m.id owner t (set_finished t m.attempt_count error) s)
              _ (rw (e, finish_delivery) at h)
              λ r held h1. ok-Preserves s _ s' h1 (
                Preserves-trans
                  (update_held-Preserves lease_lost m.id owner t
                    (set_finished t m.attempt_count error) s r
                    (update-Preserves _ (set_finished t m.attempt_count error) s (λ n. refl)
                      (set_finished-IsLeased t m.attempt_count error))
                    held)
                  (bury_exhausted-Preserves p t m error r))
      ]

bury_all-Preserves :
    (t : ℕ → ℕ) (e : Text) (ms : List Message) (s : Store) → Preserves s (bury_all t e ms s)
unfolding bury_all
bury_all-Preserves t e [] s = Preserves-refl s
bury_all-Preserves t e (m ∷ ms) s =
    Preserves-trans (dead_letter-Preserves (t m.id) m.id e s)
      (bury_all-Preserves t e ms (dead_letter (t m.id) m.id e s))

recover_row-Preserves :
    (p : Policy) (t : ℕ) (m : Message) (r : ℕ × Store) → Preserves r.1 (recover_row p t m r).1
unfolding recover_row
recover_row-Preserves p t m (count, s) = elim (Bool-cases (leb p.max_attempts m.attempt_count)) [
  | inl last ↦ rw (last, recover_row) (dead_letter-Preserves t m.id consumer_unacknowledged s)
  | inr more ↦ rw (more, recover_row) (set_pending-Preserves (λ n. n.id == m.id) s t)
]

recover_rows-Preserves :
    (p : Policy) (t : ℕ → ℕ) (ms : List Message) (r : ℕ × Store)
    → Preserves r.1 (recover_rows p t ms r).1
unfolding recover_rows
recover_rows-Preserves p t [] r = Preserves-refl r.1
recover_rows-Preserves p t (m ∷ ms) r =
    Preserves-trans (recover_row-Preserves p (t m.id) m r)
      (recover_rows-Preserves p t ms (recover_row p (t m.id) m r))

recover_topic-Preserves :
    (p : Policy) (u : Reading) (topic : Text) (consumer : Option Text) (r : ℕ × Store)
    → Preserves r.1 (recover_topic p u topic consumer r).1
unfolding recover_topic
recover_topic-Preserves p u topic none r = Preserves-refl r.1
recover_topic-Preserves p u topic (some consumer) (count, s) =
    recover_rows-Preserves p u.row_at
      (filter (λ m. is_unacknowledged p u.now topic consumer s m && not (u.locked m.id)) s.messages)
      (count, s)

recover_topics-Preserves :
    (p : Policy) (us : ℕ → Reading) (n : ℕ) (ts : List (Text × Option Text)) (r : ℕ × Store)
    → Preserves r.1 (recover_topics p us n ts r).1
unfolding recover_topics
recover_topics-Preserves p us n [] r = Preserves-refl r.1
recover_topics-Preserves p us n ((topic, consumer) ∷ ts) r =
    Preserves-trans (recover_topic-Preserves p (us n) topic consumer r)
      (recover_topics-Preserves p us (n + 1) ts (recover_topic p (us n) topic consumer r))

pub reconcile-Preserves :
    (p : Policy) (us : ℕ → Reading) (s : Store) → Preserves s (reconcile p us s).1
unfolding reconcile reconcile_exhausted
reconcile-Preserves p us s =
    Preserves-trans
      (bury_all-Preserves (us 0).row_at (codes "delivery_attempts_exhausted")
        (filter (λ m. is_exhausted p (us 0).now s m && not ((us 0).locked m.id)) s.messages) s)
      (recover_topics-Preserves p us 1 p.topics (0, reconcile_exhausted p (us 0) s))

pub replay-Preserves :
    (p : Policy) (t id : ℕ) (s : Store) → Preserves s (committed s (replay p t id s))
unfolding replay set_replayed
replay-Preserves p t id s = committed-Preserves s (replay p t id s) λ s' h.
    >>=-elim (require (any (λ m. m.id == id && in_policy p m) s.messages) outside_policy) _ h
      λ u a h1.
        >>=-elim (require (any (is_live_letter id) s.dead_letters) not_dead_lettered) _ h1 λ v b h2.
          ok-Preserves s _ s' h2 (
            rows_Preserves_to (
              update-Preserves (λ m. m.id == id) (set_replayed t) s (λ m. refl)
                (λ m. IsLeased-pending (set_replayed t m) refl)))
  where
    rows_Preserves_to :
        Preserves s (record s { messages = update (λ m. m.id == id) (set_replayed t) s.messages })
        → Preserves s (record s {
          dead_letters =
              update (is_live_letter id) (λ d. record d { replayed_at = some t }) s.dead_letters;
          messages = update (λ m. m.id == id) (set_replayed t) s.messages;
        })
    rows_Preserves_to k = record {
      log = k.log;
      leased = k.leased;
      single = k.single;
      keyed = k.keyed;
    }
