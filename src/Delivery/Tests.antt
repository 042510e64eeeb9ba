-- ===== src/Delivery/Tests.antt =====
-- Small runs of the delivery, and the theorems at concrete inputs.
use tpl_backend.Base.{
  min, ◌*◌, ◌⊎◌, In, ℕ, ◌≡◌, ◌≢◌, ◌≤◌, refl, inl, true, none, some, [], ◌∷◌, codes, text_eq, All,
  ok, err, arith,
}
use tpl_backend.Base.Json.{null, encoded_size}
use tpl_backend.Delivery.Event.{OutboxEvent, model_validate}
use tpl_backend.Delivery.Store.{
  is_pending, delivering, published, Message, Store, lease_lost, is_dead, not_before_due,
}
use tpl_backend.Delivery.Outbox.{Jsonb, enqueue, upsert_message, new_message}
use tpl_backend.Delivery.Outbox.Enqueue.{enqueue_idempotent}
use tpl_backend.Delivery.Policy.{
  in_policy, is_exhausted, is_unacknowledged, is_claimable, retry_delay, claim_delivery,
  finish_delivery, reconcile, Reading, replay,
}
use tpl_backend.Delivery.Policy.Claims.{Leased, claim_delivery-Leased, claim_delivery_exclusive}
use tpl_backend.Delivery.Policy.Finish.{
  IsFinished, retry_delay_bounds, finish_delivery_in_time, finish_delivery_fenced,
}
use tpl_backend.Delivery.Policy.Unstuck.{reconcile_unstuck, reconcile_buries}
use tpl_backend.Delivery.Policy.Replay.{replay-claimable}
use tpl_backend.Delivery.Sample.{waiting, policy, one_waiting, nobody}

abbrev claimed : Message
claimed = record waiting {
  status = delivering;
  attempt_count = 1;
  lease_owner = some (codes "a");
  lease_expires_at = some 60000100;
  updated_at = 100;
}

abbrev one_claimed : Store
one_claimed = record one_waiting { messages = claimed ∷ [] }

claim_waiting :
    claim_delivery policy 100 nobody (codes "a") one_waiting ≡ (ok (some claimed), one_claimed)
unfolding claim_delivery text_eq
claim_waiting = refl

claim_delivery-Leased_example :
    Leased policy 100 nobody
      (codes "a")
      one_waiting
      claimed
      (claim_delivery policy 100 nobody (codes "a") one_waiting).1
unfolding claim_delivery text_eq
claim_delivery-Leased_example =
    claim_delivery-Leased policy 100 nobody (codes "a") one_waiting claimed refl

abbrev other : Message
other = record waiting { id = 8; deduplication_key = codes "k2"; created_at = 6 }

abbrev two_waiting : Store
two_waiting = record one_waiting { messages = waiting ∷ other ∷ [] }

abbrev other_claimed : Message
other_claimed = record other {
  status = delivering;
  attempt_count = 1;
  lease_owner = some (codes "b");
  lease_expires_at = some 60000200;
  updated_at = 200;
}

claim_delivery_exclusive_example : ◌≢◌ {A = ℕ} 8 7
unfolding claim_delivery text_eq
claim_delivery_exclusive_example =
    claim_delivery_exclusive policy policy 100 200 nobody nobody (codes "a") (codes "b") two_waiting
      claimed other_claimed refl (omega arith) refl

retry_delay_bounds_example :
    (retry_delay 0 ≡ 1) × (retry_delay 4 ≡ min 256 (2 * retry_delay 3)) × (retry_delay 3 ≤ 256)
retry_delay_bounds_example = retry_delay_bounds 3

finish_delivery_in_time_example :
    (s' : Store) × (finish_delivery policy 300 claimed
        (some (codes "E"))
        (claim_delivery policy 100 nobody (codes "a") one_waiting).1
      ≡ ok s')
    × All (λ n. n.id ≡ 7 → IsFinished (some (codes "E")) n) s'.messages
    × (is_dead s' 7 ≡ true)
unfolding claim_delivery text_eq
finish_delivery_in_time_example =
    finish_delivery_in_time policy 100 300 nobody (codes "a") one_waiting claimed (some (codes "E"))
      refl (omega arith)

abbrev claimed_again : Message
claimed_again = record claimed {
  attempt_count = 2;
  lease_owner = some (codes "ab");
  lease_expires_at = some 130000000;
  updated_at = 70000000;
}

finish_delivery_fenced_example :
    finish_delivery policy 70000001 claimed none
      (claim_delivery policy 70000000 nobody (codes "ab") one_claimed).1
    ≡ err lease_lost
unfolding claim_delivery text_eq
finish_delivery_fenced_example =
    finish_delivery_fenced policy policy 70000000 70000001 nobody (codes "a") (codes "ab")
      one_claimed claimed claimed_again none refl refl refl (λ e. cc)

abbrev at_once : ℕ → ℕ → Reading
at_once t _ = record { now = t; locked = nobody; row_at = λ _. t }

abbrev lost : Message
lost = record waiting { status = published; attempt_count = 1; published_at = some 100 }

abbrev one_lost : Store
one_lost = record one_waiting { messages = lost ∷ [] }

reconcile_unstuck_example :
    (is_dead (reconcile policy (at_once 100000000) one_lost).1 7 ≡ true)
    ⊎ ((n' : Message) × In n' (reconcile policy (at_once 100000000) one_lost).1.messages
        × (n'.id ≡ 7)
        × (is_pending n'.status ≡ true))
unfolding is_unacknowledged text_eq
reconcile_unstuck_example =
    reconcile_unstuck policy (at_once 100000000) 100000000 one_lost (codes "mail") (codes "mail")
      lost (inl refl) (λ j. refl) (λ j. omega arith) (inl refl) refl

abbrev exhausted : Message
exhausted = record waiting { attempt_count = 1 }

reconcile_buries_example :
    is_dead (reconcile policy (at_once 200) (record one_waiting { messages = exhausted ∷ [] })).1 7
    ≡ true
unfolding is_exhausted text_eq
reconcile_buries_example =
    reconcile_buries policy (at_once 200) (record one_waiting { messages = exhausted ∷ [] })
      exhausted (inl refl) refl refl

abbrev buried : Store
buried = record one_waiting {
  messages = exhausted ∷ [];
  dead_letters =
      record { message_id = 7; error_code = codes "E"; failed_at = 100; replayed_at = none } ∷ [];
}

abbrev replayed : Store
replayed = record buried {
  messages = record waiting { updated_at = 300 } ∷ [];
  dead_letters =
      record { message_id = 7; error_code = codes "E"; failed_at = 100; replayed_at = some 300 }
      ∷ [];
}

replay-claimable_example :
    (is_claimable policy 400 replayed (record waiting { updated_at = 300 }) ≡ true)
    × (◌≡◌ {A = ℕ} 0 0)
unfolding replay in_policy not_before_due text_eq
replay-claimable_example =
    replay-claimable policy 300 400 7 buried replayed (record waiting { updated_at = 300 }) refl
      (inl refl) refl refl refl

abbrev always : Jsonb
always = record { same_payload = λ _ _. true; same_headers = λ _ _. true }

abbrev event : OutboxEvent
event = record {
  topic = codes "mail";
  aggregate_key = codes "u1";
  deduplication_key = codes "k1";
  payload = null;
  headers = [];
  not_before = none;
}

stored :
    enqueue always (record { now = 5; reading = 5 }) 7 event (record one_waiting { messages = [] })
    ≡ ok (7, one_waiting)
unfolding enqueue text_eq model_validate new_message upsert_message encoded_size
stored = refl

enqueue_idempotent_example :
    enqueue always (record { now = 9; reading = 9 }) 8 event one_waiting ≡ ok (7, one_waiting)
enqueue_idempotent_example =
    enqueue_idempotent always (record { now = 5; reading = 5 }) (record { now = 9; reading = 9 }) 7
      8 7 event (record one_waiting { messages = [] }) one_waiting
      (record { payload = λ _. refl; headers = λ _. refl }) stored
