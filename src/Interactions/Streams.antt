-- ===== src/Interactions/Streams.antt =====
-- Resuming the stream of a run.
use tpl_backend.Base.{
  ℕ, ◌≡◌, ◌+◌, refl, ap, inl, inr, false, not, Option, some, List, [], ◌∷◌, filter, In, Text,
  text_eq, leb, ltb, is_empty, ok,
}
use tpl_backend.Auth.Principal.{Principal}
use tpl_backend.Interactions.{
  RunEvent, reference_events, authorize_run, cursor_of, cursor_at, index_of, open_run_stream,
}

cursor_of-some :
    (uuid : Text → Option Text) (id : Text)
    → is_empty id ≡ false
    → cursor_of uuid (some id) ≡ cursor_at (uuid id)
unfolding cursor_of
cursor_of-some uuid [] h = cc
cursor_of-some uuid (c ∷ s) h = refl

abbrev after : ℕ → List RunEvent
after n = filter (λ e. not (leb e.sequence_no (n + 1))) reference_events

cursor-after :
    (e : RunEvent)
    → In e reference_events
    → (n : ℕ) × (cursor_at (some e.event_id) ≡ ok n)
      × (after n ≡ filter (λ f. ltb e.sequence_no f.sequence_no) reference_events)
unfolding index_of text_eq
cursor-after e (inl h) = rw h (1, refl, refl)
cursor-after e (inr (inl h)) = rw h (2, refl, refl)
cursor-after e (inr (inr (inl h))) = rw h (3, refl, refl)
cursor-after e (inr (inr (inr m))) = absurd m

-- A client that may see the run and that comes back with the identifier of an event of the stream
-- gets exactly the events after it, without loss or repetition.
pub open_run_stream_resumes :
    (uuid : Text → Option Text) (app_slug run_id id : Text) (p : Principal) (e : RunEvent)
    → authorize_run app_slug run_id p ≡ ok tt
    → is_empty id ≡ false
    → In e reference_events
    → uuid id ≡ some e.event_id
    → open_run_stream uuid app_slug run_id (some id) p
      ≡ ok (filter (λ f. ltb e.sequence_no f.sequence_no) reference_events)
unfolding open_run_stream
open_run_stream_resumes uuid app_slug run_id id p e allowed given m parsed =
    let (n, cursor, rest) = cursor-after e m in
    rw (allowed, open_run_stream, cursor_of-some uuid id given, parsed, cursor) (ap ok rest)
