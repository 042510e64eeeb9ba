-- ===== src/Interactions/Tests.antt =====
-- The theorems on the reference run at concrete inputs.
use tpl_backend.Base.{
  ◌≡◌, refl, inl, inr, true, Option, none, some, [], Text, codes, text_eq, filter, ltb, ok,
}
use tpl_backend.Auth.Principal.{user, web, Principal}
use tpl_backend.Interactions.{
  RunAction, RunEvent, reference_run_id, reference_action_id, reference_event_id, reference_events,
  citation, timestamp, citation_data, succeeded_snapshot, authorize_run, submit_action,
  open_run_stream,
}
use tpl_backend.Interactions.Contract.{IsConfirmed, is_valid_snapshot, submit_action-IsConfirmed}
use tpl_backend.Interactions.Streams.{open_run_stream_resumes}

abbrev person : Principal
person = record {
  actor_type = user;
  subject = codes "u";
  issuer = codes "i";
  app = codes "tpl";
  surface = web;
  audience = codes "c";
  actor_id = some 1;
  display_name = none;
  email = none;
  roles = [];
  scopes = [];
  authenticated_at = 0;
  expires_at = 100;
  policy_version = codes "v2";
}

abbrev confirm : RunAction
confirm = record { action_id = reference_action_id; value = codes "confirm" }

submit_action-IsConfirmed_example :
    IsConfirmed (codes "tpl") reference_run_id confirm person
    × (is_valid_snapshot succeeded_snapshot ≡ true)
unfolding submit_action text_eq
submit_action-IsConfirmed_example =
    submit_action-IsConfirmed (codes "tpl") reference_run_id confirm person succeeded_snapshot refl

abbrev cited : RunEvent
cited = record {
  event_id = reference_event_id 2;
  run_id = reference_run_id;
  sequence_no = 3;
  occurred_at = timestamp 2;
  data_of = citation_data citation;
}

abbrev same_text : Text → Option Text
same_text s = some s

open_run_stream_resumes_example :
    open_run_stream same_text (codes "tpl") reference_run_id (some (reference_event_id 2)) person
    ≡ ok (filter (λ f. ltb 3 f.sequence_no) reference_events)
unfolding authorize_run text_eq
open_run_stream_resumes_example =
    open_run_stream_resumes same_text (codes "tpl") reference_run_id (reference_event_id 2) person
      cited refl refl (inr (inl refl)) refl
