-- ===== src/Interactions.antt =====
-- app/app/application/services/web_interaction.py, the reference adapter of a run, and the contract of
-- app/app/application/dto/interaction.py. A UUID is its text; `UUID(text)` is a parameter, none where it
-- raises. Instants are microseconds of the Unix epoch.
pub mod Contract
pub mod Streams
mod Tests
use tpl_backend.Base.{
  ℕ, zero, suc, ◌≡◌, ◌+◌, ◌*◌, ◌++◌, Bool, true, false, not, ◌&&◌, ◌||◌, Option, none, some, List,
  [], ◌∷◌, map, filter, Text, codes, text_eq, is_empty, leb, ltb, ◌==◌, if◌then◌else◌, Result, ok,
  err, ◌>>=◌, ◌>>◌, require, lower, contains, length, all,
}
use tpl_backend.Auth.Errors.{
  Failure, forbidden_error, service_unavailable_error, concurrency_conflict_error,
}
use tpl_backend.Auth.Principal.{Surface, web, surface_eq, is_user, is_sized, fits, Principal}

pub record BrowserCitation : Type 0 where
  pub evidence_id : Text
  pub knowledge_document_id : Text
  pub knowledge_document_version_id : Text
  pub chunk_id : Text
  pub title : Option Text
  pub quote : Text
  pub source_document_id : Text
  pub source_document_version_id : Text
  pub content_hash : Text
  pub source_href : Text

pub data ActionKind : Type 0 where
  confirmation input : ActionKind

pub record RequiredAction : Type 0 where
  pub action_id : Text
  pub kind : ActionKind
  pub prompt : Text

pub data RunStatus : Type 0 where
  queued running waiting_for_input succeeded failed cancelled : RunStatus

pub record RunSnapshot : Type 0 where
  pub run_id : Text
  pub title : Text
  pub status : RunStatus
  pub summary : Option Text
  pub last_sequence_no : ℕ
  pub last_event_id : Option Text
  pub citations : List BrowserCitation
  pub required_action : Option RequiredAction
  pub updated_at : ℕ

-- The data of an event, by its type.
pub data EventData : Type 0 where
  status_data : RunStatus → EventData
  delta_data : Text → EventData
  citation_data : BrowserCitation → EventData
  input_required_data : RequiredAction → EventData
  completed_data : Text → EventData
  failed_data : Text → Text → EventData
  heartbeat_data : EventData

pub record RunEvent : Type 0 where
  pub event_id : Text
  pub run_id : Text
  pub sequence_no : ℕ
  pub occurred_at : ℕ
  pub data_of : EventData

pub record RunAction : Type 0 where
  pub action_id : Text
  pub value : Text

abbrev pub uuid_prefix : Text
uuid_prefix = codes "00000000-0000-5000-8000-0000000000"

abbrev pub reference_run_id : Text
reference_run_id = uuid_prefix ++ codes "01"

abbrev pub reference_action_id : Text
reference_action_id = uuid_prefix ++ codes "20"

abbrev pub reference_evidence_id : Text
reference_evidence_id = uuid_prefix ++ codes "30"

-- The identifier of the event with this index, which has one digit.
abbrev pub reference_event_id : ℕ → Text
reference_event_id index = uuid_prefix ++ b'1' ∷ (b'0' + index) ∷ []

abbrev pub reference_event_ids : List Text
reference_event_ids = map reference_event_id (0 ∷ 1 ∷ 2 ∷ 3 ∷ 4 ∷ [])

-- The second after the start of 2030.
abbrev pub timestamp : ℕ → ℕ
timestamp second = (1893456000 + second) * 1000000

abbrev pub repeat : ℕ → ℕ → Text
repeat zero c = []
repeat (suc n) c = c ∷ repeat n c

abbrev pub citation : BrowserCitation
citation = record {
  evidence_id = reference_evidence_id;
  knowledge_document_id = uuid_prefix ++ codes "31";
  knowledge_document_version_id = uuid_prefix ++ codes "32";
  chunk_id = uuid_prefix ++ codes "33";
  title = some (codes "FastAPI authorized reference");
  quote = codes "This bounded reference proves the browser citation contract.";
  source_document_id = uuid_prefix ++ codes "34";
  source_document_version_id = uuid_prefix ++ codes "35";
  content_hash = repeat 64 b'c';
  source_href = codes "/api/web/v1/citations/" ++ reference_evidence_id ++ codes "/source";
}

abbrev pub initial_snapshot : RunSnapshot
initial_snapshot = record {
  run_id = reference_run_id;
  title = codes "FastAPI reference interaction";
  status = running;
  summary = none;
  last_sequence_no = 1;
  last_event_id = some (reference_event_id 0);
  citations = [];
  required_action = none;
  updated_at = timestamp 0;
}

abbrev pub resource_forbidden : Text → Failure
resource_forbidden msg = forbidden_error msg (codes "resource_forbidden")

-- `UnavailableWebInteractionAdapter`: each of its methods raises this.
abbrev pub unavailable : Failure
unavailable =
    service_unavailable_error (codes "The interaction provider is not configured")
      (codes "provider_unavailable")

-- `_authorize`
unfoldable pub authorize : Text → Principal → Result Failure (Unit {0})
unfolding is_user surface_eq text_eq
authorize app_slug p =
    require (is_user p.actor_type && surface_eq p.surface web && text_eq p.app app_slug)
      (resource_forbidden (codes "The browser identity is not authorized"))

-- `_authorize_run`
unfoldable pub authorize_run : Text → Text → Principal → Result Failure (Unit {0})
unfolding authorize
authorize_run app_slug run_id p =
    authorize app_slug p
    >> require (text_eq run_id reference_run_id)
        (resource_forbidden (codes "The requested run is not available"))

unfoldable pub get_run : Text → Text → Principal → Result Failure RunSnapshot
unfolding authorize_run
get_run app_slug run_id p = authorize_run app_slug run_id p >> ok initial_snapshot

-- The tuple of `open_run_stream`.
abbrev pub reference_events : List RunEvent
reference_events =
    record {
      event_id = reference_event_id 1;
      run_id = reference_run_id;
      sequence_no = 2;
      occurred_at = timestamp 1;
      data_of = delta_data (codes "A streamed FastAPI response fragment. ");
    }
    ∷ record {
      event_id = reference_event_id 2;
      run_id = reference_run_id;
      sequence_no = 3;
      occurred_at = timestamp 2;
      data_of = citation_data citation;
    }
    ∷ record {
      event_id = reference_event_id 3;
      run_id = reference_run_id;
      sequence_no = 4;
      occurred_at = timestamp 3;
      data_of = input_required_data (record {
        action_id = reference_action_id;
        kind = confirmation;
        prompt = codes "Confirm the reference action.";
      });
    }
    ∷ []

-- `tuple.index`, none where it raises.
unfoldable pub index_of : List Text → Text → Option ℕ
unfolding text_eq
index_of [] x = none
index_of (y ∷ ys) x =
    let rest = index_of ys x in
    if text_eq y x then some 0 else (elim rest [ none ↦ none | some n ↦ some (suc n) ])

abbrev pub cursor_at : Option Text → Result Failure ℕ
cursor_at none = err (
    concurrency_conflict_error (codes "The requested cursor is no longer available")
      (codes "cursor_expired"))
cursor_at (some id) = elim (index_of reference_event_ids id) [
  | none ↦ err (
      concurrency_conflict_error (codes "The requested cursor is no longer available")
        (codes "cursor_expired"))
  | some n ↦ ok n
]

-- The cursor that `last_event_id` names.
unfoldable pub cursor_of : (Text → Option Text) → Option Text → Result Failure ℕ
unfolding index_of
cursor_of uuid none = ok 0
cursor_of uuid (some []) = ok 0
cursor_of uuid (some (c ∷ s)) = cursor_at (uuid (c ∷ s))

-- The events that `generate` yields.
unfoldable pub open_run_stream :
    (Text → Option Text) → Text → Text → Option Text → Principal → Result Failure (List RunEvent)
unfolding authorize_run cursor_of
open_run_stream uuid app_slug run_id last_event_id p =
    authorize_run app_slug run_id p
    >> (cursor_of uuid last_event_id >>= λ cursor.
        ok (filter (λ e. not (leb e.sequence_no (cursor + 1))) reference_events))

abbrev pub succeeded_snapshot : RunSnapshot
succeeded_snapshot = record initial_snapshot {
  status = succeeded;
  summary = some (codes "A streamed FastAPI response fragment.");
  last_sequence_no = 5;
  last_event_id = some (reference_event_id 4);
  citations = citation ∷ [];
  required_action = none;
  updated_at = timestamp 4;
}

unfoldable pub submit_action : Text → Text → RunAction → Principal → Result Failure RunSnapshot
unfolding authorize_run
submit_action app_slug run_id command p =
    authorize_run app_slug run_id p
    >> (require
          (text_eq command.action_id reference_action_id && text_eq command.value (codes "confirm"))
          (forbidden_error (codes "The requested action is not allowed") (codes "action_denied"))
        >> ok succeeded_snapshot)

-- The location of a `SourceResolution`.
unfoldable pub resolve_citation_source : Text → Text → Principal → Result Failure Text
unfolding authorize
resolve_citation_source app_slug evidence_id p =
    authorize app_slug p
    >> (require (text_eq evidence_id reference_evidence_id)
          (resource_forbidden (codes "The requested citation is not available"))
        >> ok (codes "/api/web/v1/reference/sources/" ++ reference_evidence_id))
