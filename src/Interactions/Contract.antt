-- ===== src/Interactions/Contract.antt =====
-- The contract of app/app/application/dto/interaction.py, and that the snapshots of a run keep it.
use tpl_backend.Base.{
  ℕ, ◌≡◌, ◌++◌, refl, sym, ap, ◌∙◌, Bool, true, false, not, ◌&&◌, ◌||◌, List, [], ◌∷◌, map, all,
  any, length, Text, codes, text_eq, text_eq_sound, lower, leb, ◌==◌, and_true, ok, require,
  >>=-elim, ok-injective,
}
use tpl_backend.Auth.Errors.{Failure, forbidden_error}
use tpl_backend.Auth.Principal.{Principal, is_user, is_sized, fits}
use tpl_backend.Interactions.{
  BrowserCitation, RunSnapshot, RunAction, reference_run_id, reference_action_id, authorize,
  authorize_run, succeeded_snapshot, submit_action,
}

-- [a-f0-9]
abbrev is_hex : ℕ → Bool
is_hex c = leb b'a' c && leb c b'f' || leb b'0' c && leb c b'9'

abbrev source_of : Text → Text
source_of id = codes "/api/web/v1/citations/" ++ id ++ codes "/source"

-- The fields of a citation, and `source_matches_evidence`, which gives the pattern of `source_href`
-- for an identifier that is a UUID.
unfoldable pub is_valid_citation : BrowserCitation → Bool
unfolding is_sized fits text_eq lower
is_valid_citation c =
    fits 4096 c.title
    && is_sized 1000 c.quote
    && (all is_hex c.content_hash && length c.content_hash == 64)
    && is_sized 160 c.source_href
    && text_eq (map lower c.source_href) (map lower (source_of c.evidence_id))

-- `citations_are_unique`
unfoldable pub are_unique : List Text → Bool
unfolding text_eq
are_unique [] = true
are_unique (t ∷ ts) = not (any (λ u. text_eq u t) ts) && are_unique ts

unfoldable pub is_valid_snapshot : RunSnapshot → Bool
unfolding is_sized fits is_valid_citation are_unique
is_valid_snapshot s =
    is_sized 512 s.title
    && fits 20000 s.summary
    && leb (length s.citations) 50
    && all is_valid_citation s.citations
    && are_unique (map (λ c. c.evidence_id) s.citations)

succeeded-IsValid : is_valid_snapshot succeeded_snapshot ≡ true
unfolding is_valid_snapshot
succeeded-IsValid = refl

require-true : (b : Bool) (e : Failure) (u : Unit {0}) → require b e ≡ ok u → b ≡ true
require-true true e u h = refl
require-true false e u h = cc

-- Who may submit an action, and which.
pub record IsConfirmed (app_slug run_id : Text) (command : RunAction) (p : Principal) : Type 0 where
  pub human : is_user p.actor_type ≡ true
  pub app : p.app ≡ app_slug
  pub run : run_id ≡ reference_run_id
  pub action : command.action_id ≡ reference_action_id
  pub value : command.value ≡ codes "confirm"

-- An action is accepted only from a user of this application, on the reference run and for the
-- confirmation that it waits for; the snapshot, which `model_copy` does not validate, keeps the
-- bounds of the contract.
pub submit_action-IsConfirmed :
    (app_slug run_id : Text) (command : RunAction) (p : Principal) (s : RunSnapshot)
    → submit_action app_slug run_id command p ≡ ok s
    → IsConfirmed app_slug run_id command p × (is_valid_snapshot s ≡ true)
unfolding submit_action authorize_run authorize
submit_action-IsConfirmed app_slug run_id command p s h =
    >>=-elim (authorize_run app_slug run_id p) _ h λ u allowed h1.
      >>=-elim
        (require
          (text_eq command.action_id reference_action_id && text_eq command.value (codes "confirm"))
          (forbidden_error (codes "The requested action is not allowed") (codes "action_denied")))
        _ h1
        λ v confirmed h2. >>=-elim (authorize app_slug p) _ allowed λ w person run.
          let (action, value) = and_true _ _ (require-true _ _ v confirmed) in
          let (on_web, app) = and_true _ _ (require-true _ _ w person) in
          (
            record {
              human = (and_true _ _ on_web).0;
              app = text_eq_sound _ _ app;
              run = text_eq_sound _ _ (require-true _ _ u run);
              action = text_eq_sound _ _ action;
              value = text_eq_sound _ _ value;
            },
            ap is_valid_snapshot (sym (ok-injective {E = Failure} h2)) ∙ succeeded-IsValid,
          )
