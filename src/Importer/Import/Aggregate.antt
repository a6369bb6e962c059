-- ===== src/Importer/Import/Aggregate.antt =====
-- packages/importer/src/domain/import/import.ts
use music_downloader.Prelude.{
  ℕ, Bool, true, false, not, Option, none, some, List, [], ◌∷◌, String, filter, is_empty, is_some,
}
use mathlib.Core.Option
use music_downloader.Importer.Import.Events.{
  ImportSource, DeliveredCopy, MetadataMatch, ReviewCause, remediation_review, ReviewKind,
  kind_match_review, kind_no_match, kind_duplicate_review, kind_remediation_review, review_kind,
  ResolutionKind, kind_apply_candidate, kind_supply_id, kind_refresh_candidates, kind_manual_tags,
  kind_import_as_is, kind_reject, kind_reject_unusable_delivery, kind_accept, kind_retry_enrichment,
  ImportEvent,
}
use music_downloader.Importer.Import.Commands.{ImportCommand}
use music_downloader.Importer.Import.State.{
  Requested, remediation_state, open_status, ImportPhase, ImportState, awaiting_review, applied,
  rejected, phase_of, requested_of, watermark_of, fold_events,
}
use music_downloader.Importer.Import.Decide.{Decision, decide}
use music_downloader.Importer.Import.React.{Effect, react}

pub record OpenReview : Type 0 where
  pub cause : ReviewCause
  pub candidates : List MetadataMatch
  pub available_actions : List ResolutionKind

abbrev pub is_allowed : Bool → Bool → ResolutionKind → Bool
is_allowed has_candidates has_retained_copy kind_apply_candidate = has_candidates
is_allowed has_candidates has_retained_copy kind_reject_unusable_delivery = has_retained_copy
is_allowed has_candidates has_retained_copy verb = true

abbrev pub metadata_verbs : List ResolutionKind
metadata_verbs =
    kind_apply_candidate ∷ kind_supply_id ∷ kind_refresh_candidates ∷ kind_manual_tags
    ∷ kind_import_as_is ∷ kind_reject ∷ kind_reject_unusable_delivery ∷ []

abbrev pub duplicate_verbs : List ResolutionKind
duplicate_verbs = kind_apply_candidate ∷ kind_reject ∷ kind_reject_unusable_delivery ∷ []

unfoldable pub permitted_actions_for :
    ReviewKind → (has_candidates has_retained_copy : Bool) → List ResolutionKind
permitted_actions_for kind_match_review has_candidates has_retained_copy =
    filter (is_allowed has_candidates has_retained_copy) metadata_verbs
permitted_actions_for kind_no_match has_candidates has_retained_copy =
    filter (is_allowed has_candidates has_retained_copy) metadata_verbs
permitted_actions_for kind_duplicate_review has_candidates has_retained_copy =
    filter (is_allowed has_candidates has_retained_copy) duplicate_verbs
permitted_actions_for kind_remediation_review has_candidates has_retained_copy =
    kind_accept ∷ kind_retry_enrichment ∷ []

-- `source?.candidate`
abbrev pub retained_copy : Option ImportSource → Option DeliveredCopy
retained_copy none = none
retained_copy (some source) = source.candidate

unfoldable pub open_review_of : ImportState → Option OpenReview
unfolding permitted_actions_for
open_review_of (awaiting_review r cause cs none) = some (record {
  cause = cause;
  candidates = cs;
  available_actions =
      permitted_actions_for (review_kind cause) (not (is_empty cs))
        (is_some (retained_copy r.source));
})
open_review_of (applied r location mode (some (remediation_state failures open_status))) =
    some (record {
      cause = remediation_review failures;
      candidates = [];
      available_actions = permitted_actions_for kind_remediation_review false false;
    })
open_review_of s = none

pub record Rejection : Type 0 where
  pub reason : String
  pub files_deleted : Bool

pub record ImportSnapshot : Type 0 where
  pub phase : ImportPhase
  pub directory : Option String
  pub location : Option String
  pub open_review : Option OpenReview
  pub rejection : Option Rejection
  pub seam_watermark : Option ℕ

abbrev location_of : ImportState → Option String
location_of (applied r location mode remediation) = some location
location_of s = none

abbrev rejection_of : ImportState → Option Rejection
rejection_of (rejected r reason deleted) =
    some (record { reason = reason; files_deleted = deleted })
rejection_of s = none

-- `Import.snapshot` of a state.
unfoldable pub snapshot : ImportState → ImportSnapshot
unfolding open_review_of
snapshot s = record {
  phase = phase_of s;
  directory = Option.map (λ (r : Requested). r.directory) (requested_of s);
  location = location_of s;
  open_review = open_review_of s;
  rejection = rejection_of s;
  seam_watermark = watermark_of s;
}

-- `Import.fromHistory(events).execute(command)`
unfoldable pub execute : List ImportEvent → ImportCommand → Decision
unfolding fold_events decide
execute events command = decide command (fold_events events)

-- `Import.fromHistory(events).reactTo(event)`
unfoldable pub react_to : List ImportEvent → ImportEvent → List Effect
unfolding fold_events react
react_to events event = react event (fold_events events)
