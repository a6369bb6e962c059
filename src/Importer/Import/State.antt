-- ===== src/Importer/Import/State.antt =====
-- packages/importer/src/domain/import/state.ts
-- A constructor for each phase, with the fields that are valid in it.
use music_downloader.Prelude.{ℕ, max, Bool, true, false, Option, none, some, List, [], ◌∷◌, String}
use music_downloader.Importer.Import.Events.{
  NonEmpty, ImportHints, ImportPolicy, ImportSource, MetadataMatch, ApplyFailure, ReviewCause,
  Resolution, apply_candidate, supply_id, refresh_candidates, manual_tags, import_as_is, reject,
  reject_unusable_delivery, accept, retry_enrichment, ApplyMode, candidate_mode, as_is_mode,
  manual_tags_mode, ImportEvent, import_requested, matches_proposed, auto_apply_selected,
  review_required, review_resolved, import_applied, remediation_required, import_rejected,
}

pub data ImportPhase : Type 0 where
  phase_empty phase_requested phase_proposing phase_awaiting_review : ImportPhase
  phase_applying phase_applied phase_rejected : ImportPhase

pub record Requested : Type 0 where
  pub directory : String
  pub hints : Option ImportHints
  pub policy : ImportPolicy
  pub source : Option ImportSource
  pub seam_watermark : Option ℕ

pub data RemediationStatus : Type 0 where
  open_status retrying_status : RemediationStatus

pub data RemediationState : Type 0 where
  remediation_state :
      (failures : NonEmpty ApplyFailure) (status : RemediationStatus) → RemediationState

pub data PendingRejection : Type 0 where
  pending_reject : (reason : Option String) → PendingRejection
  pending_reject_unusable : (reasons : Option (List String)) → PendingRejection

pub data ImportState : Type 0 where
  empty : ImportState
  requested : Requested → List MetadataMatch → ImportState
  proposing : Requested → (pinned_id : Option String) → List MetadataMatch → ImportState
  awaiting_review :
      Requested
      → ReviewCause
      → List MetadataMatch
      → (settled : Option PendingRejection) → ImportState
  applying : Requested → ApplyMode → List MetadataMatch → ImportState
  applied :
      Requested
      → (location : String) → ApplyMode
      → (remediation : Option RemediationState) → ImportState
  rejected : Requested → (reason : String) → (files_deleted : Bool) → ImportState

abbrev pub phase_of : ImportState → ImportPhase
phase_of empty = phase_empty
phase_of (requested r cs) = phase_requested
phase_of (proposing r pin cs) = phase_proposing
phase_of (awaiting_review r cause cs settled) = phase_awaiting_review
phase_of (applying r mode cs) = phase_applying
phase_of (applied r location mode remediation) = phase_applied
phase_of (rejected r reason deleted) = phase_rejected

abbrev pub requested_of : ImportState → Option Requested
requested_of empty = none
requested_of (requested r cs) = some r
requested_of (proposing r pin cs) = some r
requested_of (awaiting_review r cause cs settled) = some r
requested_of (applying r mode cs) = some r
requested_of (applied r location mode remediation) = some r
requested_of (rejected r reason deleted) = some r

-- `state.seamWatermark`
abbrev pub watermark_of : ImportState → Option ℕ
watermark_of empty = none
watermark_of (requested r cs) = r.seam_watermark
watermark_of (proposing r pin cs) = r.seam_watermark
watermark_of (awaiting_review r cause cs settled) = r.seam_watermark
watermark_of (applying r mode cs) = r.seam_watermark
watermark_of (applied r location mode remediation) = r.seam_watermark
watermark_of (rejected r reason deleted) = r.seam_watermark

-- `source?.feedPosition`
abbrev pub position_of : Option ImportSource → Option ℕ
position_of none = none
position_of (some source) = source.feed_position

abbrev pub is_terminal : ImportState → Bool
is_terminal (applied r location mode remediation) = true
is_terminal (rejected r reason deleted) = true
is_terminal _ = false

-- Every resolution but the two that `decide` keeps to an open remediation moves the import on; a
-- rejection is settled, and the phase holds.
abbrev pub evolve_resolved : Requested → ReviewCause → List MetadataMatch → Resolution → ImportState
evolve_resolved r cause cs (apply_candidate ref action) = applying r (candidate_mode ref action) cs
evolve_resolved r cause cs import_as_is = applying r as_is_mode cs
evolve_resolved r cause cs (manual_tags tags) = applying r (manual_tags_mode tags) cs
evolve_resolved r cause cs (supply_id id) = proposing r (some id) cs
evolve_resolved r cause cs refresh_candidates = proposing r none cs
evolve_resolved r cause cs (reject reason) =
    awaiting_review r cause cs (some (pending_reject reason))
evolve_resolved r cause cs (reject_unusable_delivery reasons) =
    awaiting_review r cause cs (some (pending_reject_unusable reasons))
evolve_resolved r cause cs accept = awaiting_review r cause cs none
evolve_resolved r cause cs retry_enrichment = awaiting_review r cause cs none

unfoldable pub max_watermark : Option ℕ → Option ℕ → Option ℕ
max_watermark none incoming = incoming
max_watermark (some previous) none = some previous
max_watermark (some previous) (some incoming) = some (max previous incoming)

abbrev pub remediate : NonEmpty ApplyFailure → Resolution → Option RemediationState
remediate failures retry_enrichment = some (remediation_state failures retrying_status)
remediate failures _ = none

-- Remediation verbs act on a remediation that is open.
abbrev pub resolve_remediation : Option RemediationState → Resolution → Option RemediationState
resolve_remediation (some (remediation_state failures open_status)) resolution =
    remediate failures resolution
resolve_remediation remediation resolution = remediation

-- A settled review takes no further resolution.
abbrev pub resolve_unsettled :
    Requested
    → ReviewCause
    → List MetadataMatch
    → Option PendingRejection
    → Resolution
    → ImportState
resolve_unsettled r cause cs none resolution = evolve_resolved r cause cs resolution
resolve_unsettled r cause cs (some settled) resolution = awaiting_review r cause cs (some settled)

-- A fresh cycle, on the stream's watermark so far.
abbrev pub begin_cycle :
    Option ℕ → String → Option ImportHints → ImportPolicy → Option ImportSource → ImportState
unfolding max_watermark
begin_cycle watermark directory hints policy source =
    requested
      (record {
        directory = directory;
        hints = hints;
        policy = policy;
        source = source;
        seam_watermark = max_watermark watermark (position_of source);
      })
      []

-- A pair of state and event that no clause names leaves the state as it is.
unfoldable pub evolve : ImportState → ImportEvent → ImportState
unfolding max_watermark
evolve empty (import_requested directory hints policy source) =
    begin_cycle none directory hints policy source
evolve (applied r location mode remediation) (import_requested directory hints policy source) =
    begin_cycle r.seam_watermark directory hints policy source
evolve (rejected r reason deleted) (import_requested directory hints policy source) =
    begin_cycle r.seam_watermark directory hints policy source
evolve (requested r cs) (matches_proposed candidates duplicates pinned_id) = requested r candidates
evolve (proposing r pin cs) (matches_proposed candidates duplicates pinned_id) =
    proposing r pin candidates
evolve (requested r cs) (auto_apply_selected ref distance) = applying r (candidate_mode ref none) cs
evolve (proposing r pin cs) (auto_apply_selected ref distance) =
    applying r (candidate_mode ref none) cs
evolve (requested r cs) (review_required cause) = awaiting_review r cause cs none
evolve (proposing r pin cs) (review_required cause) = awaiting_review r cause cs none
evolve (applying r mode cs) (review_required cause) = awaiting_review r cause cs none
evolve (awaiting_review r cause cs settled) (review_resolved resolution) =
    resolve_unsettled r cause cs settled resolution
evolve (applied r location mode remediation) (review_resolved resolution) =
    applied r location mode (resolve_remediation remediation resolution)
evolve (applying r mode cs) (import_applied location) = applied r location mode none
evolve (applied r previous mode remediation) (import_applied location) =
    applied r location mode none
evolve (applied r location mode remediation) (remediation_required failures) =
    applied r location mode (some (remediation_state failures open_status))
evolve (requested r cs) (import_rejected reason deleted) = rejected r reason deleted
evolve (proposing r pin cs) (import_rejected reason deleted) = rejected r reason deleted
evolve (awaiting_review r cause cs settled) (import_rejected reason deleted) =
    rejected r reason deleted
evolve (applying r mode cs) (import_rejected reason deleted) = rejected r reason deleted
evolve s _ = s

-- `foldEvents`, from any state.
unfoldable pub fold_from : ImportState → List ImportEvent → ImportState
fold_from s [] = s
fold_from s (e ∷ es) = fold_from (evolve s e) es

unfoldable pub fold_events : List ImportEvent → ImportState
unfolding fold_from
fold_events events = fold_from empty events
