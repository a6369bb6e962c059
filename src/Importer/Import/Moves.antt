-- ===== src/Importer/Import/Moves.antt =====
-- Every batch of events that the import's `decide` mints, as a relation.
use music_downloader.Prelude.{
  ◌≤◌, ◌<◌, ◌≡◌, refl, true, false, not, ◌&&◌, Option, none, some, List, [], ◌∷◌, String, str_eq,
  ltb, arith, inl, inr, any, is_some, Bool-cases, ok, err, get_or,
}
use music_downloader.Importer.Import.Events.{
  NonEmpty, ImportHints, ImportPolicy, ImportSource, DeliveredCopy, match_reference_key,
  MetadataMatch, DuplicateIncumbent, ApplyFailure, ReviewCause, match_review, no_match,
  duplicate_review, Resolution, apply_candidate, supply_id, refresh_candidates, manual_tags,
  import_as_is, reject, reject_unusable_delivery, accept, retry_enrichment, ApplyMode, ImportEvent,
  import_requested, matches_proposed, auto_apply_selected, review_required, review_resolved,
  import_rejected, release_verdict_recorded,
}
use music_downloader.Importer.Import.Commands.{
  ImportCommand, submit_import, record_proposal, record_applied, record_apply_skipped_duplicate,
  record_intake_deleted, record_doomed, resolve_review,
}
use music_downloader.Importer.Import.State.{
  Requested, PendingRejection, RemediationState, remediation_state, open_status, retrying_status,
  ImportState, empty, requested, proposing, awaiting_review, applying, applied, watermark_of,
  position_of,
}
use music_downloader.Importer.Import.Decide.{
  DomainError, Decision, best_of, is_new_delivery, decide_proposal, decide_open_review,
  decide_remediation, decide_resolution, reason_of, is_live, applied_events, skipped_events,
  with_verdict, verdict_of, verdict_on, decide,
}

-- What a proposal is decided to.
pub data Proposal (r : Requested)
    : List MetadataMatch → List DuplicateIncumbent → List ImportEvent → Type 0 where
  unmatched :
      (duplicates : List DuplicateIncumbent) (pin : Option String)
      → Proposal r [] duplicates
          (matches_proposed [] duplicates pin ∷ review_required no_match ∷ [])
  weak :
      (c : MetadataMatch) (cs : List MetadataMatch) (duplicates : List DuplicateIncumbent)
      (pin hinted : Option String)
      → r.policy.auto_apply_threshold < (best_of (record { head = c; tail = cs })).distance
      → Proposal r (c ∷ cs) duplicates (
          matches_proposed (c ∷ cs) duplicates pin
          ∷ review_required
              (match_review (is_some hinted) hinted (best_of (record { head = c; tail = cs })).ref)
          ∷ [])
  duplicated :
      (c : MetadataMatch) (cs : List MetadataMatch) (d : DuplicateIncumbent)
      (ds : List DuplicateIncumbent) (pin : Option String)
      → (best_of (record { head = c; tail = cs })).distance ≤ r.policy.auto_apply_threshold
      → Proposal r (c ∷ cs) (d ∷ ds) (
          matches_proposed (c ∷ cs) (d ∷ ds) pin
          ∷ review_required (duplicate_review (record { head = d; tail = ds }))
          ∷ [])
  strong :
      (c : MetadataMatch) (cs : List MetadataMatch) (pin : Option String)
      → (best_of (record { head = c; tail = cs })).distance ≤ r.policy.auto_apply_threshold
      → Proposal r (c ∷ cs) [] (
          matches_proposed (c ∷ cs) [] pin
          ∷ auto_apply_selected
              (best_of (record { head = c; tail = cs })).ref
              (best_of (record { head = c; tail = cs })).distance
          ∷ [])

pub decide_proposal-Proposal :
    (r : Requested) (state_pin : Option String) (cs : List MetadataMatch)
    (duplicates : List DuplicateIncumbent) (pin : Option String)
    → Proposal r cs duplicates (decide_proposal r state_pin cs duplicates pin)
unfolding decide_proposal
decide_proposal-Proposal r state_pin [] duplicates pin = unmatched duplicates pin
decide_proposal-Proposal r state_pin (c ∷ cs) [] pin =
    elim (Bool-cases
      (ltb r.policy.auto_apply_threshold (best_of (record { head = c; tail = cs })).distance)) [
        | inl far ↦ rw far (weak c cs [] pin _ (ground arith))
        | inr near ↦ rw near (strong c cs pin (ground arith))
      ]
decide_proposal-Proposal r state_pin (c ∷ cs) (d ∷ ds) pin =
    elim (Bool-cases
      (ltb r.policy.auto_apply_threshold (best_of (record { head = c; tail = cs })).distance)) [
        | inl far ↦ rw far (weak c cs (d ∷ ds) pin _ (ground arith))
        | inr near ↦ rw near (duplicated c cs d ds pin (ground arith))
      ]

-- The resolutions that an open review takes without a verdict.
abbrev pub IsPlain : Resolution → Type 0
IsPlain (reject_unusable_delivery reasons) = ⊥
IsPlain accept = ⊥
IsPlain retry_enrichment = ⊥
IsPlain _ = Unit

abbrev pub IsRemedy : Resolution → Type 0
IsRemedy accept = Unit
IsRemedy retry_enrichment = Unit
IsRemedy _ = ⊥

pub data Move : ImportState → List ImportEvent → Type 0 where
  began :
      (s : ImportState) (directory : String) (hints : Option ImportHints) (policy : ImportPolicy)
      (source : Option ImportSource)
      → is_live s ≡ false
      → (is_some (position_of source)
          && not (is_new_delivery (watermark_of s) (position_of source)))
        ≡ false
      → Move s (import_requested directory hints policy source ∷ [])
  first_proposed :
      (r : Requested) (cs proposed : List MetadataMatch) (duplicates : List DuplicateIncumbent)
      (events : List ImportEvent)
      → Proposal r proposed duplicates events
      → Move (requested r cs) events
  proposed_again :
      (r : Requested) (pin : Option String) (cs proposed : List MetadataMatch)
      (duplicates : List DuplicateIncumbent) (events : List ImportEvent)
      → Proposal r proposed duplicates events
      → Move (proposing r pin cs) events
  first_applied :
      (r : Requested) (mode : ApplyMode) (cs : List MetadataMatch) (location : String)
      (failures : List ApplyFailure)
      → Move (applying r mode cs) (applied_events location failures)
  applied_again :
      (r : Requested) (mode : ApplyMode) (previous : String) (old : NonEmpty ApplyFailure)
      (location : String) (failures : List ApplyFailure)
      → Move
          (applied r previous mode (some (remediation_state old retrying_status)))
          (applied_events location failures)
  skipped :
      (r : Requested) (mode : ApplyMode) (cs : List MetadataMatch)
      (incumbents : List DuplicateIncumbent)
      → Move (applying r mode cs) (skipped_events incumbents)
  deleted :
      (r : Requested) (cause : ReviewCause) (cs : List MetadataMatch) (settled : PendingRejection)
      → Move
          (awaiting_review r cause cs (some settled))
          (import_rejected (reason_of settled) true ∷ [])
  doomed :
      (s : ImportState) (reason : String)
      → is_live s ≡ true
      → Move s (import_rejected reason false ∷ [])
  resolved :
      (r : Requested) (cause : ReviewCause) (cs : List MetadataMatch) (resolution : Resolution)
      → IsPlain resolution
      → Move (awaiting_review r cause cs none) (review_resolved resolution ∷ [])
  judged :
      (r : Requested) (cause : ReviewCause) (cs : List MetadataMatch)
      (reasons : Option (List String)) (source : ImportSource) (copy : DeliveredCopy)
      → r.source ≡ some source
      → source.candidate ≡ some copy
      → Move (awaiting_review r cause cs none) (
          review_resolved (reject_unusable_delivery reasons)
          ∷ release_verdict_recorded source.acquisition_id copy (get_or reasons [])
          ∷ [])
  remedied :
      (r : Requested) (location : String) (mode : ApplyMode) (failures : NonEmpty ApplyFailure)
      (resolution : Resolution)
      → IsRemedy resolution
      → Move
          (applied r location mode (some (remediation_state failures open_status)))
          (review_resolved resolution ∷ [])

-- A decision refuses the command, converges, or makes a move.
pub data Decided (s : ImportState) : Decision → Type 0 where
  refusal : (e : DomainError) → Decided s (err e)
  converged : Decided s (ok [])
  moved : {events : List ImportEvent} → Move s events → Decided s (ok events)

submit-Decided :
    (s : ImportState) (directory : String) (hints : Option ImportHints) (policy : ImportPolicy)
    (source : Option ImportSource)
    → Decided s (decide (submit_import directory hints policy source) s)
unfolding decide
submit-Decided s directory hints policy source = elim (Bool-cases (is_live s)) [
  | inl live ↦ elim (Bool-cases (is_new_delivery (watermark_of s) (position_of source))) [
    | inl fresh ↦ rw (live, fresh) (refusal _)
    | inr old ↦ rw (live, old) converged
  ]
  | inr idle ↦
      elim (Bool-cases (
        is_some (position_of source)
        && not (is_new_delivery (watermark_of s) (position_of source)))) [
          | inl seen ↦ rw (idle, seen) converged
          | inr unseen ↦
              rw (idle, unseen) (moved (began s directory hints policy source idle unseen))
        ]
]

verdict_on-Decided :
    (r : Requested) (cause : ReviewCause) (cs : List MetadataMatch) (reasons : Option (List String))
    (source : ImportSource) (kept : Option DeliveredCopy)
    → r.source ≡ some source
    → source.candidate ≡ kept
    → Decided (awaiting_review r cause cs none) (
        with_verdict
          (reject_unusable_delivery reasons)
          (verdict_on source.acquisition_id kept (get_or reasons [])))
verdict_on-Decided r cause cs reasons source none from e = refusal _
verdict_on-Decided r cause cs reasons source (some copy) from e =
    moved (judged r cause cs reasons source copy from e)

verdict-Decided :
    (r : Requested) (cause : ReviewCause) (cs : List MetadataMatch) (reasons : Option (List String))
    (from : Option ImportSource)
    → r.source ≡ from
    → Decided
        (awaiting_review r cause cs none)
        (with_verdict (reject_unusable_delivery reasons) (verdict_of from (get_or reasons [])))
verdict-Decided r cause cs reasons none e = refusal _
verdict-Decided r cause cs reasons (some source) e =
    verdict_on-Decided r cause cs reasons source source.candidate e refl

open_review-Decided :
    (r : Requested) (cause : ReviewCause) (cs : List MetadataMatch) (resolution : Resolution)
    → Decided (awaiting_review r cause cs none) (decide_open_review r cause cs resolution)
unfolding decide_open_review
open_review-Decided r cause cs accept = refusal _
open_review-Decided r cause cs retry_enrichment = refusal _
open_review-Decided r cause cs (apply_candidate ref action) =
    elim (Bool-cases (any (λ c. str_eq (match_reference_key c.ref) (match_reference_key ref)) cs)) [
      | inl known ↦ rw known (moved (resolved r cause cs (apply_candidate ref action) tt))
      | inr unknown ↦ rw unknown (refusal _)
    ]
open_review-Decided r cause cs (reject_unusable_delivery reasons) =
    verdict-Decided r cause cs reasons r.source refl
open_review-Decided r cause cs (supply_id id) = moved (resolved r cause cs (supply_id id) tt)
open_review-Decided r cause cs refresh_candidates =
    moved (resolved r cause cs refresh_candidates tt)
open_review-Decided r cause cs (manual_tags tags) =
    moved (resolved r cause cs (manual_tags tags) tt)
open_review-Decided r cause cs import_as_is = moved (resolved r cause cs import_as_is tt)
open_review-Decided r cause cs (reject reason) = moved (resolved r cause cs (reject reason) tt)

remediation-Decided :
    (r : Requested) (location : String) (mode : ApplyMode) (remediation : Option RemediationState)
    (resolution : Resolution)
    → Decided (applied r location mode remediation) (decide_remediation remediation resolution)
unfolding decide_remediation
remediation-Decided r location mode none resolution = converged
remediation-Decided r location mode (some (remediation_state failures retrying_status)) resolution =
    converged
remediation-Decided r location mode (some (remediation_state failures open_status)) accept =
    moved (remedied r location mode failures accept tt)
remediation-Decided r location mode (some (remediation_state failures open_status))
      retry_enrichment =
    moved (remedied r location mode failures retry_enrichment tt)
remediation-Decided r location mode (some (remediation_state failures open_status)) _ = refusal _

resolution-Decided :
    (s : ImportState) (resolution : Resolution) → Decided s (decide_resolution s resolution)
unfolding decide_resolution
resolution-Decided empty resolution = refusal _
resolution-Decided (requested r cs) resolution = refusal _
resolution-Decided (awaiting_review r cause cs none) resolution =
    open_review-Decided r cause cs resolution
resolution-Decided (applied r location mode remediation) resolution =
    remediation-Decided r location mode remediation resolution
resolution-Decided _ resolution = converged

-- Every command is decided by the relation, in every state.
pub decide-Decided : (command : ImportCommand) (s : ImportState) → Decided s (decide command s)
unfolding decide
decide-Decided (submit_import directory hints policy source) s =
    submit-Decided s directory hints policy source
decide-Decided (record_proposal candidates duplicates pin) (requested r cs) =
    moved (first_proposed r cs _ _ _ (decide_proposal-Proposal r none candidates duplicates pin))
decide-Decided (record_proposal candidates duplicates pin) (proposing r state_pin cs) = moved (
    proposed_again r state_pin cs _ _ _
      (decide_proposal-Proposal r state_pin candidates duplicates pin))
decide-Decided (record_proposal candidates duplicates pin) s = converged
decide-Decided (record_applied location failures) (applying r mode cs) =
    moved (first_applied r mode cs location failures)
decide-Decided (record_applied location failures)
      (applied r previous mode (some (remediation_state old retrying_status))) =
    moved (applied_again r mode previous old location failures)
decide-Decided (record_applied location failures) s = converged
decide-Decided (record_apply_skipped_duplicate incumbents) (applying r mode cs) =
    moved (skipped r mode cs incumbents)
decide-Decided (record_apply_skipped_duplicate incumbents) s = converged
decide-Decided record_intake_deleted (awaiting_review r cause cs (some settled)) =
    moved (deleted r cause cs settled)
decide-Decided record_intake_deleted s = converged
decide-Decided (record_doomed reason) s = elim (Bool-cases (is_live s)) [
  | inl live ↦ rw live (moved (doomed s reason live))
  | inr idle ↦ rw idle converged
]
decide-Decided (resolve_review resolution) s = resolution-Decided s resolution
