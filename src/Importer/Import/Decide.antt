-- ===== src/Importer/Import/Decide.antt =====
-- packages/importer/src/domain/import/decide.ts
-- An `InvalidResolution` keeps the two kinds that its `detail` names.
use music_downloader.Prelude.{
  ℕ, Bool, true, false, ◌&&◌, not, Option, none, some, List, [], ◌∷◌, String, str_eq, ltb,
  if◌then◌else◌, is_some, any, get_or, Result, ok, err,
}
use Prim.Native.String.{◌++◌ as cat}
use music_downloader.Importer.Import.Events.{
  NonEmpty, ImportSource, DeliveredCopy, match_reference_key, MetadataMatch, DuplicateIncumbent,
  ApplyFailure, ReviewCause, match_review, no_match, duplicate_review, ReviewKind, review_kind,
  Resolution, apply_candidate, reject_unusable_delivery, accept, retry_enrichment, ResolutionKind,
  resolution_kind, ImportEvent, import_requested, matches_proposed, auto_apply_selected,
  review_required, review_resolved, import_applied, remediation_required, import_rejected,
  release_verdict_recorded,
}
use music_downloader.Importer.Import.Commands.{
  ImportCommand, submit_import, record_proposal, record_applied, record_apply_skipped_duplicate,
  record_intake_deleted, record_doomed, resolve_review,
}
use music_downloader.Importer.Import.State.{
  Requested, PendingRejection, pending_reject, pending_reject_unusable, RemediationState,
  remediation_state, open_status, retrying_status, ImportState, empty, requested, proposing,
  awaiting_review, applying, applied, is_terminal, watermark_of, position_of,
}

pub data DomainError : Type 0 where
  unknown_import no_open_review no_retained_copy cycle_in_flight : DomainError
  invalid_resolution : ResolutionKind → Option ReviewKind → DomainError
  unknown_match : (candidate : String) → DomainError

abbrev pub Decision : Type 0
Decision = Result DomainError (List ImportEvent)

-- `next` where it is nearer than the best so far.
abbrev pub nearer_of : MetadataMatch → MetadataMatch → MetadataMatch
nearer_of best next = if ltb next.distance best.distance then next else best

-- The loop of `bestOf`.
unfoldable pub best_from : MetadataMatch → List MetadataMatch → MetadataMatch
best_from best [] = best
best_from best (next ∷ rest) = best_from (nearer_of best next) rest

unfoldable pub best_of : NonEmpty MetadataMatch → MetadataMatch
unfolding best_from
best_of candidates = best_from candidates.head (candidates.head ∷ candidates.tail)

unfoldable pub is_new_delivery : Option ℕ → Option ℕ → Bool
is_new_delivery watermark none = false
is_new_delivery none (some incoming) = true
is_new_delivery (some watermark) (some incoming) = ltb watermark incoming

-- `a ?? b`
abbrev pub or_option {ℓ} : {A : Type ℓ} → Option A → Option A → Option A
or_option none o = o
or_option (some a) o = some a

-- `state.hints?.mbReleaseId`
abbrev pub hinted_id : Requested → Option String
hinted_id r = elim r.hints [ none ↦ none | some hints ↦ hints.mb_release_id ]

-- A strong match: it is applied, unless the library has the album.
abbrev pub decide_strong : MetadataMatch → ImportEvent → List DuplicateIncumbent → List ImportEvent
decide_strong best proposed [] = proposed ∷ auto_apply_selected best.ref best.distance ∷ []
decide_strong best proposed (incumbent ∷ incumbents) =
    proposed
    ∷ review_required (duplicate_review (record { head = incumbent; tail = incumbents }))
    ∷ []

-- `decideProposal` in the two phases that take a proposal, with the pin that the state holds.
unfoldable pub decide_proposal :
    Requested
    → Option String
    → List MetadataMatch
    → List DuplicateIncumbent
    → Option String
    → List ImportEvent
unfolding best_of
decide_proposal r state_pin [] duplicates pinned_id =
    matches_proposed [] duplicates pinned_id ∷ review_required no_match ∷ []
decide_proposal r state_pin (c ∷ cs) duplicates pinned_id =
    let proposed = matches_proposed (c ∷ cs) duplicates pinned_id in
    let best = best_of (record { head = c; tail = cs }) in
    let hinted_release_id = or_option pinned_id (or_option state_pin (hinted_id r)) in
    if ltb r.policy.auto_apply_threshold best.distance
    then proposed
      ∷ review_required (match_review (is_some hinted_release_id) hinted_release_id best.ref)
      ∷ []
    else decide_strong best proposed duplicates

-- `source?.candidate`, with the acquisition that it came from.
abbrev pub verdict_on : String → Option DeliveredCopy → List String → Option ImportEvent
verdict_on acquisition_id none reasons = none
verdict_on acquisition_id (some candidate) reasons =
    some (release_verdict_recorded acquisition_id candidate reasons)

abbrev pub verdict_of : Option ImportSource → List String → Option ImportEvent
verdict_of none reasons = none
verdict_of (some source) reasons = verdict_on source.acquisition_id source.candidate reasons

abbrev pub with_verdict : Resolution → Option ImportEvent → Decision
with_verdict resolution none = err no_retained_copy
with_verdict resolution (some verdict) = ok (review_resolved resolution ∷ verdict ∷ [])

-- `decideResolutionForReview`, on a review that is not settled.
unfoldable pub decide_open_review :
    Requested → ReviewCause → List MetadataMatch → Resolution → Decision
unfolding match_reference_key
decide_open_review r cause cs accept =
    err (invalid_resolution (resolution_kind accept) (some (review_kind cause)))
decide_open_review r cause cs retry_enrichment =
    err (invalid_resolution (resolution_kind retry_enrichment) (some (review_kind cause)))
decide_open_review r cause cs (apply_candidate ref action) =
    if any (λ c. str_eq (match_reference_key c.ref) (match_reference_key ref)) cs
    then ok (review_resolved (apply_candidate ref action) ∷ [])
    else err (unknown_match (match_reference_key ref))
decide_open_review r cause cs (reject_unusable_delivery reasons) =
    with_verdict (reject_unusable_delivery reasons) (verdict_of r.source (get_or reasons []))
decide_open_review r cause cs resolution = ok (review_resolved resolution ∷ [])

unfoldable pub decide_remediation : Option RemediationState → Resolution → Decision
decide_remediation (some (remediation_state failures open_status)) accept =
    ok (review_resolved accept ∷ [])
decide_remediation (some (remediation_state failures open_status)) retry_enrichment =
    ok (review_resolved retry_enrichment ∷ [])
decide_remediation (some (remediation_state failures open_status)) resolution =
    err (invalid_resolution (resolution_kind resolution) none)
decide_remediation _ resolution = ok []

unfoldable pub decide_resolution : ImportState → Resolution → Decision
unfolding decide_open_review decide_remediation
decide_resolution empty resolution = err unknown_import
decide_resolution (requested r cs) resolution = err no_open_review
decide_resolution (awaiting_review r cause cs none) resolution =
    decide_open_review r cause cs resolution
decide_resolution (awaiting_review r cause cs (some settled)) resolution = ok []
decide_resolution (applied r location mode remediation) resolution =
    decide_remediation remediation resolution
decide_resolution _ resolution = ok []

-- `reasons.join('; ')`
abbrev pub join_reasons : List String → String
join_reasons [] = ""
join_reasons (reason ∷ []) = reason
join_reasons (reason ∷ next ∷ reasons) = cat reason (cat "; " (join_reasons (next ∷ reasons)))

abbrev pub reason_of : PendingRejection → String
reason_of (pending_reject reason) = get_or reason "rejected by review"
reason_of (pending_reject_unusable none) = "rejected by review"
reason_of (pending_reject_unusable (some [])) = "rejected by review"
reason_of (pending_reject_unusable (some (reason ∷ reasons))) = join_reasons (reason ∷ reasons)

abbrev pub is_live : ImportState → Bool
is_live empty = false
is_live s = not (is_terminal s)

abbrev pub applied_events : String → List ApplyFailure → List ImportEvent
applied_events location [] = import_applied location ∷ []
applied_events location (failure ∷ failures) =
    import_applied location ∷ remediation_required (record { head = failure; tail = failures }) ∷ []

abbrev pub skipped_events : List DuplicateIncumbent → List ImportEvent
skipped_events [] =
    import_rejected "beets skipped the apply as a duplicate but reported no incumbent" false ∷ []
skipped_events (incumbent ∷ incumbents) =
    review_required (duplicate_review (record { head = incumbent; tail = incumbents })) ∷ []

unfoldable pub decide : ImportCommand → ImportState → Decision
unfolding is_new_delivery decide_proposal decide_resolution
decide (submit_import directory hints policy source) s =
    let incoming = position_of source in
    let is_new = is_new_delivery (watermark_of s) incoming in
    if is_live s
    then (if is_new then err cycle_in_flight else ok [])
    else if is_some incoming && not is_new
    then ok []
    else ok (import_requested directory hints policy source ∷ [])
decide (record_proposal candidates duplicates pinned_id) (requested r cs) =
    ok (decide_proposal r none candidates duplicates pinned_id)
decide (record_proposal candidates duplicates pinned_id) (proposing r pin cs) =
    ok (decide_proposal r pin candidates duplicates pinned_id)
decide (record_proposal candidates duplicates pinned_id) s = ok []
decide (record_applied location failures) (applying r mode cs) =
    ok (applied_events location failures)
decide (record_applied location failures)
      (applied r previous mode (some (remediation_state old retrying_status))) =
    ok (applied_events location failures)
decide (record_applied location failures) s = ok []
decide (record_apply_skipped_duplicate incumbents) (applying r mode cs) =
    ok (skipped_events incumbents)
decide (record_apply_skipped_duplicate incumbents) s = ok []
decide record_intake_deleted (awaiting_review r cause cs (some settled)) =
    ok (import_rejected (reason_of settled) true ∷ [])
decide record_intake_deleted s = ok []
decide (record_doomed reason) s =
    if is_live s then ok (import_rejected reason false ∷ []) else ok []
decide (resolve_review resolution) s = decide_resolution s resolution
