-- ===== src/Importer/Import/Evidence.antt =====
-- The evidence that a review keeps.
use music_downloader.Prelude.{◌<◌, ◌≡◌, refl, false, Option, List, [], ◌∷◌, String, is_some}
use music_downloader.Importer.Import.Events.{
  ImportHints, ImportPolicy, ImportSource, MetadataMatch, DuplicateIncumbent, ReviewCause,
  match_review, no_match, duplicate_review, remediation_review, Resolution, reject,
  reject_unusable_delivery, accept, retry_enrichment, ImportEvent, import_requested,
  import_rejected,
}
use music_downloader.Importer.Import.Commands.{ImportCommand}
use music_downloader.Importer.Import.State.{
  Requested, ImportState, requested, proposing, awaiting_review, evolve, evolve_resolved, fold_from,
  fold_events,
}
use music_downloader.Importer.Import.Runs.{history}
use music_downloader.Importer.Import.Moves.{
  Proposal, unmatched, weak, duplicated, strong, Move, began, first_proposed, proposed_again,
  first_applied, applied_again, skipped, deleted, doomed, resolved, judged, remedied,
}
use music_downloader.Importer.Import.Induction.{move_induction}
use music_downloader.Importer.Import.Nearest.{IsNearest, best_of-IsNearest}

-- The evidence that stands behind a review.
abbrev pub HasEvidence : Requested → List MetadataMatch → ReviewCause → Type 0
HasEvidence r cs (match_review hinted id best) =
    (hinted ≡ is_some id)
    × (m : MetadataMatch) × (m.ref ≡ best)
    × IsNearest m cs
    × (r.policy.auto_apply_threshold < m.distance)
HasEvidence r cs no_match = cs ≡ []
HasEvidence r cs (duplicate_review incumbents) = Unit
HasEvidence r cs (remediation_review failures) = ⊥

abbrev pub Evidence : ImportState → Type 0
Evidence (awaiting_review r cause cs settled) = HasEvidence r cs cause
Evidence s = Unit

resolved-Evidence :
    (r : Requested) (cause : ReviewCause) (cs : List MetadataMatch) (resolution : Resolution)
    → HasEvidence r cs cause
    → Evidence (evolve_resolved r cause cs resolution)
resolved-Evidence r cause cs accept h = h
resolved-Evidence r cause cs retry_enrichment h = h
resolved-Evidence r cause cs (reject reason) h = h
resolved-Evidence r cause cs (reject_unusable_delivery reasons) h = h
resolved-Evidence r cause cs _ h = tt

began-Evidence :
    (s : ImportState) (directory : String) (hints : Option ImportHints) (policy : ImportPolicy)
    (source : Option ImportSource)
    → Evidence s
    → Evidence (evolve s (import_requested directory hints policy source))
unfolding evolve
began-Evidence (awaiting_review r cause cs settled) directory hints policy source h = h
began-Evidence _ directory hints policy source h = tt

doomed-Evidence :
    (s : ImportState) (reason : String) → Evidence (evolve s (import_rejected reason false))
unfolding evolve
doomed-Evidence (awaiting_review r cause cs settled) reason = tt
doomed-Evidence _ reason = tt

first_proposed-Evidence :
    (r : Requested) (cs : List MetadataMatch) {proposed : List MetadataMatch}
    {duplicates : List DuplicateIncumbent} {events : List ImportEvent}
    → Proposal r proposed duplicates events
    → Evidence (fold_from (requested r cs) events)
unfolding evolve fold_from
first_proposed-Evidence r cs (unmatched duplicates pin) = refl
first_proposed-Evidence r cs (weak c cs' duplicates pin hinted far) =
    (refl, _, refl, best_of-IsNearest c cs', far)
first_proposed-Evidence r cs (duplicated c cs' d ds pin near) = tt
first_proposed-Evidence r cs (strong c cs' pin near) = tt

proposed_again-Evidence :
    (r : Requested) (p : Option String) (cs : List MetadataMatch) {proposed : List MetadataMatch}
    {duplicates : List DuplicateIncumbent} {events : List ImportEvent}
    → Proposal r proposed duplicates events
    → Evidence (fold_from (proposing r p cs) events)
unfolding evolve fold_from
proposed_again-Evidence r p cs (unmatched duplicates pin) = refl
proposed_again-Evidence r p cs (weak c cs' duplicates pin hinted far) =
    (refl, _, refl, best_of-IsNearest c cs', far)
proposed_again-Evidence r p cs (duplicated c cs' d ds pin near) = tt
proposed_again-Evidence r p cs (strong c cs' pin near) = tt

Move-Evidence :
    {s : ImportState} {events : List ImportEvent}
    → Move s events
    → Evidence s
    → Evidence (fold_from s events)
unfolding evolve fold_from
Move-Evidence (began s directory hints policy source idle unseen) h =
    began-Evidence s directory hints policy source h
Move-Evidence (first_proposed r cs _ _ _ p) h = first_proposed-Evidence r cs p
Move-Evidence (proposed_again r pin cs _ _ _ p) h = proposed_again-Evidence r pin cs p
Move-Evidence (first_applied r mode cs location []) h = tt
Move-Evidence (first_applied r mode cs location (f ∷ fs)) h = tt
Move-Evidence (applied_again r mode previous old location []) h = tt
Move-Evidence (applied_again r mode previous old location (f ∷ fs)) h = tt
Move-Evidence (skipped r mode cs []) h = tt
Move-Evidence (skipped r mode cs (i ∷ is)) h = tt
Move-Evidence (deleted r cause cs settled) h = tt
Move-Evidence (doomed s reason live) h = doomed-Evidence s reason
Move-Evidence (resolved r cause cs resolution plain) h = resolved-Evidence r cause cs resolution h
Move-Evidence (judged r cause cs reasons source copy from kept) h = h
Move-Evidence (remedied r location mode failures resolution remedy) h = tt

-- After any commands, a review that waits has its evidence: a match review names the nearest of the
-- candidates kept, which lies above the threshold of the import's policy, and says that a release was
-- hinted exactly when it names one; a review without a match keeps no candidate; and none is a
-- remediation review.
pub history-Evidence : (commands : List ImportCommand) → Evidence (fold_events (history commands))
unfolding fold_events fold_from
history-Evidence =
    move_induction (λ events s. Evidence s) tt (λ events s new m h. Move-Evidence m h)
