-- ===== src/Importer/Import/Graph.antt =====
-- The phase diagram of an import.
use music_downloader.Prelude.{
  ◌≡◌, refl, true, false, String, Option, none, some, List, [], ◌∷◌, ◌⊎◌, inl, inr,
}
use music_downloader.Importer.Import.Events.{
  MetadataMatch, DuplicateIncumbent, ApplyFailure, ReviewCause, Resolution, apply_candidate,
  supply_id, refresh_candidates, manual_tags, import_as_is, reject, reject_unusable_delivery,
  accept, retry_enrichment, ApplyMode, ImportEvent, ImportHints, ImportPolicy, ImportSource,
  import_requested, import_rejected, import_applied,
}
use music_downloader.Importer.Import.Commands.{ImportCommand}
use music_downloader.Importer.Import.State.{
  ImportPhase, phase_empty, phase_requested, phase_proposing, phase_awaiting_review, phase_applying,
  phase_applied, phase_rejected, Requested, ImportState, empty, requested, proposing,
  awaiting_review, applying, applied, rejected, phase_of, evolve, fold_from, evolve_resolved,
  remediation_state, retrying_status,
}
use music_downloader.Importer.Import.Decide.{
  Decision, is_live, applied_events, skipped_events, decide,
}
use music_downloader.Importer.Import.Runs.{events_of}
use music_downloader.Importer.Import.Moves.{
  Proposal, unmatched, weak, duplicated, strong, IsPlain, Move, began, first_proposed,
  proposed_again, first_applied, applied_again, skipped, deleted, doomed, resolved, judged,
  remedied, Decided, refusal, converged, moved, decide-Decided,
}

-- The phases that a submission starts a cycle from.
pub data Idle : ImportPhase → Type 0 where
  unseen : Idle phase_empty
  done : Idle phase_applied
  turned_away : Idle phase_rejected

-- The phases that wait for matches, and the phases that matches lead to.
pub data Matching : ImportPhase → Type 0 where
  at_first : Matching phase_requested
  once_more : Matching phase_proposing

pub data Matched : ImportPhase → Type 0 where
  to_review : Matched phase_awaiting_review
  to_apply : Matched phase_applying

-- The phases that a permanent failure ends.
pub data Live : ImportPhase → Type 0 where
  live_requested : Live phase_requested
  live_proposing : Live phase_proposing
  live_review : Live phase_awaiting_review
  live_applying : Live phase_applying

pub data Edge : ImportPhase → ImportPhase → Type 0 where
  submit : {p : ImportPhase} → Idle p → Edge p phase_requested
  propose : {p q : ImportPhase} → Matching p → Matched q → Edge p q
  choose : Edge phase_awaiting_review phase_applying
  search_again : Edge phase_awaiting_review phase_proposing
  apply : Edge phase_applying phase_applied
  find_duplicate : Edge phase_applying phase_awaiting_review
  end : {p : ImportPhase} → Live p → Edge p phase_rejected

-- Two phases, the same or one edge apart.
abbrev pub Follows : ImportPhase → ImportPhase → Type 0
Follows p q = (q ≡ p) ⊎ Edge p q

began-Follows :
    (s : ImportState) (directory : String) (hints : Option ImportHints) (policy : ImportPolicy)
    (source : Option ImportSource)
    → is_live s ≡ false
    → Follows (phase_of s) (phase_of (evolve s (import_requested directory hints policy source)))
unfolding evolve
began-Follows empty directory hints policy source idle = inr (submit unseen)
began-Follows (applied r location mode remediation) directory hints policy source idle =
    inr (submit done)
began-Follows (rejected r reason kept) directory hints policy source idle = inr (submit turned_away)
began-Follows _ directory hints policy source idle = cc

doomed-Follows :
    (s : ImportState) (reason : String)
    → is_live s ≡ true
    → Follows (phase_of s) (phase_of (evolve s (import_rejected reason false)))
unfolding evolve
doomed-Follows (requested r cs) reason live = inr (end live_requested)
doomed-Follows (proposing r pin cs) reason live = inr (end live_proposing)
doomed-Follows (awaiting_review r cause cs settled) reason live = inr (end live_review)
doomed-Follows (applying r mode cs) reason live = inr (end live_applying)
doomed-Follows _ reason live = cc

-- A proposal, in the two phases that take one.
first-Matched :
    (r : Requested) (held : List MetadataMatch) {cs : List MetadataMatch}
    {duplicates : List DuplicateIncumbent} {events : List ImportEvent}
    → Proposal r cs duplicates events
    → Matched (phase_of (fold_from (requested r held) events))
unfolding evolve fold_from
first-Matched r held (unmatched duplicates pin) = to_review
first-Matched r held (weak c cs duplicates pin hinted far) = to_review
first-Matched r held (duplicated c cs d ds pin near) = to_review
first-Matched r held (strong c cs pin near) = to_apply

again-Matched :
    (r : Requested) (pinned : Option String) (held : List MetadataMatch) {cs : List MetadataMatch}
    {duplicates : List DuplicateIncumbent} {events : List ImportEvent}
    → Proposal r cs duplicates events
    → Matched (phase_of (fold_from (proposing r pinned held) events))
unfolding evolve fold_from
again-Matched r pinned held (unmatched duplicates pin) = to_review
again-Matched r pinned held (weak c cs duplicates pin hinted far) = to_review
again-Matched r pinned held (duplicated c cs d ds pin near) = to_review
again-Matched r pinned held (strong c cs pin near) = to_apply

applied-phase :
    (s : ImportState) (location : String) (failures : List ApplyFailure) (r : Requested)
    (mode : ApplyMode)
    → evolve s (import_applied location) ≡ applied r location mode none
    → phase_of (fold_from s (applied_events location failures)) ≡ phase_applied
unfolding evolve fold_from
applied-phase s location [] r mode e = rw e refl
applied-phase s location (failure ∷ failures) r mode e = rw e refl

skipped-Follows :
    (r : Requested) (mode : ApplyMode) (cs : List MetadataMatch)
    (incumbents : List DuplicateIncumbent)
    → Edge phase_applying (phase_of (fold_from (applying r mode cs) (skipped_events incumbents)))
unfolding evolve fold_from
skipped-Follows r mode cs [] = end live_applying
skipped-Follows r mode cs (incumbent ∷ incumbents) = find_duplicate

resolved-Follows :
    (r : Requested) (cause : ReviewCause) (cs : List MetadataMatch) (resolution : Resolution)
    → IsPlain resolution
    → Follows phase_awaiting_review (phase_of (evolve_resolved r cause cs resolution))
resolved-Follows r cause cs (apply_candidate ref action) plain = inr choose
resolved-Follows r cause cs import_as_is plain = inr choose
resolved-Follows r cause cs (manual_tags tags) plain = inr choose
resolved-Follows r cause cs (supply_id id) plain = inr search_again
resolved-Follows r cause cs refresh_candidates plain = inr search_again
resolved-Follows r cause cs (reject reason) plain = inl refl
resolved-Follows r cause cs (reject_unusable_delivery reasons) plain = inl refl
resolved-Follows r cause cs accept plain = inl refl
resolved-Follows r cause cs retry_enrichment plain = inl refl

Move-Follows :
    {s : ImportState} {events : List ImportEvent}
    → Move s events
    → Follows (phase_of s) (phase_of (fold_from s events))
unfolding evolve fold_from
Move-Follows (began s directory hints policy source idle fresh) =
    began-Follows s directory hints policy source idle
Move-Follows (first_proposed r held cs duplicates events proposal) =
    inr (propose at_first (first-Matched r held proposal))
Move-Follows (proposed_again r pin held cs duplicates events proposal) =
    inr (propose once_more (again-Matched r pin held proposal))
Move-Follows (first_applied r mode cs location failures) =
    rw (applied-phase (applying r mode cs) location failures r mode refl) (inr apply)
Move-Follows (applied_again r mode previous old location failures) = inl (
    applied-phase (applied r previous mode (some (remediation_state old retrying_status))) location
      failures r mode refl)
Move-Follows (skipped r mode cs incumbents) = inr (skipped-Follows r mode cs incumbents)
Move-Follows (deleted r cause cs settled) = inr (end live_review)
Move-Follows (doomed s reason live) = doomed-Follows s reason live
Move-Follows (resolved r cause cs resolution plain) = resolved-Follows r cause cs resolution plain
Move-Follows (judged r cause cs reasons source copy from kept) = inl refl
Move-Follows (remedied r location mode failures resolution remedy) = inl refl

Decided-Follows :
    (s : ImportState) (decision : Decision)
    → Decided s decision
    → Follows (phase_of s) (phase_of (fold_from s (events_of decision)))
unfolding fold_from
Decided-Follows s _ (refusal e) = inl refl
Decided-Follows s _ converged = inl refl
Decided-Follows s _ (moved m) = Move-Follows m

-- In every state, a command leaves the phase of an import or takes it along one edge of the phase
-- diagram.
pub import-Follows :
    (command : ImportCommand) (s : ImportState)
    → Follows (phase_of s) (phase_of (fold_from s (events_of (decide command s))))
import-Follows command s = Decided-Follows s (decide command s) (decide-Decided command s)
