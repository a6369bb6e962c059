-- ===== src/Importer/Import/Routing.antt =====
-- What an import does with the matches that were proposed.
use music_downloader.Prelude.{
  ◌≤◌, ◌<◌, ◌≡◌, refl, subst, Option, none, some, List, [], ◌∷◌, String, get_or,
}
use music_downloader.Importer.Import.Events.{
  MetadataMatch, DuplicateIncumbent, match_review, no_match, duplicate_review, candidate_mode,
  ImportEvent,
}
use music_downloader.Importer.Import.Commands.{record_proposal}
use music_downloader.Importer.Import.State.{
  Requested, ImportState, requested, proposing, awaiting_review, applying, evolve, fold_from,
}
use music_downloader.Importer.Import.Decide.{decide_proposal, decide}
use music_downloader.Importer.Import.Runs.{events_of}
use music_downloader.Importer.Import.Moves.{
  Proposal, unmatched, weak, duplicated, strong, decide_proposal-Proposal,
}
use music_downloader.Importer.Import.Nearest.{IsNearest, best_of-IsNearest}

-- The state that takes a proposal, with its request.
abbrev pub takes_proposal : ImportState → Option Requested
takes_proposal (requested r cs) = some r
takes_proposal (proposing r pin cs) = some r
takes_proposal s = none

-- What becomes of an import whose matches were proposed.
abbrev pub Routes : Requested → List MetadataMatch → List DuplicateIncumbent → ImportState → Type 0
Routes r cs duplicates (applying r' (candidate_mode ref none) cs') =
    (r' ≡ r)
    × (cs' ≡ cs)
    × (duplicates ≡ [])
    × (m : MetadataMatch) × (m.ref ≡ ref)
    × IsNearest m cs
    × (m.distance ≤ r.policy.auto_apply_threshold)
Routes r cs duplicates (awaiting_review r' no_match cs' none) = (r' ≡ r) × (cs' ≡ cs) × (cs ≡ [])
Routes r cs duplicates (awaiting_review r' (match_review hinted id best) cs' none) =
    (r' ≡ r)
    × (cs' ≡ cs)
    × (m : MetadataMatch) × (m.ref ≡ best)
    × IsNearest m cs
    × (r.policy.auto_apply_threshold < m.distance)
Routes r cs duplicates (awaiting_review r' (duplicate_review incumbents) cs' none) =
    (r' ≡ r)
    × (cs' ≡ cs)
    × (duplicates ≡ incumbents.head ∷ incumbents.tail)
    × (m : MetadataMatch) × IsNearest m cs
    × (m.distance ≤ r.policy.auto_apply_threshold)
Routes r cs duplicates s = ⊥

first_proposed-Routes :
    (r : Requested) (old : List MetadataMatch) {cs : List MetadataMatch}
    {ds : List DuplicateIncumbent} {events : List ImportEvent}
    → Proposal r cs ds events
    → Routes r cs ds (fold_from (requested r old) events)
unfolding evolve fold_from
first_proposed-Routes r old (unmatched duplicates pin) = (refl, refl, refl)
first_proposed-Routes r old (weak c cs duplicates pin hinted far) =
    (refl, refl, _, refl, best_of-IsNearest c cs, far)
first_proposed-Routes r old (duplicated c cs d ds pin near) =
    (refl, refl, refl, _, best_of-IsNearest c cs, near)
first_proposed-Routes r old (strong c cs pin near) =
    (refl, refl, refl, _, refl, best_of-IsNearest c cs, near)

proposed_again-Routes :
    (r : Requested) (p : Option String) (old : List MetadataMatch) {cs : List MetadataMatch}
    {ds : List DuplicateIncumbent} {events : List ImportEvent}
    → Proposal r cs ds events
    → Routes r cs ds (fold_from (proposing r p old) events)
unfolding evolve fold_from
proposed_again-Routes r p old (unmatched duplicates pin) = (refl, refl, refl)
proposed_again-Routes r p old (weak c cs duplicates pin hinted far) =
    (refl, refl, _, refl, best_of-IsNearest c cs, far)
proposed_again-Routes r p old (duplicated c cs d ds pin near) =
    (refl, refl, refl, _, best_of-IsNearest c cs, near)
proposed_again-Routes r p old (strong c cs pin near) =
    (refl, refl, refl, _, refl, best_of-IsNearest c cs, near)

-- Proposed matches route an import that waits for them: without a candidate to a review; with the
-- nearest one above the threshold to a match review that names it; else to a duplicate review when the
-- library has the album, and to the nearest candidate's application when it does not.
pub proposals_route :
    (s : ImportState) (r : Requested) (cs : List MetadataMatch) (ds : List DuplicateIncumbent)
    (pin : Option String)
    → takes_proposal s ≡ some r
    → Routes r cs ds (fold_from s (events_of (decide (record_proposal cs ds pin) s)))
unfolding decide
proposals_route (requested r' old) r cs ds pin e =
    subst
      (λ (o : Option Requested).
        Routes (get_or o r') cs ds
          (fold_from (requested r' old) (decide_proposal r' none cs ds pin)))
      e (first_proposed-Routes r' old (decide_proposal-Proposal r' none cs ds pin))
proposals_route (proposing r' p old) r cs ds pin e =
    subst
      (λ (o : Option Requested).
        Routes (get_or o r') cs ds
          (fold_from (proposing r' p old) (decide_proposal r' p cs ds pin)))
      e (proposed_again-Routes r' p old (decide_proposal-Proposal r' p cs ds pin))
proposals_route s r cs ds pin e = cc
