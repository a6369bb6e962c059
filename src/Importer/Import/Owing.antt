-- ===== src/Importer/Import/Owing.antt =====
-- What an import owes once its review is settled: the intake's deletion, and the release verdict.
use music_downloader.Prelude.{
  ◌≡◌, refl, sym, subst, Bool, true, false, ◌||◌, Option, some, List, [], ◌∷◌, ◌++◌, String, arith,
  if◌then◌else◌,
}
use music_downloader.Importer.Import.Events.{
  ImportHints, ImportPolicy, ImportSource, MetadataMatch, DuplicateIncumbent, ReviewCause,
  Resolution, apply_candidate, supply_id, refresh_candidates, manual_tags, import_as_is, reject,
  reject_unusable_delivery, ImportEvent, import_requested, review_resolved, import_rejected,
  is_cycle_start,
}
use music_downloader.Importer.Import.Commands.{ImportCommand}
use music_downloader.Importer.Import.State.{
  Requested, ImportState, empty, requested, proposing, awaiting_review, applying, applied, rejected,
  evolve, evolve_resolved, fold_from, fold_events,
}
use music_downloader.Importer.Import.Decide.{is_live}
use music_downloader.Importer.Import.Runs.{history}
use music_downloader.Importer.Import.Moves.{
  Proposal, unmatched, weak, duplicated, strong, Move, began, first_proposed, proposed_again,
  first_applied, applied_again, skipped, deleted, doomed, resolved, judged, remedied, IsPlain,
}
use music_downloader.Importer.Import.Routing.{takes_proposal}
use music_downloader.Importer.Import.Induction.{move_induction}

-- Both verbs that reject.
abbrev pub is_rejection : ImportEvent → Bool
is_rejection (review_resolved (reject reason)) = true
is_rejection (review_resolved (reject_unusable_delivery reasons)) = true
is_rejection e = false

-- Whether the last cycle of a history holds a rejection, given whether the cycle so far does.
unfoldable pub is_rejected_from : Bool → List ImportEvent → Bool
unfolding is_cycle_start
is_rejected_from b [] = b
is_rejected_from b (e ∷ es) =
    is_rejected_from (if is_cycle_start e then false else b || is_rejection e) es

is_rejected_from-append :
    (b : Bool) (xs ys : List ImportEvent)
    → is_rejected_from b (xs ++ ys) ≡ is_rejected_from (is_rejected_from b xs) ys
unfolding is_rejected_from
is_rejected_from-append b [] ys = refl
is_rejected_from-append b (x ∷ xs) ys =
    is_rejected_from-append (if is_cycle_start x then false else b || is_rejection x) xs ys

-- The deletion is owed or done.
abbrev pub owes_deletion : ImportState → Bool
owes_deletion (awaiting_review r cause cs (some settled)) = true
owes_deletion (rejected r reason files_gone) = files_gone
owes_deletion s = false

-- What is owed stays covered by the rejections of the cycle.
abbrev Covers : Bool → ImportState → Type 0
Covers b s = owes_deletion s ≡ true → b ≡ true

began-Covers :
    (s : ImportState) (directory : String) (hints : Option ImportHints) (policy : ImportPolicy)
    (source : Option ImportSource)
    → is_live s ≡ false
    → Covers false (evolve s (import_requested directory hints policy source))
unfolding evolve
began-Covers empty directory hints policy source idle = λ o. o
began-Covers (applied r location mode remediation) directory hints policy source idle = λ o. o
began-Covers (rejected r reason files_gone) directory hints policy source idle = λ o. o
began-Covers _ directory hints policy source idle = cc

doomed-Covers :
    (b : Bool) (s : ImportState) (reason : String)
    → is_live s ≡ true
    → Covers b (evolve s (import_rejected reason false))
unfolding evolve
doomed-Covers b (awaiting_review r cause cs settled) reason live = λ o. cc
doomed-Covers b (requested r cs) reason live = λ o. cc
doomed-Covers b (proposing r pin cs) reason live = λ o. cc
doomed-Covers b (applying r mode cs) reason live = λ o. cc
doomed-Covers b _ reason live = cc

or_true : (b : Bool) → b || true ≡ true
or_true true = refl
or_true false = refl

or_keeps : (b : Bool) → b ≡ true → b || false ≡ true
or_keeps true h = refl
or_keeps false h = h

resolved-Covers :
    (b : Bool) (r : Requested) (cause : ReviewCause) (cs : List MetadataMatch)
    (resolution : Resolution)
    → IsPlain resolution
    → Covers
        (b || is_rejection (review_resolved resolution))
        (evolve_resolved r cause cs resolution)
resolved-Covers b r cause cs (reject reason) plain = λ o. or_true b
resolved-Covers b r cause cs (apply_candidate ref action) plain = λ o. cc
resolved-Covers b r cause cs (supply_id id) plain = λ o. cc
resolved-Covers b r cause cs refresh_candidates plain = λ o. cc
resolved-Covers b r cause cs (manual_tags tags) plain = λ o. cc
resolved-Covers b r cause cs import_as_is plain = λ o. cc
resolved-Covers b r cause cs _ plain = absurd plain

Proposal-Covers :
    (b : Bool) (s : ImportState) (r : Requested) (cs : List MetadataMatch)
    (ds : List DuplicateIncumbent) (events : List ImportEvent)
    → takes_proposal s ≡ some r
    → Proposal r cs ds events
    → owes_deletion (fold_from s events) ≡ false
unfolding evolve fold_from
Proposal-Covers b (requested r' old) r cs ds _ e (unmatched duplicates pin) = refl
Proposal-Covers b (requested r' old) r cs ds _ e (weak c cs' duplicates pin hinted far) = refl
Proposal-Covers b (requested r' old) r cs ds _ e (duplicated c cs' d ds' pin near) = refl
Proposal-Covers b (requested r' old) r cs ds _ e (strong c cs' pin near) = refl
Proposal-Covers b (proposing r' p old) r cs ds _ e (unmatched duplicates pin) = refl
Proposal-Covers b (proposing r' p old) r cs ds _ e (weak c cs' duplicates pin hinted far) = refl
Proposal-Covers b (proposing r' p old) r cs ds _ e (duplicated c cs' d ds' pin near) = refl
Proposal-Covers b (proposing r' p old) r cs ds _ e (strong c cs' pin near) = refl
Proposal-Covers b s r cs ds events e p = cc

nothing_owed : (b : Bool) (s : ImportState) → owes_deletion s ≡ false → Covers b s
nothing_owed b s h = λ o. ground (arith, h, o)

Move-Covers :
    {s : ImportState} {events : List ImportEvent}
    → Move s events
    → (b : Bool) → Covers b s
    → Covers (is_rejected_from b events) (fold_from s events)
unfolding evolve fold_from is_rejected_from is_cycle_start
Move-Covers (began s directory hints policy source idle unseen) b h =
    began-Covers s directory hints policy source idle
Move-Covers (first_proposed r cs cs' ds events p) b h =
    nothing_owed _ (fold_from (requested r cs) events)
      (Proposal-Covers b (requested r cs) r cs' ds events refl p)
Move-Covers (proposed_again r pin cs cs' ds events p) b h =
    nothing_owed _ (fold_from (proposing r pin cs) events)
      (Proposal-Covers b (proposing r pin cs) r cs' ds events refl p)
Move-Covers (first_applied r mode cs location []) b h = λ o. cc
Move-Covers (first_applied r mode cs location (f ∷ fs)) b h = λ o. cc
Move-Covers (applied_again r mode previous old location []) b h = λ o. cc
Move-Covers (applied_again r mode previous old location (f ∷ fs)) b h = λ o. cc
Move-Covers (skipped r mode cs []) b h = λ o. cc
Move-Covers (skipped r mode cs (i ∷ is)) b h = λ o. cc
Move-Covers (deleted r cause cs settled) b h = λ o. or_keeps b (h refl)
Move-Covers (doomed s reason live) b h = doomed-Covers _ s reason live
Move-Covers (resolved r cause cs resolution plain) b h =
    resolved-Covers b r cause cs resolution plain
Move-Covers (judged r cause cs reasons source copy from kept) b h =
    λ o. or_keeps (b || true) (or_true b)
Move-Covers (remedied r location mode failures resolution remedy) b h = λ o. cc

-- After any commands, the delivered files were deleted, or their deletion is owed, only if a rejection
-- was resolved in the import's current cycle: a doomed import, and a cycle that follows a rejected
-- one, keep their files.
pub deletion_follows_rejection :
    (commands : List ImportCommand)
    → owes_deletion (fold_events (history commands)) ≡ true
    → is_rejected_from false (history commands) ≡ true
unfolding fold_events fold_from is_rejected_from
deletion_follows_rejection =
    move_induction (λ events s. Covers (is_rejected_from false events) s) (λ o. o)
      λ events s new m h.
        subst (λ b. Covers b (fold_from s new)) (sym (is_rejected_from-append false events new))
          (Move-Covers m (is_rejected_from false events) h)
