-- ===== src/Importer/Import/Verdicts.antt =====
-- The release verdicts of an import.
use music_downloader.Prelude.{
  ℕ, ◌+◌, ◌≡◌, refl, sym, Bool, true, false, List, [], ◌∷◌, ◌++◌, arith, ◌⊎◌, inl, inr,
  if◌then◌else◌,
}
use music_downloader.Importer.Import.Events.{
  MetadataMatch, DuplicateIncumbent, Resolution, reject_unusable_delivery, ImportEvent,
  review_resolved, release_verdict_recorded,
}
use music_downloader.Importer.Import.Commands.{ImportCommand}
use music_downloader.Importer.Import.State.{Requested, ImportState}
use music_downloader.Importer.Import.Runs.{history}
use music_downloader.Importer.Import.Moves.{
  Proposal, unmatched, weak, duplicated, strong, Move, began, first_proposed, proposed_again,
  first_applied, applied_again, skipped, deleted, doomed, resolved, judged, remedied, IsPlain,
  IsRemedy,
}
use music_downloader.Importer.Import.Induction.{move_induction}

abbrev pub is_verdict : ImportEvent → Bool
is_verdict (release_verdict_recorded id copy reasons) = true
is_verdict e = false

abbrev pub is_unusable : ImportEvent → Bool
is_unusable (review_resolved (reject_unusable_delivery reasons)) = true
is_unusable e = false

-- How many events of a history are such.
unfoldable pub count : (ImportEvent → Bool) → List ImportEvent → ℕ
count p [] = 0
count p (e ∷ es) = (if p e then 1 else 0) + count p es

count-append :
    (p : ImportEvent → Bool) (xs ys : List ImportEvent)
    → count p (xs ++ ys) ≡ count p xs + count p ys
unfolding count
count-append p [] ys = omega arith
count-append p (x ∷ xs) ys = omega (arith, count-append p xs ys)

Proposal-count :
    {r : Requested} {cs : List MetadataMatch} {ds : List DuplicateIncumbent}
    {events : List ImportEvent}
    → Proposal r cs ds events
    → count is_verdict events ≡ count is_unusable events
unfolding count
Proposal-count (unmatched duplicates pin) = refl
Proposal-count (weak c cs duplicates pin hinted far) = refl
Proposal-count (duplicated c cs d ds pin near) = refl
Proposal-count (strong c cs pin near) = refl

plain-count :
    (resolution : Resolution)
    → IsPlain resolution ⊎ IsRemedy resolution
    → count is_unusable (review_resolved resolution ∷ []) ≡ 0
unfolding count
plain-count (reject_unusable_delivery reasons) (inl h) = absurd h
plain-count (reject_unusable_delivery reasons) (inr h) = absurd h
plain-count _ h = refl

Move-count :
    {s : ImportState} {events : List ImportEvent}
    → Move s events
    → count is_verdict events ≡ count is_unusable events
unfolding count
Move-count (began s directory hints policy source idle unseen) = refl
Move-count (first_proposed r cs cs' ds events p) = Proposal-count p
Move-count (proposed_again r pin cs cs' ds events p) = Proposal-count p
Move-count (first_applied r mode cs location []) = refl
Move-count (first_applied r mode cs location (f ∷ fs)) = refl
Move-count (applied_again r mode previous old location []) = refl
Move-count (applied_again r mode previous old location (f ∷ fs)) = refl
Move-count (skipped r mode cs []) = refl
Move-count (skipped r mode cs (i ∷ is)) = refl
Move-count (deleted r cause cs settled) = refl
Move-count (doomed s reason live) = refl
Move-count (resolved r cause cs resolution plain) = sym (plain-count resolution (inl plain))
Move-count (judged r cause cs reasons source copy from kept) = refl
Move-count (remedied r location mode failures resolution remedy) =
    sym (plain-count resolution (inr remedy))

-- After any commands, the history records as many release verdicts as it resolves reviews by
-- rejecting the delivery as unusable.
pub verdicts_match_rejections :
    (commands : List ImportCommand)
    → count is_verdict (history commands) ≡ count is_unusable (history commands)
unfolding count
verdicts_match_rejections =
    move_induction (λ events s. count is_verdict events ≡ count is_unusable events) refl
      λ events s new m h. omega (
        arith,
        count-append is_verdict events new,
        count-append is_unusable events new,
        h,
        Move-count m,
      )
