-- ===== src/Importer/Import/Effects.antt =====
-- What the events of a decision ask for is what the import then waits for.
use music_downloader.Prelude.{
  ◌≡◌, refl, sym, ap, ◌∙◌, subst, true, false, Option, none, some, List, [], ◌∷◌, ◌++◌, String,
  arith, ok,
}
use music_downloader.Importer.Import.Events.{
  ImportHints, ImportPolicy, ImportSource, MetadataMatch, ReviewCause, Resolution, apply_candidate,
  supply_id, refresh_candidates, manual_tags, import_as_is, reject, accept, retry_enrichment,
  ImportEvent, import_requested, review_resolved, import_rejected,
}
use music_downloader.Importer.Import.Commands.{ImportCommand}
use music_downloader.Importer.Import.State.{
  Requested, remediation_state, retrying_status, ImportState, empty, requested, proposing,
  awaiting_review, applying, applied, rejected, evolve, evolve_resolved, fold_from, fold_events,
}
use music_downloader.Importer.Import.Decide.{Decision, decide, is_live}
use music_downloader.Importer.Import.Runs.{fold_from-append}
use music_downloader.Importer.Import.Moves.{
  unmatched, weak, duplicated, strong, Move, began, first_proposed, proposed_again, first_applied,
  applied_again, skipped, deleted, doomed, resolved, judged, remedied, IsPlain, Decided, refusal,
  converged, moved, decide-Decided,
}
use music_downloader.Importer.Import.React.{Effect, propose, apply, delete_intake, react}
use music_downloader.Importer.Import.Aggregate.{execute, react_to}

-- A field of the hints, if there are hints and they have it.
abbrev pub hinted : (ImportHints → Option String) → Option ImportHints → Option String
hinted field none = none
hinted field (some hints) = field hints

-- What a state waits for: an import that was requested, for matches by its hints; one that proposes
-- again, for those of the pinned release; one whose rejection is settled, for the deletion of its
-- intake; one that applies a mode, for that; and one whose remediation is retried, for its mode in the
-- library. The other states wait for no effect.
abbrev pub awaited : ImportState → List Effect
awaited (requested r cs) =
    propose r.directory (hinted (λ h. h.mb_release_id) r.hints) (hinted (λ h. h.artist) r.hints)
      (hinted (λ h. h.album) r.hints)
    ∷ []
awaited (proposing r pin cs) = propose r.directory pin none none ∷ []
awaited (awaiting_review r cause cs (some rejection)) = delete_intake r.directory ∷ []
awaited (applying r mode cs) = apply r.directory mode ∷ []
awaited (applied r location mode (some (remediation_state failures retrying_status))) =
    apply location mode ∷ []
awaited _ = []

-- The effects of new events, each on the history up to it.
unfoldable pub effects_after : (history new : List ImportEvent) → List Effect
unfolding react_to
effects_after history [] = []
effects_after history (e ∷ es) =
    react_to (history ++ e ∷ []) e ++ effects_after (history ++ e ∷ []) es

-- The same on the folded state.
unfoldable effects_from : ImportState → List ImportEvent → List Effect
unfolding evolve react
effects_from s [] = []
effects_from s (e ∷ es) = react e (evolve s e) ++ effects_from (evolve s e) es

fold_events-append :
    (history new : List ImportEvent)
    → fold_events (history ++ new) ≡ fold_from (fold_events history) new
unfolding fold_events
fold_events-append history new = fold_from-append empty history new

effects-fold :
    (history new : List ImportEvent)
    → effects_after history new ≡ effects_from (fold_events history) new
unfolding effects_after effects_from react_to fold_from
effects-fold history [] = refl
effects-fold history (e ∷ es) =
    rw (effects-fold (history ++ e ∷ []) es, fold_events-append history (e ∷ [])) refl

began-effects :
    (s : ImportState) (directory : String) (hints : Option ImportHints) (policy : ImportPolicy)
    (source : Option ImportSource)
    → is_live s ≡ false
    → let e = import_requested directory hints policy source in
      react e (evolve s e) ++ [] ≡ awaited (evolve s e)
unfolding evolve react
began-effects empty directory none policy source idle = refl
began-effects empty directory (some hints) policy source idle = refl
began-effects (applied r location mode remediation) directory none policy source idle = refl
began-effects (applied r location mode remediation) directory (some hints) policy source idle = refl
began-effects (rejected r reason files_gone) directory none policy source idle = refl
began-effects (rejected r reason files_gone) directory (some hints) policy source idle = refl
began-effects _ directory hints policy source idle = cc

resolved-effects :
    (r : Requested) (cause : ReviewCause) (cs : List MetadataMatch) (resolution : Resolution)
    → IsPlain resolution
    → let s = evolve_resolved r cause cs resolution in
      react (review_resolved resolution) s ++ [] ≡ awaited s
unfolding react
resolved-effects r cause cs (apply_candidate ref action) plain = refl
resolved-effects r cause cs (supply_id id) plain = refl
resolved-effects r cause cs refresh_candidates plain = refl
resolved-effects r cause cs (manual_tags tags) plain = refl
resolved-effects r cause cs import_as_is plain = refl
resolved-effects r cause cs (reject reason) plain = refl
resolved-effects r cause cs _ plain = absurd plain

doomed-awaited :
    (s : ImportState) (reason : String)
    → is_live s ≡ true
    → [] ≡ awaited (evolve s (import_rejected reason false))
unfolding evolve
doomed-awaited (awaiting_review r cause cs settled) reason live = refl
doomed-awaited (requested r cs) reason live = refl
doomed-awaited (proposing r pin cs) reason live = refl
doomed-awaited (applying r mode cs) reason live = refl
doomed-awaited _ reason live = cc

Move-effects :
    {s : ImportState} {events : List ImportEvent}
    → Move s events
    → effects_from s events ≡ awaited (fold_from s events)
unfolding evolve fold_from react effects_from
Move-effects (began s directory hints policy source idle unseen) =
    began-effects s directory hints policy source idle
Move-effects (first_proposed r cs _ _ _ (unmatched duplicates pin)) = refl
Move-effects (first_proposed r cs _ _ _ (weak c cs' duplicates pin hint far)) = refl
Move-effects (first_proposed r cs _ _ _ (duplicated c cs' d ds pin near)) = refl
Move-effects (first_proposed r cs _ _ _ (strong c cs' pin near)) = refl
Move-effects (proposed_again r p cs _ _ _ (unmatched duplicates pin)) = refl
Move-effects (proposed_again r p cs _ _ _ (weak c cs' duplicates pin hint far)) = refl
Move-effects (proposed_again r p cs _ _ _ (duplicated c cs' d ds pin near)) = refl
Move-effects (proposed_again r p cs _ _ _ (strong c cs' pin near)) = refl
Move-effects (first_applied r mode cs location []) = refl
Move-effects (first_applied r mode cs location (x ∷ xs)) = refl
Move-effects (applied_again r mode previous old location []) = refl
Move-effects (applied_again r mode previous old location (x ∷ xs)) = refl
Move-effects (skipped r mode cs []) = refl
Move-effects (skipped r mode cs (i ∷ is)) = refl
Move-effects (deleted r cause cs settled) = refl
Move-effects (doomed s reason live) = doomed-awaited s reason live
Move-effects (resolved r cause cs resolution plain) = resolved-effects r cause cs resolution plain
Move-effects (judged r cause cs reasons source copy from kept) = refl
Move-effects (remedied r location mode failures accept remedy) = refl
Move-effects (remedied r location mode failures retry_enrichment remedy) = refl
Move-effects (remedied r location mode failures _ remedy) = absurd remedy

Decided-effects :
    (s : ImportState) (d : Decision) (e : ImportEvent) (es : List ImportEvent)
    → Decided s d
    → d ≡ ok (e ∷ es)
    → effects_from s (e ∷ es) ≡ awaited (fold_from s (e ∷ es))
Decided-effects s _ e es (refusal x) h = cc
Decided-effects s _ e es converged h = cc
Decided-effects s _ e es (moved {events = new} m) h =
    subst (λ events. effects_from s events ≡ awaited (fold_from s events)) (ground arith)
      (Move-effects m)

-- On any history, the effects of the events that a command appends, each on the history up to it, are
-- together exactly what the import then waits for: to propose by its hints or its pinned release, to
-- apply its mode, to delete its intake, or nothing.
pub decision_effects-awaited :
    (history : List ImportEvent) (command : ImportCommand) (e : ImportEvent) (es : List ImportEvent)
    → execute history command ≡ ok (e ∷ es)
    → effects_after history (e ∷ es) ≡ awaited (fold_events (history ++ e ∷ es))
unfolding execute
decision_effects-awaited history command e es h =
    effects-fold history (e ∷ es)
    ∙ Decided-effects (fold_events history) (decide command (fold_events history)) e es
        (decide-Decided command (fold_events history)) h
    ∙ ap awaited (sym (fold_events-append history (e ∷ es)))
