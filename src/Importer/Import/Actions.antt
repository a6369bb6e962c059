-- ===== src/Importer/Import/Actions.antt =====
-- What a review offers, and what an import owes once it is settled.
use music_downloader.Prelude.{
  ℕ, ◌<◌, ◌≡◌, ◌≢◌, refl, sym, subst, Bool, true, false, not, Option, none, some, List, [], ◌∷◌,
  String, str_eq, arith, ◌⊎◌, inl, inr, any, is_empty, is_some, Option-cases, ok, get_or,
}
use music_downloader.Importer.Import.Events.{
  ImportSource, match_reference_key, MetadataMatch, ReviewCause, match_review, no_match,
  duplicate_review, remediation_review, ReviewKind, kind_match_review, kind_no_match,
  kind_duplicate_review, kind_remediation_review, review_kind, Resolution, apply_candidate,
  reject_unusable_delivery, accept, retry_enrichment, ResolutionKind, resolution_kind,
  kind_apply_candidate, kind_supply_id, kind_refresh_candidates, kind_manual_tags,
  kind_import_as_is, kind_reject, kind_reject_unusable_delivery, kind_accept, kind_retry_enrichment,
  review_resolved,
}
use music_downloader.Importer.Import.Commands.{ImportCommand, resolve_review}
use music_downloader.Importer.Import.State.{
  Requested, remediation_state, open_status, retrying_status, ImportState, awaiting_review, applied,
  fold_events,
}
use music_downloader.Importer.Import.Decide.{
  Decision, decide_open_review, decide_remediation, decide_resolution, with_verdict, verdict_of,
  decide,
}
use music_downloader.Importer.Import.Aggregate.{
  OpenReview, permitted_actions_for, retained_copy, open_review_of, snapshot, execute,
}
use music_downloader.Importer.Import.Runs.{history}
use music_downloader.Importer.Import.Evidence.{Evidence, HasEvidence, history-Evidence}

-- The position of a verb, to compare verbs by.
abbrev code : ResolutionKind → ℕ
code kind_apply_candidate = 0
code kind_supply_id = 1
code kind_refresh_candidates = 2
code kind_manual_tags = 3
code kind_import_as_is = 4
code kind_reject = 5
code kind_reject_unusable_delivery = 6
code kind_accept = 7
code kind_retry_enrichment = 8

-- `kinds.includes(kind)`
abbrev pub Offers : List ResolutionKind → ResolutionKind → Type 0
Offers [] kind = ⊥
Offers (k ∷ ks) kind = (code k ≡ code kind) ⊎ Offers ks kind

-- A reference is one of the review's candidates, by key; the other verbs name none.
abbrev pub NamesKnown : List MetadataMatch → Resolution → Type 0
NamesKnown cs (apply_candidate ref action) =
    any (λ c. str_eq (match_reference_key c.ref) (match_reference_key ref)) cs ≡ true
NamesKnown cs resolution = Unit

-- The decision resolves the review.
abbrev pub ResolvesBy : Resolution → Decision → Type 0
ResolvesBy resolution (ok (review_resolved r ∷ es)) = r ≡ resolution
ResolvesBy resolution d = ⊥

Offers-retained :
    (kind : ReviewKind) (b c : Bool)
    → Offers (permitted_actions_for kind b c) kind_reject_unusable_delivery
    → c ≡ true
unfolding permitted_actions_for
Offers-retained kind b true h = refl
Offers-retained kind_match_review true false h = ground arith
Offers-retained kind_match_review false false h = ground arith
Offers-retained kind_no_match true false h = ground arith
Offers-retained kind_no_match false false h = ground arith
Offers-retained kind_duplicate_review true false h = ground arith
Offers-retained kind_duplicate_review false false h = ground arith
Offers-retained kind_remediation_review b false h = ground arith

Offers-no_remedy :
    (kind : ReviewKind) (b c : Bool) (verb : ResolutionKind)
    → kind ≢ kind_remediation_review
    → Offers (permitted_actions_for kind b c) verb
    → code verb < 7
unfolding permitted_actions_for
Offers-no_remedy kind_match_review true true verb k h = ground arith
Offers-no_remedy kind_match_review true false verb k h = ground arith
Offers-no_remedy kind_match_review false true verb k h = ground arith
Offers-no_remedy kind_match_review false false verb k h = ground arith
Offers-no_remedy kind_no_match true true verb k h = ground arith
Offers-no_remedy kind_no_match true false verb k h = ground arith
Offers-no_remedy kind_no_match false true verb k h = ground arith
Offers-no_remedy kind_no_match false false verb k h = ground arith
Offers-no_remedy kind_duplicate_review true true verb k h = ground arith
Offers-no_remedy kind_duplicate_review true false verb k h = ground arith
Offers-no_remedy kind_duplicate_review false true verb k h = ground arith
Offers-no_remedy kind_duplicate_review false false verb k h = ground arith
Offers-no_remedy kind_remediation_review b c verb k h = absurd (k refl)

no_remedy :
    (r : Requested) (cs : List MetadataMatch) (cause : ReviewCause)
    → HasEvidence r cs cause
    → review_kind cause ≢ kind_remediation_review
no_remedy r cs (match_review hinted id best) h = λ e. cc
no_remedy r cs no_match h = λ e. cc
no_remedy r cs (duplicate_review incumbents) h = λ e. cc
no_remedy r cs (remediation_review failures) h = absurd h

judged-ResolvesBy :
    (source : Option ImportSource) (reasons : Option (List String))
    → is_some (retained_copy source) ≡ true
    → ResolvesBy
        (reject_unusable_delivery reasons)
        (with_verdict (reject_unusable_delivery reasons) (verdict_of source (get_or reasons [])))
judged-ResolvesBy none reasons h = cc
judged-ResolvesBy (some source) reasons h = elim (Option-cases source.candidate) [
  | inl lacking ↦ absurd (not_retained source lacking h)
  | inr (copy, kept) ↦ rw kept refl
]
  where
    not_retained :
        (source : ImportSource)
        → source.candidate ≡ none
        → is_some (retained_copy (some source)) ≡ true
        → ⊥
    not_retained source lacking h = ground (arith, lacking)

reviewed-ResolvesBy :
    (r : Requested) (cause : ReviewCause) (cs : List MetadataMatch) (resolution : Resolution)
    → HasEvidence r cs cause
    → Offers
        (permitted_actions_for
          (review_kind cause)
          (not (is_empty cs))
          (is_some (retained_copy r.source)))
        (resolution_kind resolution)
    → NamesKnown cs resolution
    → ResolvesBy resolution (decide_open_review r cause cs resolution)
unfolding decide_open_review
reviewed-ResolvesBy r cause cs (apply_candidate ref action) evidence offered known = rw known refl
reviewed-ResolvesBy r cause cs (reject_unusable_delivery reasons) evidence offered known =
    judged-ResolvesBy r.source reasons (Offers-retained (review_kind cause) _ _ offered)
reviewed-ResolvesBy r cause cs accept evidence offered known =
    omega
      (arith, Offers-no_remedy (review_kind cause) _ _ _ (no_remedy r cs cause evidence) offered)
reviewed-ResolvesBy r cause cs retry_enrichment evidence offered known =
    omega
      (arith, Offers-no_remedy (review_kind cause) _ _ _ (no_remedy r cs cause evidence) offered)
reviewed-ResolvesBy r cause cs _ evidence offered known = refl

abbrev OfferedIn : Option OpenReview → ResolutionKind → Type 0
OfferedIn none kind = ⊥
OfferedIn (some review) kind = Offers review.available_actions kind

abbrev KnownIn : Option OpenReview → Resolution → Type 0
KnownIn none resolution = ⊥
KnownIn (some review) resolution = NamesKnown review.candidates resolution

offered-ResolvesBy :
    (s : ImportState) (resolution : Resolution)
    → Evidence s
    → OfferedIn (open_review_of s) (resolution_kind resolution)
    → KnownIn (open_review_of s) resolution
    → ResolvesBy resolution (decide (resolve_review resolution) s)
unfolding open_review_of decide decide_resolution decide_remediation permitted_actions_for
offered-ResolvesBy (awaiting_review r cause cs none) resolution evidence offered known =
    reviewed-ResolvesBy r cause cs resolution evidence offered known
offered-ResolvesBy (applied r location mode (some (remediation_state failures open_status))) accept
      evidence offered known =
    refl
offered-ResolvesBy (applied r location mode (some (remediation_state failures open_status)))
      retry_enrichment evidence offered known =
    refl
offered-ResolvesBy (applied r location mode (some (remediation_state failures open_status))) _
      evidence offered known =
    ground arith
offered-ResolvesBy (awaiting_review r cause cs (some settled)) resolution evidence offered known =
    absurd offered
offered-ResolvesBy (applied r location mode (some (remediation_state failures retrying_status)))
      resolution evidence offered known =
    absurd offered
offered-ResolvesBy (applied r location mode none) resolution evidence offered known = absurd offered
offered-ResolvesBy _ resolution evidence offered known = absurd offered

-- After any commands, a verb that the open review offers is never refused: resolving by it, with a
-- reference to one of the review's candidates where it names one, resolves the review.
pub offered_actions_resolve :
    (commands : List ImportCommand) (review : OpenReview) (resolution : Resolution)
    → (snapshot (fold_events (history commands))).open_review ≡ some review
    → Offers review.available_actions (resolution_kind resolution)
    → NamesKnown review.candidates resolution
    → ResolvesBy resolution (execute (history commands) (resolve_review resolution))
unfolding execute snapshot
offered_actions_resolve commands review resolution opened offered known =
    offered-ResolvesBy (fold_events (history commands)) resolution (history-Evidence commands)
      (subst (λ o. OfferedIn o (resolution_kind resolution)) (sym opened) offered)
      (subst (λ o. KnownIn o resolution) (sym opened) known)
