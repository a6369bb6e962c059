-- ===== src/Importer/Import/Watermark.antt =====
-- The seam's watermark over a stream of imports.
use music_downloader.Prelude.{
  ℕ, ◌≤◌, ◌≡◌, refl, sym, ap, ◌∙◌, subst, false, Option, none, some, List, [], ◌∷◌, ◌++◌, String,
  ltb, max, All, arith, ◌⊎◌, inl, inr, Bool-cases, Option-cases, ok,
}
use mathlib.Core.List.{append-nil, append_assoc}
use music_downloader.Eventing.Drain.Feed.{In}
use music_downloader.Importer.Import.Events.{
  ImportHints, ImportPolicy, ImportSource, MetadataMatch, ReviewCause, Resolution, accept,
  ImportEvent, import_requested, matches_proposed, import_rejected,
}
use music_downloader.Importer.Import.Commands.{ImportCommand, submit_import}
use music_downloader.Importer.Import.State.{
  Requested, ImportState, empty, awaiting_review, applied, rejected, watermark_of, position_of,
  max_watermark, evolve, evolve_resolved, fold_from, fold_events,
}
use music_downloader.Importer.Import.Decide.{is_new_delivery, is_live, decide}
use music_downloader.Importer.Import.Aggregate.{snapshot, execute}
use music_downloader.Importer.Import.Runs.{history}
use music_downloader.Importer.Import.Moves.{
  unmatched, weak, duplicated, strong, Move, began, first_proposed, proposed_again, first_applied,
  applied_again, skipped, deleted, doomed, resolved, judged, remedied,
}
use music_downloader.Importer.Import.Induction.{move_induction}

-- The highest of an earlier position and the one that an event records.
abbrev pub raise : Option ℕ → ImportEvent → Option ℕ
unfolding max_watermark
raise highest (import_requested directory hints policy source) =
    max_watermark highest (position_of source)
raise highest e = highest

-- The highest of an earlier position and those that a history records.
unfoldable pub highest_from : Option ℕ → List ImportEvent → Option ℕ
highest_from highest [] = highest
highest_from highest (e ∷ es) = highest_from (raise highest e) es

highest_from-append :
    (o : Option ℕ) (xs ys : List ImportEvent)
    → highest_from o (xs ++ ys) ≡ highest_from (highest_from o xs) ys
unfolding highest_from
highest_from-append o [] ys = refl
highest_from-append o (x ∷ xs) ys = highest_from-append (raise o x) xs ys

resolved-watermark :
    (r : Requested) (cause : ReviewCause) (cs : List MetadataMatch) (resolution : Resolution)
    → watermark_of (evolve_resolved r cause cs resolution) ≡ r.seam_watermark
resolved-watermark r cause cs accept = refl
resolved-watermark r cause cs _ = refl

began-watermark :
    (s : ImportState) (directory : String) (hints : Option ImportHints) (policy : ImportPolicy)
    (source : Option ImportSource)
    → is_live s ≡ false
    → watermark_of (evolve s (import_requested directory hints policy source))
      ≡ max_watermark (watermark_of s) (position_of source)
unfolding evolve max_watermark
began-watermark empty directory hints policy source idle = refl
began-watermark (applied r location mode remediation) directory hints policy source idle = refl
began-watermark (rejected r reason files_gone) directory hints policy source idle = refl
began-watermark _ directory hints policy source idle = cc

doomed-watermark :
    (s : ImportState) (reason : String)
    → watermark_of (evolve s (import_rejected reason false)) ≡ watermark_of s
unfolding evolve
doomed-watermark (awaiting_review r cause cs settled) reason = refl
doomed-watermark _ reason = refl

Move-watermark :
    {s : ImportState} {events : List ImportEvent}
    → Move s events
    → watermark_of (fold_from s events) ≡ highest_from (watermark_of s) events
unfolding evolve fold_from highest_from
Move-watermark (began s directory hints policy source idle unseen) =
    began-watermark s directory hints policy source idle
Move-watermark (first_proposed r cs _ _ _ (unmatched duplicates pin)) = refl
Move-watermark (first_proposed r cs _ _ _ (weak c cs' duplicates pin hinted far)) = refl
Move-watermark (first_proposed r cs _ _ _ (duplicated c cs' d ds pin near)) = refl
Move-watermark (first_proposed r cs _ _ _ (strong c cs' pin near)) = refl
Move-watermark (proposed_again r p cs _ _ _ (unmatched duplicates pin)) = refl
Move-watermark (proposed_again r p cs _ _ _ (weak c cs' duplicates pin hinted far)) = refl
Move-watermark (proposed_again r p cs _ _ _ (duplicated c cs' d ds pin near)) = refl
Move-watermark (proposed_again r p cs _ _ _ (strong c cs' pin near)) = refl
Move-watermark (first_applied r mode cs location []) = refl
Move-watermark (first_applied r mode cs location (f ∷ fs)) = refl
Move-watermark (applied_again r mode previous old location []) = refl
Move-watermark (applied_again r mode previous old location (f ∷ fs)) = refl
Move-watermark (skipped r mode cs []) = refl
Move-watermark (skipped r mode cs (i ∷ is)) = refl
Move-watermark (deleted r cause cs settled) = refl
Move-watermark (doomed s reason live) = doomed-watermark s reason
Move-watermark (resolved r cause cs resolution plain) = resolved-watermark r cause cs resolution
Move-watermark (judged r cause cs reasons source copy from kept) = refl
Move-watermark (remedied r location mode failures resolution remedy) = refl

watermark-highest_from :
    (commands : List ImportCommand)
    → (snapshot (fold_events (history commands))).seam_watermark
      ≡ highest_from none (history commands)
unfolding snapshot highest_from
watermark-highest_from =
    move_induction (λ events s. watermark_of s ≡ highest_from none events) refl
      λ events s new m h.
        Move-watermark m
        ∙ ap (λ o. highest_from o new) h
        ∙ sym (highest_from-append none events new)

-- At or below the other; nothing is below a position where none is recorded.
abbrev pub IsCovered : ℕ → Option ℕ → Type 0
IsCovered n none = ⊥
IsCovered n (some highest) = n ≤ highest

max-IsCovered : (n : ℕ) (o p : Option ℕ) → IsCovered n o → IsCovered n (max_watermark o p)
unfolding max_watermark
max-IsCovered n (some m) none h = h
max-IsCovered n (some m) (some p) h = omega arith
max-IsCovered n none p h = absurd h

raise-IsCovered : (n : ℕ) (o : Option ℕ) (e : ImportEvent) → IsCovered n o → IsCovered n (raise o e)
unfolding raise
raise-IsCovered n o (import_requested directory hints policy source) h =
    max-IsCovered n o (position_of source) h
raise-IsCovered n o _ h = h

highest-IsCovered :
    (n : ℕ) (o : Option ℕ) (es : List ImportEvent) → IsCovered n o → IsCovered n (highest_from o es)
unfolding highest_from
highest-IsCovered n o [] h = h
highest-IsCovered n o (e ∷ es) h = highest-IsCovered n (raise o e) es (raise-IsCovered n o e h)

-- Some event of the history opened a cycle with this feed position.
abbrev pub Delivered : ℕ → List ImportEvent → Type 0
Delivered n [] = ⊥
Delivered n (import_requested directory hints policy source ∷ es) =
    (position_of source ≡ some n) ⊎ Delivered n es
Delivered n (e ∷ es) = Delivered n es

max-own-IsCovered : (n : ℕ) (o p : Option ℕ) → p ≡ some n → IsCovered n (max_watermark o p)
unfolding max_watermark
max-own-IsCovered n none p e = rw e (omega arith)
max-own-IsCovered n (some m) p e = rw e (omega arith)

Delivered-IsCovered :
    (n : ℕ) (o : Option ℕ) (es : List ImportEvent)
    → Delivered n es
    → IsCovered n (highest_from o es)
unfolding highest_from raise
Delivered-IsCovered n o [] d = absurd d
Delivered-IsCovered n o (import_requested directory hints policy source ∷ es) (inl e) =
    highest-IsCovered n _ es (max-own-IsCovered n o (position_of source) e)
Delivered-IsCovered n o (import_requested directory hints policy source ∷ es) (inr d) =
    Delivered-IsCovered n (max_watermark o (position_of source)) es d
Delivered-IsCovered n o (matches_proposed cs ds pin ∷ es) d = Delivered-IsCovered n o es d
Delivered-IsCovered n o (_ ∷ es) d = Delivered-IsCovered n o es d

covered-converges :
    (s : ImportState) (directory : String) (hints : Option ImportHints) (policy : ImportPolicy)
    (source : ImportSource) (n : ℕ)
    → source.feed_position ≡ some n
    → IsCovered n (watermark_of s)
    → decide (submit_import directory hints policy (some source)) s ≡ ok []
unfolding decide is_new_delivery
covered-converges s directory hints policy source n e h = elim (Option-cases (watermark_of s)) [
  | inl unset ↦ absurd (subst (IsCovered n) unset h)
  | inr (m, set) ↦
      let old : ltb m n ≡ false = not_below m n (subst (IsCovered n) set h) in
      elim (Bool-cases (is_live s)) [
        | inl live ↦ rw (e, set, live, old) refl
        | inr idle ↦ rw (e, set, idle, old) refl
      ]
]
  where
    not_below : (m n : ℕ) → n ≤ m → ltb m n ≡ false
    not_below m n h = ground arith

-- A delivery whose feed position the history records is absorbed, whichever commands came between.
pub redelivery_converges :
    (commands : List ImportCommand) (directory : String) (hints : Option ImportHints)
    (policy : ImportPolicy) (source : ImportSource) (n : ℕ)
    → Delivered n (history commands)
    → source.feed_position ≡ some n
    → execute (history commands) (submit_import directory hints policy (some source)) ≡ ok []
unfolding execute snapshot
redelivery_converges commands directory hints policy source n d e =
    covered-converges (fold_events (history commands)) directory hints policy source n e
      (rw (watermark-highest_from commands) (Delivered-IsCovered n none (history commands) d))

-- The feed positions that a history records, in its order.
abbrev pub with_position : Option ℕ → List ℕ → List ℕ
with_position none positions = positions
with_position (some n) positions = n ∷ positions

abbrev pub positions_in : List ImportEvent → List ℕ
positions_in [] = []
positions_in (import_requested directory hints policy source ∷ es) =
    with_position (position_of source) (positions_in es)
positions_in (e ∷ es) = positions_in es

-- None if there are none, and else one of them that no other exceeds.
abbrev pub IsHighest : Option ℕ → List ℕ → Type 0
IsHighest none positions = positions ≡ []
IsHighest (some highest) positions = In highest positions × All (λ n. n ≤ highest) positions

grown : (m : ℕ) (xs ys : List ℕ) → In m xs → In m (xs ++ ys)
grown m [] ys i = absurd i
grown m (x ∷ xs) ys (inl same) = inl same
grown m (x ∷ xs) ys (inr later) = inr (grown m xs ys later)

at_end : (m : ℕ) (xs : List ℕ) → In m (xs ++ m ∷ [])
at_end m [] = inl refl
at_end m (x ∷ xs) = inr (at_end m xs)

bounded :
    (m k n : ℕ) (xs : List ℕ)
    → m ≤ k
    → n ≤ k
    → All (λ x. x ≤ m) xs
    → All (λ x. x ≤ k) (xs ++ n ∷ [])
bounded m k n [] le le' h = (le', tt)
bounded m k n (x ∷ xs) le le' h = (omega (arith, h.0, le), bounded m k n xs le le' h.1)

max_watermark-IsHighest :
    (o p : Option ℕ) (xs : List ℕ)
    → IsHighest o xs
    → IsHighest (max_watermark o p) (xs ++ with_position p [])
unfolding max_watermark
max_watermark-IsHighest none none xs h = rw append-nil h
max_watermark-IsHighest (some m) none xs h = rw append-nil h
max_watermark-IsHighest none (some n) xs h = rw h (inl refl, (omega arith, tt))
max_watermark-IsHighest (some m) (some n) xs h =
    (among (higher m n), bounded m (max m n) n xs (omega arith) (omega arith) h.1)
  where
    higher : (a b : ℕ) → (max a b ≡ a) ⊎ (max a b ≡ b)
    higher a b = ground arith

    among : (max m n ≡ m) ⊎ (max m n ≡ n) → In (max m n) (xs ++ n ∷ [])
    among (inl old) = rw old (grown m xs (n ∷ []) h.0)
    among (inr new) = rw new (at_end n xs)

highest_from-IsHighest :
    (o : Option ℕ) (xs : List ℕ) (es : List ImportEvent)
    → IsHighest o xs
    → IsHighest (highest_from o es) (xs ++ positions_in es)
unfolding highest_from raise
highest_from-IsHighest o xs [] h = rw append-nil h
highest_from-IsHighest o xs (import_requested directory hints policy source ∷ es) h =
    subst (IsHighest (highest_from (max_watermark o (position_of source)) es))
      (joined xs (position_of source) (positions_in es))
      (highest_from-IsHighest (max_watermark o (position_of source))
        (xs ++ with_position (position_of source) []) es
        (max_watermark-IsHighest o (position_of source) xs h))
  where
    joined :
        (ys : List ℕ) (p : Option ℕ) (zs : List ℕ)
        → (ys ++ with_position p []) ++ zs ≡ ys ++ with_position p zs
    joined ys none zs = rw append-nil refl
    joined ys (some n) zs = append_assoc ys (n ∷ []) zs
highest_from-IsHighest o xs (matches_proposed cs ds pin ∷ es) h = highest_from-IsHighest o xs es h
highest_from-IsHighest o xs (_ ∷ es) h = highest_from-IsHighest o xs es h

-- After any commands the watermark is the highest of the feed positions that the history records, and
-- there is none exactly if the history records none.
pub watermark-IsHighest :
    (commands : List ImportCommand)
    → IsHighest
        (snapshot (fold_events (history commands))).seam_watermark
        (positions_in (history commands))
watermark-IsHighest commands =
    subst (λ o. IsHighest o (positions_in (history commands)))
      (sym (watermark-highest_from commands))
      (highest_from-IsHighest none [] (history commands) refl)
