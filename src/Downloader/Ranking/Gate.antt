-- ===== src/Downloader/Ranking/Gate.antt =====
-- Which candidates are ranked, and in which order.
use music_downloader.Prelude.{
  ℕ, suc, ◌≤◌, ◌≡◌, refl, subst, true, false, Option, none, some, List, [], ◌∷◌, arith, All, filter,
  filter-All, filter_holds, any, get_or, is_some, is_empty, Bool-cases, inl, inr, Result, ok, err,
}
use mathlib.Core.Option
use music_downloader.Sorting.{Sign, is_plus}
use music_downloader.Sorting.Laws.{to_sorted-All, Rising, to_sorted-Rising}
use music_downloader.Downloader.Runtime.{Runtime}
use music_downloader.Downloader.Candidate.{Candidate}
use music_downloader.Downloader.Target.{Target}
use music_downloader.Downloader.Policy.{MatchPolicy}
use music_downloader.Downloader.Quality.{
  QualityBucket, bucket_eq, QualityPolicy, QualityPolicyError, create_quality_policy, index_of,
  bucket_rank, rank_le, rank_difference, is_floor_met, compare_quality,
}
use music_downloader.Downloader.Matching.{score_match}
use music_downloader.Downloader.Ranking.{
  RankedCandidate, candidate_quality_bucket, or_else, compare_ranked, score_candidates, passes_gate,
  rank_candidates,
}

-- The scores are the candidate's own.
abbrev pub IsScored : Runtime → Target → QualityPolicy → RankedCandidate → Type 0
IsScored js target quality r =
    (r.match_confidence ≡ score_match js target r.candidate)
    × (r.quality_bucket ≡ candidate_quality_bucket js r.candidate quality)

abbrev pub Passes : QualityPolicy → MatchPolicy → RankedCandidate → Type 0
Passes quality matching r =
    (matching.threshold ≤ r.match_confidence) × (is_floor_met quality r.quality_bucket ≡ true)

score_candidates-IsScored :
    (js : Runtime) (target : Target) (quality : QualityPolicy) (candidates : List Candidate)
    → All (IsScored js target quality) (score_candidates js target quality candidates)
unfolding score_candidates
score_candidates-IsScored js target quality [] = tt
score_candidates-IsScored js target quality (c ∷ cs) =
    ((refl, refl), score_candidates-IsScored js target quality cs)

All-both :
    {A : Type 0} (P Q : A → Type 0) (xs : List A) → All P xs → All Q xs → All (λ x. P x × Q x) xs
All-both P Q [] hp hq = tt
All-both P Q (x ∷ xs) hp hq = ((hp.0, hq.0), All-both P Q xs hp.1 hq.1)

All-map :
    {A : Type 0} (P Q : A → Type 0) (xs : List A) → ((x : A) → P x → Q x) → All P xs → All Q xs
All-map P Q [] f h = tt
All-map P Q (x ∷ xs) f h = (f x h.0, All-map P Q xs f h.1)

passes_gate-Passes :
    (quality : QualityPolicy) (matching : MatchPolicy) (r : RankedCandidate)
    → passes_gate quality matching r ≡ true
    → Passes quality matching r
unfolding passes_gate
passes_gate-Passes quality matching r h = ground arith

gated :
    (js : Runtime) (candidates : List Candidate) (target : Target) (quality : QualityPolicy)
    (matching : MatchPolicy)
    → All
        (λ r. IsScored js target quality r × Passes quality matching r)
        (filter (passes_gate quality matching) (score_candidates js target quality candidates))
gated js candidates target quality matching =
    let scored = score_candidates js target quality candidates in
    All-both (IsScored js target quality) (Passes quality matching) _
      (filter-All (IsScored js target quality) (passes_gate quality matching) scored
        (score_candidates-IsScored js target quality candidates))
      (All-map (λ r. passes_gate quality matching r ≡ true) (Passes quality matching) _
        (passes_gate-Passes quality matching) (filter_holds (passes_gate quality matching) scored))

-- Every ranked candidate has its own scores, reaches the confidence threshold and the quality floor.
pub ranked_pass_the_gate :
    (js : Runtime) (candidates : List Candidate) (target : Target) (quality : QualityPolicy)
    (matching : MatchPolicy)
    → All
        (λ r. IsScored js target quality r × Passes quality matching r)
        (rank_candidates js candidates target quality matching)
unfolding rank_candidates
ranked_pass_the_gate js candidates target quality matching =
    to_sorted-All (compare_ranked js quality)
      (λ r. IsScored js target quality r × Passes quality matching r) _
      (gated js candidates target quality matching)

-- The place of a candidate's bucket in the policy's order.
abbrev pub place : QualityPolicy → RankedCandidate → ℕ
place quality r = get_or (bucket_rank quality r.quality_bucket) 0

abbrev HasPlace : QualityPolicy → RankedCandidate → Type 0
HasPlace quality r = is_some (bucket_rank quality r.quality_bucket) ≡ true

is_some-map : (o : Option ℕ) → is_some (Option.map suc o) ≡ is_some o
is_some-map none = refl
is_some-map (some n) = refl

index_of-found :
    (order : List QualityBucket) (b : QualityBucket)
    → any (λ x. bucket_eq x b) order ≡ true
    → is_some (index_of order b) ≡ true
unfolding index_of
index_of-found [] b h = h
index_of-found (x ∷ xs) b h = elim (Bool-cases (bucket_eq x b)) [
  | inl here ↦ rw here refl
  | inr there ↦ rw (there, is_some-map (index_of xs b)) (index_of-found xs b (rw there at h))
]

rank-not_greater :
    (o p : Option ℕ) (next : Sign)
    → is_some o ≡ true
    → is_some p ≡ true
    → is_plus (or_else (rank_difference o p) next) ≡ false
    → get_or o 0 ≤ get_or p 0
rank-not_greater none p next ho hp h = cc
rank-not_greater (some m) none next ho hp h = cc
rank-not_greater (some m) (some n) next ho hp h = ground arith

rank-greater :
    (o p : Option ℕ) (next : Sign)
    → is_some o ≡ true
    → is_some p ≡ true
    → is_plus (or_else (rank_difference o p) next) ≡ true
    → get_or p 0 ≤ get_or o 0
rank-greater none p next ho hp h = cc
rank-greater (some m) none next ho hp h = cc
rank-greater (some m) (some n) next ho hp h = ground arith

place-not_greater :
    (js : Runtime) (quality : QualityPolicy) (x y : RankedCandidate)
    → HasPlace quality x
    → HasPlace quality y
    → is_plus (compare_ranked js quality x y) ≡ false
    → place quality x ≤ place quality y
unfolding compare_ranked compare_quality
place-not_greater js quality x y hx hy h =
    rank-not_greater (bucket_rank quality x.quality_bucket) (bucket_rank quality y.quality_bucket) _
      hx hy h

place-greater :
    (js : Runtime) (quality : QualityPolicy) (x y : RankedCandidate)
    → HasPlace quality x
    → HasPlace quality y
    → is_plus (compare_ranked js quality x y) ≡ true
    → place quality y ≤ place quality x
unfolding compare_ranked compare_quality
place-greater js quality x y hx hy h =
    rank-greater (bucket_rank quality x.quality_bucket) (bucket_rank quality y.quality_bucket) _ hx
      hy h

abbrev RanksItsFloor : Result QualityPolicyError QualityPolicy → Type 0
RanksItsFloor (ok quality) = is_some (bucket_rank quality quality.floor) ≡ true
RanksItsFloor (err e) = Unit

create_quality_policy-RanksItsFloor :
    (order : List QualityBucket) (floor : QualityBucket)
    → RanksItsFloor (create_quality_policy order floor)
unfolding create_quality_policy bucket_rank
create_quality_policy-RanksItsFloor order floor = elim (Bool-cases (is_empty order)) [
  | inl none_given ↦ rw none_given tt
  | inr given ↦ elim (Bool-cases (any (λ b. bucket_eq b floor) order)) [
    | inl found ↦ rw (given, found) (index_of-found order floor found)
    | inr missing ↦ rw (given, missing) tt
  ]
]

reached : (o p : Option ℕ) → is_some p ≡ true → rank_le o p ≡ true → is_some o ≡ true
reached (some m) p hp h = refl
reached none none hp h = hp
reached none (some n) hp h = cc

reached-HasPlace :
    (quality : QualityPolicy) (r : RankedCandidate)
    → is_some (bucket_rank quality quality.floor) ≡ true
    → is_floor_met quality r.quality_bucket ≡ true
    → HasPlace quality r
unfolding is_floor_met
reached-HasPlace quality r f h = reached _ _ f h

-- The ranking of a policy that was created runs by the policy's order of quality buckets, the best
-- first; match confidence and the source's traits only order candidates of one bucket.
pub ranking_rises_by_quality :
    (js : Runtime) (candidates : List Candidate) (target : Target) (quality : QualityPolicy)
    (matching : MatchPolicy) (order : List QualityBucket) (floor : QualityBucket)
    → create_quality_policy order floor ≡ ok quality
    → Rising (place quality) (rank_candidates js candidates target quality matching)
unfolding rank_candidates
ranking_rises_by_quality js candidates target quality matching order floor created =
    let ranks = subst RanksItsFloor created (create_quality_policy-RanksItsFloor order floor) in
    to_sorted-Rising (compare_ranked js quality) (place quality) (HasPlace quality)
      (place-greater js quality) (place-not_greater js quality) _
      (All-map (λ r. IsScored js target quality r × Passes quality matching r) (HasPlace quality) _
        (λ r h. reached-HasPlace quality r ranks h.1.1)
        (gated js candidates target quality matching))
