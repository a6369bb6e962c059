-- ===== src/Downloader/Download/Untried.antt =====
-- Keys that are in no list of tried ones, through the working set's admission, ranking and removal.
use music_downloader.Prelude.{
  ◌≡◌, ◌≢◌, false, List, [], ◌∷◌, ◌++◌, String, str_eq, eq_iff, arith, All, All-append, any,
  Bool-cases, inl, inr, filter-All,
}
use music_downloader.Sorting.Laws.{to_sorted-All}
use music_downloader.Downloader.Runtime.{Runtime}
use music_downloader.Downloader.Candidate.{Candidate, candidate_key}
use music_downloader.Downloader.Target.{Target}
use music_downloader.Downloader.Policy.{MatchPolicy}
use music_downloader.Downloader.Quality.{QualityPolicy}
use music_downloader.Downloader.Ranking.{
  RankedCandidate, rank_candidates, score_candidates, passes_gate, compare_ranked,
}
use music_downloader.Downloader.Download.State.{remove_key}
use music_downloader.Downloader.Download.Decide.{usable_candidates}

abbrev pub key_of : Candidate → String
key_of c = candidate_key c.identity

-- No key of the list is this one.
abbrev pub NotIn : String → List String → Type 0
NotIn key tried = All (λ k. k ≢ key) tried

abbrev pub AllUntried : List String → List RankedCandidate → Type 0
AllUntried tried working = All (λ r. NotIn (key_of r.candidate) tried) working

not_any→NotIn :
    (key : String) (tried : List String) → any (λ k. str_eq k key) tried ≡ false → NotIn key tried
not_any→NotIn key [] h = tt
not_any→NotIn key (k ∷ tried) h = ground (arith, eq_iff k key, not_any→NotIn key tried)

All-map {ℓ} :
    {A : Type ℓ} (P Q : A → Type 0) (xs : List A) → ((x : A) → P x → Q x) → All P xs → All Q xs
All-map P Q [] f h = tt
All-map P Q (x ∷ xs) f h = (f x h.0, All-map P Q xs f h.1)

-- What is admitted has a key that was not seen.
pub usable_candidates-untried :
    (incoming : List Candidate) (seen : List String)
    → All (λ c. NotIn (key_of c) seen) (usable_candidates incoming seen)
unfolding usable_candidates
usable_candidates-untried [] seen = tt
usable_candidates-untried (c ∷ incoming) seen =
    elim (Bool-cases (any (λ k. str_eq k (key_of c)) seen)) [
      | inl old ↦ rw old (usable_candidates-untried incoming seen)
      | inr new ↦ rw new (
        not_any→NotIn (key_of c) seen new,
        All-map (λ d. NotIn (key_of d) (key_of c ∷ seen)) (λ d. NotIn (key_of d) seen)
            (usable_candidates incoming (key_of c ∷ seen)) (λ d h. h.1)
            (usable_candidates-untried incoming (key_of c ∷ seen)),
      )
    ]

score_candidates-untried :
    (js : Runtime) (target : Target) (quality : QualityPolicy) (tried : List String)
    (cs : List Candidate)
    → All (λ c. NotIn (key_of c) tried) cs
    → AllUntried tried (score_candidates js target quality cs)
unfolding score_candidates
score_candidates-untried js target quality tried [] h = tt
score_candidates-untried js target quality tried (c ∷ cs) h =
    (h.0, score_candidates-untried js target quality tried cs h.1)

-- Ranking adds no candidate.
pub rank_candidates-untried :
    (js : Runtime) (cs : List Candidate) (target : Target) (quality : QualityPolicy)
    (matching : MatchPolicy) (tried : List String)
    → All (λ c. NotIn (key_of c) tried) cs
    → AllUntried tried (rank_candidates js cs target quality matching)
unfolding rank_candidates
rank_candidates-untried js cs target quality matching tried h =
    to_sorted-All (compare_ranked js quality) (λ r. NotIn (key_of r.candidate) tried) _
      (filter-All (λ r. NotIn (key_of r.candidate) tried) (passes_gate quality matching) _
        (score_candidates-untried js target quality tried cs h))

-- A removed key is gone from the working set.
pub remove_key-untried :
    (key : String) (tried : List String) (working : List RankedCandidate)
    → AllUntried tried working
    → AllUntried (tried ++ key ∷ []) (remove_key key working)
unfolding remove_key
remove_key-untried key tried [] h = tt
remove_key-untried key tried (r ∷ working) h = elim (Bool-cases (str_eq (key_of r.candidate) key)) [
  | inl same ↦ rw same (remove_key-untried key tried working h.1)
  | inr other ↦ rw other (
    All-append (λ k. k ≢ key_of r.candidate) tried (key ∷ []) h.0
        ((λ e. ground (arith, eq_iff (key_of r.candidate) key)), tt),
    remove_key-untried key tried working h.1,
  )
]
