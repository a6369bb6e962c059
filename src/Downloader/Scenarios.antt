-- ===== src/Downloader/Scenarios.antt =====
-- The theorems on downloads at concrete runs.
use music_downloader.Downloader.Samples.{
  some_policies, some_request, some_target, first_identity, second_identity, first_candidate,
  second_candidate, some_files, submitted_run, delivering_run, searching_run,
}
use music_downloader.Downloader.Runtime.{plain_runtime}
use music_downloader.Prelude.{
  ◌≤◌, ◌≡◌, ◌≢◌, refl, true, false, some, [], ◌∷◌, arith, ◌⊎◌, All, length, ok,
}
use music_downloader.Downloader.Ranking.{rank_candidates}
use music_downloader.Downloader.Download.Events.{target_resolved}
use music_downloader.Downloader.Download.Commands.{
  record_search_results, record_try_started, record_try_completed, cancel_download,
}
use music_downloader.Downloader.Download.State.{
  phase_selecting, Targeted, downloading, exhausted, phase_of, no_progress, progress_of, evolve,
  fold_from, fold_events,
}
use music_downloader.Downloader.Download.Decide.{
  decide, select_next, ladder_of, decide_search_results, is_naming,
}
use music_downloader.Downloader.Download.Runs.{step, run}
use music_downloader.Downloader.Download.History.{history}
use music_downloader.Downloader.Download.Invariant.{Inv, run-Inv}
use music_downloader.Sorting.{to_sorted}
use music_downloader.Sorting.Laws.{Rising}
use music_downloader.Downloader.Ranking.{score_candidates}
use music_downloader.Downloader.Candidate.Identity.{candidate_key_injective}
use music_downloader.Downloader.Ranking.Gate.{
  IsScored, Passes, place, ranked_pass_the_gate, ranking_rises_by_quality,
}
use music_downloader.Downloader.Quality.{lossless, lossy_high, unknown, create_quality_policy}
use music_downloader.Downloader.Download.Selections.{
  selected_keys, Distinct, selections-Distinct, attempts_are_selections,
}
use music_downloader.Downloader.Download.Decide.{decide_search_results}
use music_downloader.Downloader.Download.Budget.{requested_policies, IsBounded, budget_kept}
use music_downloader.Downloader.Download.Termination.{
  is_past_resolution, moves_left, count_effective, ladder_ends,
}
use music_downloader.Downloader.Download.Redelivery.{redelivery_absorbed}
use music_downloader.Downloader.Download.Driving.{last_event, Drives, last_event-Drives}
use music_downloader.Downloader.Download.Graph.{Follows, step-Follows}
use music_downloader.Downloader.Download.Guards.{
  LadderCases, select_next_cases, late_reports, TakesUp, dead_ends_absorb,
}
use music_downloader.Downloader.Download.Aggregate.{execute, react_to}
use music_downloader.Downloader.Download.Runs.{run_from}
use music_downloader.Downloader.Samples.{
  submitted_run-IsAdmissible, searching_run-IsAdmissible, delivering_run-IsAdmissible,
}

selections-Distinct_example : Distinct (selected_keys (history plain_runtime delivering_run))
selections-Distinct_example =
    selections-Distinct plain_runtime delivering_run delivering_run-IsAdmissible

attempts_are_selections_example :
    (progress_of (run plain_runtime delivering_run)).attempts
    ≡ length (selected_keys (history plain_runtime delivering_run))
attempts_are_selections_example =
    attempts_are_selections plain_runtime delivering_run delivering_run-IsAdmissible

run-Inv_example : Inv (run plain_runtime delivering_run)
run-Inv_example = run-Inv plain_runtime delivering_run delivering_run-IsAdmissible

opens_with_policies : requested_policies (history plain_runtime searching_run) ≡ some some_policies
unfolding history execute fold_events fold_from decide evolve decide_search_results rank_candidates
    score_candidates to_sorted select_next run step
opens_with_policies = refl

budget_kept_example : IsBounded some_policies (progress_of (run plain_runtime searching_run))
budget_kept_example =
    budget_kept plain_runtime searching_run some_policies searching_run-IsAdmissible
      opens_with_policies

submitted_is_past_resolution : is_past_resolution (run plain_runtime submitted_run) ≡ true
unfolding run step decide evolve fold_from
submitted_is_past_resolution = refl

ladder_ends_example :
    count_effective plain_runtime
      (run plain_runtime submitted_run)
      (cancel_download ∷ cancel_download ∷ [])
    ≤ moves_left (run plain_runtime submitted_run)
ladder_ends_example =
    ladder_ends plain_runtime submitted_run (cancel_download ∷ cancel_download ∷ [])
      submitted_run-IsAdmissible (tt, (tt, tt)) submitted_is_past_resolution

redelivery_absorbed_example :
    step plain_runtime
      (step plain_runtime (run plain_runtime delivering_run) (record_try_started second_identity))
      (record_try_started second_identity)
    ≡ step plain_runtime (run plain_runtime delivering_run) (record_try_started second_identity)
redelivery_absorbed_example =
    redelivery_absorbed plain_runtime delivering_run (record_try_started second_identity)
      delivering_run-IsAdmissible refl

submitted_last :
    last_event (history plain_runtime submitted_run) ≡ some (target_resolved some_target)
unfolding history execute fold_events fold_from decide evolve decide_search_results rank_candidates
    score_candidates to_sorted select_next run step
submitted_last = refl

last_event-Drives_example :
    Drives
      (history plain_runtime submitted_run)
      (run plain_runtime submitted_run)
      (react_to (history plain_runtime submitted_run) (target_resolved some_target))
last_event-Drives_example =
    last_event-Drives plain_runtime submitted_run (target_resolved some_target)
      submitted_run-IsAdmissible submitted_last

step-Follows_example :
    Follows (phase_of (run plain_runtime submitted_run)) (
      phase_of (
        step plain_runtime
          (run plain_runtime submitted_run)
          (record_search_results (first_candidate ∷ second_candidate ∷ []))))
    × (phase_of (run plain_runtime submitted_run) ≢ phase_selecting)
step-Follows_example =
    step-Follows plain_runtime submitted_run
      (record_search_results (first_candidate ∷ second_candidate ∷ [])) submitted_run-IsAdmissible
      tt

abbrev some_targeted : Targeted
some_targeted = record {
  requested = record {
    progress = record { rejected = []; search_rounds = 1; attempts = 1 };
    request = some_request;
    policies = some_policies;
  };
  target = some_target;
}

late_reports_example :
    ((is_naming first_identity second_identity ≡ false)
      × (decide plain_runtime
            (record_try_completed some_files first_identity)
            (downloading some_targeted [] second_candidate true)
          ≡ ok []))
    ⊎ ((is_naming first_identity second_identity ≡ true)
        × TakesUp (
            decide plain_runtime
              (record_try_completed some_files first_identity)
              (downloading some_targeted [] second_candidate true)))
late_reports_example =
    late_reports plain_runtime (downloading some_targeted [] second_candidate true)
      (record_try_completed some_files first_identity) first_identity second_candidate refl refl

dead_ends_absorb_example :
    run_from plain_runtime (exhausted no_progress) delivering_run ≡ exhausted no_progress
dead_ends_absorb_example =
    dead_ends_absorb plain_runtime (exhausted no_progress) delivering_run refl

some_quality :
    create_quality_policy (lossless ∷ lossy_high ∷ unknown ∷ []) unknown ≡ ok some_policies.quality
unfolding create_quality_policy
some_quality = refl

ranking_rises_by_quality_example : Rising (place some_policies.quality) (
    rank_candidates plain_runtime
      (first_candidate ∷ second_candidate ∷ [])
      some_target
      some_policies.quality
      some_policies.matching)
ranking_rises_by_quality_example =
    ranking_rises_by_quality plain_runtime (first_candidate ∷ second_candidate ∷ []) some_target
      some_policies.quality some_policies.matching (lossless ∷ lossy_high ∷ unknown ∷ []) unknown
      some_quality

ranked_pass_the_gate_example :
    All
      (λ r.
        IsScored plain_runtime some_target some_policies.quality r
        × Passes some_policies.quality some_policies.matching r)
      (rank_candidates plain_runtime
        (first_candidate ∷ second_candidate ∷ [])
        some_target
        some_policies.quality
        some_policies.matching)
ranked_pass_the_gate_example =
    ranked_pass_the_gate plain_runtime (first_candidate ∷ second_candidate ∷ []) some_target
      some_policies.quality some_policies.matching

select_next_cases_example : LadderCases some_targeted [] (select_next (ladder_of some_targeted []))
select_next_cases_example = select_next_cases some_targeted []

candidate_key_injective_example : first_identity ≡ first_identity
candidate_key_injective_example =
    candidate_key_injective first_identity first_identity (ground arith) (ground arith)
      (ground arith) (ground arith) refl
