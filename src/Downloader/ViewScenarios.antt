-- ===== src/Downloader/ViewScenarios.antt =====
-- The theorems on views and verdicts at concrete streams and outcomes.
use music_downloader.Downloader.Samples.{some_policies, some_request, some_target, submitted_run}
use music_downloader.Downloader.Runtime.{plain_runtime}
use music_downloader.Prelude.{String, List, ◌≡◌, refl, [], ◌∷◌}
use music_downloader.Downloader.Ranking.{rank_candidates}
use music_downloader.Downloader.Download.Events.{target_resolved}
use music_downloader.Downloader.Download.Commands.{cancel_download}
use music_downloader.Downloader.Download.State.{evolve, fold_from, fold_events}
use music_downloader.Downloader.Download.Decide.{decide, select_next, decide_search_results}
use music_downloader.Downloader.Download.Runs.{step, run}
use music_downloader.Downloader.Download.History.{history}
use music_downloader.Sorting.{to_sorted}
use music_downloader.Downloader.Ranking.{score_candidates}
use music_downloader.Downloader.Download.Events.{DownloadEvent, download_requested}
use music_downloader.Prelude.{◌↔◌, ◌≤◌, none, true, All, arith}
use music_downloader.Downloader.Verdict.{ValidatorOutcome, combine_verdict, is_verdict_passing}
use music_downloader.Downloader.Verdict.Passing.{passes_when_each_reaches}
use music_downloader.Downloader.Projection.{StoredEvent, project_status, get, rebuild}
use music_downloader.Downloader.Projection.Views.{
  events_of, count_selected, view_counts_selections, Shows, view_target-Shows, acts,
  cancellable_when_cancel_acts,
}
use music_downloader.Downloader.Projection.Streams.{stream_events, view_of, get-rebuild}
use music_downloader.Downloader.Download.Aggregate.{execute}
use music_downloader.Downloader.Samples.{submitted_run-IsAdmissible}

abbrev stored_at : String → DownloadEvent → String → StoredEvent
stored_at id event time = record { stream_id = id; event = event; occurred_at = time }

-- The stream of the submitted run.
abbrev stored_run : List StoredEvent
stored_run =
    stored_at "dl-1" (download_requested some_request some_policies) "2026-01-01T00:00:00Z"
    ∷ stored_at "dl-1" (target_resolved some_target) "2026-01-01T00:00:01Z"
    ∷ []

-- Two streams that interleave.
abbrev interleaved : List StoredEvent
interleaved =
    stored_at "dl-1" (download_requested some_request some_policies) "2026-01-01T00:00:00Z"
    ∷ stored_at "dl-2" (download_requested some_request some_policies) "2026-01-01T00:00:00Z"
    ∷ stored_at "dl-1" (target_resolved some_target) "2026-01-01T00:00:01Z"
    ∷ []

stored_run_is_history : events_of stored_run ≡ history plain_runtime submitted_run
unfolding history execute fold_events fold_from decide evolve decide_search_results rank_candidates
    score_candidates to_sorted select_next run step
stored_run_is_history = refl

view_counts_selections_example :
    (project_status "dl-1" stored_run).attempts
    ≡ count_selected (project_status "dl-1" stored_run).history
view_counts_selections_example =
    view_counts_selections plain_runtime submitted_run "dl-1" stored_run submitted_run-IsAdmissible
      stored_run_is_history

view_target-Shows_example :
    Shows (project_status "dl-1" stored_run).target (run plain_runtime submitted_run)
view_target-Shows_example =
    view_target-Shows plain_runtime submitted_run "dl-1" stored_run submitted_run-IsAdmissible
      stored_run_is_history

cancellable_when_cancel_acts_example :
    (project_status "dl-1" stored_run).cancellable
    ≡ acts (execute plain_runtime (events_of stored_run) cancel_download)
cancellable_when_cancel_acts_example = cancellable_when_cancel_acts plain_runtime "dl-1" stored_run

get-rebuild_example :
    get "dl-1" (rebuild interleaved) ≡ view_of "dl-1" (stream_events "dl-1" interleaved)
get-rebuild_example = get-rebuild "dl-1" interleaved

-- One outcome reaches the threshold and one does not.
abbrev low_outcome : ValidatorOutcome
low_outcome = record { name = "playability"; score = 2; reason = none }

abbrev high_outcome : ValidatorOutcome
high_outcome = record { name = "structural-identity"; score = 9; reason = none }

passes_when_each_reaches_example :
    (is_verdict_passing
        (combine_verdict (low_outcome ∷ high_outcome ∷ []))
        (record { threshold = 5 })
      ≡ true)
    ↔ All (λ x. 5 ≤ x.score) (low_outcome ∷ high_outcome ∷ [])
passes_when_each_reaches_example =
    passes_when_each_reaches (record { threshold = 5 }) low_outcome (high_outcome ∷ [])
      (omega arith)
