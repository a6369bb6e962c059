-- ===== src/Downloader/ReactorScenarios.antt =====
-- The reactor at concrete runs.
use music_downloader.Prelude.{
  ℕ, ◌+◌, ◌/◌, ◌≤◌, ◌<◌, ◌*◌, ◌≡◌, refl, false, ◌==◌, List, [], ◌∷◌, ok, err, arith, ◌⊎◌,
  if◌then◌else◌, inl,
}
use music_downloader.Downloader.Runtime.{plain_runtime}
use music_downloader.Downloader.Retry.{
  default_retry_policy, retry_step, retry, exhausted, next_retry, next_retry_window,
}
use music_downloader.Downloader.Download.Events.{DownloadEvent, download_requested, target_resolved}
use music_downloader.Downloader.Samples.{some_policies, some_request, some_target}
use music_downloader.Downloader.Machine.{
  transient_fault, unresolved, EffectPorts, Environment, Machine, ParkedEffect, began,
}
use music_downloader.Downloader.Download.React.{react}
use music_downloader.Downloader.Download.Decide.{decide}
use music_downloader.Downloader.Download.State.{evolve}
use music_downloader.Eventing.Drain.Feed.{In}
use music_downloader.Downloader.Log.{StoredEvent}
use music_downloader.Downloader.Reactor.Scheduler.{drain_round}
use music_downloader.Downloader.Reactor.Invariant.{Handled, Parked, InOrder}
use music_downloader.Downloader.Reactor.Startup.{Action, boots, drains, redrives, act, act_all}
use music_downloader.Downloader.Reactor.Lossless.{
  IsGuarded, new_machine, nothing_is_lost, streams_keep_order,
}

-- Metadata resolves to nothing, and no other port answers.
abbrev dark_ports : EffectPorts
dark_ports = record {
  resolve = λ t request. ok unresolved;
  search = λ t id target round. err transient_fault;
  start = λ t id candidate policy. err transient_fault;
  abort = λ t id candidate. err transient_fault;
  probe = λ t path. err transient_fault;
  import_files = λ t files target. err transient_fault;
  discard_staging = λ t files. err transient_fault;
}

abbrev requested_event : DownloadEvent
requested_event = download_requested some_request some_policies

-- At the first tick somebody requests a download.
abbrev one_request : Environment
one_request = record {
  js = plain_runtime;
  ports = dark_ports;
  faults = λ t. false;
  arrivals = λ t. if t == 0 then ("dl-1", requested_event) ∷ [] else [];
  now = λ t. 1000 * t;
  random = λ t. 0;
  policy = default_retry_policy;
}

abbrev row_of : ℕ → ℕ → DownloadEvent → StoredEvent
row_of seq version event = record {
  global_seq = seq;
  stream_id = "dl-1";
  version = version;
  event = event;
}

abbrev one_run : List Action
one_run = boots 0 ∷ drains ∷ drains ∷ redrives ∷ []

one_run-IsGuarded : IsGuarded one_request one_run new_machine
unfolding act_all act react decide evolve
one_run-IsGuarded = (refl, (omega arith, tt))

one_run_passes : (act_all one_request one_run new_machine).cursor ≡ 2
unfolding act_all act react decide evolve
one_run_passes = refl

requested_row_is_stored :
    In (row_of 1 0 requested_event) (act_all one_request one_run new_machine).log
unfolding act_all act react decide evolve
requested_row_is_stored = inl refl

requested_row_is_passed : 1 ≤ (act_all one_request one_run new_machine).cursor
requested_row_is_passed = omega (arith, one_run_passes)

nothing_is_lost_example :
    Handled (act_all one_request one_run new_machine).trace (row_of 1 0 requested_event)
    ⊎ Parked (act_all one_request one_run new_machine).parks (row_of 1 0 requested_event)
nothing_is_lost_example =
    nothing_is_lost one_request one_run one_run-IsGuarded (row_of 1 0 requested_event)
      requested_row_is_stored requested_row_is_passed

streams_keep_order_example :
    InOrder
      (act_all one_request one_run new_machine).log
      (act_all one_request one_run new_machine).trace
streams_keep_order_example = streams_keep_order one_request one_run one_run-IsGuarded

-- Two events wait at the boot, and the lookup of parks fails once, so that the drain stops at the
-- first. The re-drive tries the second, whose search fails, and parks it.
abbrev two_events : Environment
two_events = record one_request {
  faults = λ t. t == 5;
  arrivals = λ t.
      if t == 0 then ("dl-1", requested_event) ∷ ("dl-1", target_resolved some_target) ∷ [] else [];
}

abbrev parked_ahead : Machine
unfolding act_all act react decide evolve
parked_ahead = act_all two_events (boots 0 ∷ drains ∷ redrives ∷ []) new_machine

abbrev ahead_park : ParkedEffect
ahead_park = record {
  stream_id = "dl-1";
  global_seq = 2;
  attempt = 1;
  parked_at = 9000;
  next_retry_at = 11_500;
}

parked_ahead_park : parked_ahead.parks ≡ ahead_park ∷ []
unfolding parked_ahead act_all act react decide evolve
parked_ahead_park = refl

-- The next drain passes the first event, which is never begun.
first_event_is_never_begun :
    (drain_round two_events parked_ahead).trace
    ≡ began (row_of 2 1 (target_resolved some_target)) ∷ []
unfolding parked_ahead drain_round act_all act react decide evolve
first_event_is_never_begun = refl

both_events_are_passed : (drain_round two_events parked_ahead).cursor ≡ 2
unfolding parked_ahead drain_round act_all act react decide evolve
both_events_are_passed = refl

-- The third failure of an effect, a minute after it was parked.
next_retry_window_example :
    ((61_000 < 1000 + default_retry_policy.budget_ms)
      × ((at : ℕ) × (next_retry default_retry_policy 3 1000 61_000 7 ≡ retry at)
          × (61_000 + retry_step default_retry_policy 3 / 2 ≤ at)
          × (at ≤ 61_000 + retry_step default_retry_policy 3)
          × (at ≤ 61_000 + default_retry_policy.max_delay_ms)))
    ⊎ ((1000 + default_retry_policy.budget_ms ≤ 61_000)
        × (next_retry default_retry_policy 3 1000 61_000 7 ≡ exhausted))
next_retry_window_example = next_retry_window default_retry_policy 3 1000 61_000 7 (omega arith)
