-- ===== src/Importer/ReactorScenarios.antt =====
-- The importer's reactor at concrete runs.
use music_downloader.Prelude.{
  ◌*◌, ◌≤◌, ◌≡◌, refl, false, ok, ◌==◌, none, some, List, [], ◌∷◌, ◌++◌, arith, inl, if◌then◌else◌,
}
use music_downloader.Eventing.Drain.Feed.{In}
use music_downloader.Importer.Import.Events.{
  DeliveredCopy, ImportEvent, import_requested, matches_proposed, review_required, no_match,
  review_resolved, reject_unusable_delivery, release_verdict_recorded,
}
use music_downloader.Importer.Import.Commands.{resolve_review}
use music_downloader.Importer.Import.Aggregate.{execute}
use music_downloader.Importer.Import.React.{react, propose, delete_intake}
use music_downloader.Importer.Import.Decide.{decide}
use music_downloader.Importer.Import.State.{evolve, fold_events}
use music_downloader.Importer.Import.Effects.{effects_after, awaited, decision_effects-awaited}
use music_downloader.Importer.Machine.{
  StoredEvent, Machine, EffectPorts, Environment, carried_out, dead_lettered, refused_proposal,
}
use music_downloader.Importer.Reactor.Running.{Action, boots, drains, act, act_all, new_machine}
use music_downloader.Importer.Reactor.Passed.{passed_is_settled}
use music_downloader.Importer.Reactor.Settled.{AllSettled}
use music_downloader.Importer.Reactor.Polls.{polls_settle_events}

abbrev dark_ports : EffectPorts
dark_ports = record {
  propose = λ t directory id artist album. none;
  apply = λ t directory mode. none;
  delete_release = λ t directory. none;
}

abbrev request : ImportEvent
request = import_requested "/intake/geogaddi" none (record { auto_apply_threshold = 100 }) none

-- Somebody submits an import at the first tick, and no port answers.
abbrev dark : Environment
dark = record {
  ports = dark_ports;
  faults = λ t. false;
  arrivals = λ t. if t == 0 then ("im-1", request) ∷ [] else [];
  now = λ t. 1000 * t;
  retry_budget = 2;
}

abbrev request_row : StoredEvent
request_row = record { global_seq = 1; stream_id = "im-1"; version = 0; event = request }

abbrev booted : List Action
booted = boots 0 ∷ []

-- A restart between the two polls.
abbrev two_polls : List Action
two_polls = drains ∷ boots 0 ∷ drains ∷ []

budget_is_spent :
    (act_all dark two_polls (act_all dark booted new_machine)).trace
    ≡ dead_lettered request_row (propose "/intake/geogaddi" none none none) ∷ []
unfolding act_all act react decide evolve
budget_is_spent = refl

request_is_logged : In request_row (act_all dark booted new_machine).log
unfolding act_all act
request_is_logged = inl refl

polls_settle_events_example :
    (1 ≤ (act_all dark two_polls (act_all dark booted new_machine)).cursor)
    × AllSettled
        (act_all dark two_polls (act_all dark booted new_machine)).log
        (act_all dark two_polls (act_all dark booted new_machine)).trace
        request_row
polls_settle_events_example =
    polls_settle_events dark (λ t. refl) (omega arith) booted two_polls request_row
      request_is_logged (omega arith)

-- The tagger answers, but the first save of the checkpoint fails, so that the event is tried twice.
abbrev answering : Environment
answering = record dark {
  ports = record dark_ports {
    propose = λ t directory id artist album. some (refused_proposal "no audio files");
  };
  faults = λ t. t == 8;
}

abbrev answered_run : List Action
answered_run = boots 0 ∷ drains ∷ drains ∷ []

request_is_proposed_twice :
    (act_all answering answered_run new_machine).trace
    ≡ carried_out request_row (propose "/intake/geogaddi" none none none)
      ∷ carried_out request_row (propose "/intake/geogaddi" none none none)
      ∷ []
unfolding act_all act react decide evolve
request_is_proposed_twice = refl

answered_run_passes : (act_all answering answered_run new_machine).cursor ≡ 2
unfolding act_all act react decide evolve
answered_run_passes = refl

request_is_kept : In request_row (act_all answering answered_run new_machine).log
unfolding act_all act react decide evolve
request_is_kept = inl refl

passed_is_settled_example :
    AllSettled
      (act_all answering answered_run new_machine).log
      (act_all answering answered_run new_machine).trace
      request_row
passed_is_settled_example =
    passed_is_settled answering answered_run request_row request_is_kept
      (inl (omega (arith, answered_run_passes)))

-- A delivery without a match is rejected as unusable: the decision records the resolution and, with
-- it, the verdict.
abbrev delivered_copy : DeliveredCopy
delivered_copy = record { username = "warp"; path = "geogaddi"; size_bytes = none }

abbrev delivery : ImportEvent
delivery =
    import_requested "/intake/geogaddi" none (record { auto_apply_threshold = 100 })
      (some
        (record { acquisition_id = "dl-1"; candidate = some delivered_copy; feed_position = none }))

abbrev rejection : ImportEvent
rejection = review_resolved (reject_unusable_delivery none)

abbrev verdict : ImportEvent
verdict = release_verdict_recorded "dl-1" delivered_copy []

abbrev rejected_delivery : Environment
rejected_delivery = record dark {
  arrivals = λ t.
      if t == 0
      then ("im-1", delivery)
        ∷ ("im-1", matches_proposed [] [] none)
        ∷ ("im-1", review_required no_match)
        ∷ ("im-1", rejection)
        ∷ ("im-1", verdict)
        ∷ []
      else [];
  retry_budget = 1;
}

rejection_of_delivery :
    execute
      (delivery ∷ matches_proposed [] [] none ∷ review_required no_match ∷ [])
      (resolve_review (reject_unusable_delivery none))
    ≡ ok (rejection ∷ verdict ∷ [])
unfolding execute decide evolve
rejection_of_delivery = refl

abbrev undecided_history : List ImportEvent
undecided_history = delivery ∷ matches_proposed [] [] none ∷ review_required no_match ∷ []

decision_effects-awaited_example :
    effects_after undecided_history (rejection ∷ verdict ∷ [])
    ≡ awaited (fold_events (undecided_history ++ rejection ∷ verdict ∷ []))
decision_effects-awaited_example =
    decision_effects-awaited undecided_history (resolve_review (reject_unusable_delivery none))
      rejection (verdict ∷ []) rejection_of_delivery

abbrev deletion_fails : Machine
unfolding act_all act react decide evolve
deletion_fails = act_all rejected_delivery (boots 0 ∷ drains ∷ []) new_machine

-- The deletion of the intake is dead-lettered, and the verdict, which has no effects, clears its
-- letter and the mark of its import.
deletion_is_dead_lettered :
    deletion_fails.trace
    ≡ dead_lettered
        (record { global_seq = 4; stream_id = "im-1"; version = 3; event = rejection })
        (delete_intake "/intake/geogaddi")
      ∷ dead_lettered
          (record { global_seq = 1; stream_id = "im-1"; version = 0; event = delivery })
          (propose "/intake/geogaddi" none none none)
      ∷ []
unfolding deletion_fails act_all act react decide evolve
deletion_is_dead_lettered = refl

deletion_is_not_stalled : (deletion_fails.stalled ≡ []) × (deletion_fails.letters ≡ [])
unfolding deletion_fails act_all act react decide evolve
deletion_is_not_stalled = (refl, refl)
