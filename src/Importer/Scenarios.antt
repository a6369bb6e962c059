-- ===== src/Importer/Scenarios.antt =====
-- The theorems on imports at concrete runs.
use music_downloader.Prelude.{
  ℕ, ◌≡◌, refl, true, false, none, some, List, [], ◌∷◌, String, arith, inl, ok,
}
use music_downloader.Importer.Import.Events.{
  ImportPolicy, ImportSource, DeliveredCopy, MetadataMatch, match_review, kind_match_review,
  reject_unusable_delivery, kind_reject_unusable_delivery,
}
use music_downloader.Importer.Import.Commands.{
  ImportCommand, submit_import, record_proposal, record_intake_deleted, resolve_review,
}
use music_downloader.Importer.Import.State.{Requested, requested, evolve, fold_from, fold_events}
use music_downloader.Importer.Import.Decide.{decide_proposal, decide}
use music_downloader.Importer.Import.Aggregate.{
  OpenReview, permitted_actions_for, open_review_of, snapshot, execute,
}
use music_downloader.Importer.Import.Runs.{events_of, history}
use music_downloader.Importer.Import.Evidence.{Evidence, history-Evidence}
use music_downloader.Importer.Import.Routing.{Routes, proposals_route}
use music_downloader.Importer.Import.Actions.{Offers, ResolvesBy, offered_actions_resolve}
use music_downloader.Importer.Import.Owing.{
  owes_deletion, is_rejected_from, deletion_follows_rejection,
}
use music_downloader.Importer.Import.Verdicts.{
  count, is_verdict, is_unusable, verdicts_match_rejections,
}
use music_downloader.Importer.Import.Graph.{Follows, import-Follows}
use music_downloader.Importer.Import.State.{phase_of, phase_requested}
use music_downloader.Importer.Handling.{
  Action, decides, appends, act, act_all, at_start, load_and_decide, take_at, settle_taken, append,
}
use music_downloader.Importer.Handling.Interleaving.{IsHistory, streams_are_histories}
use music_downloader.Prelude.{length}
use music_downloader.Importer.Import.Watermark.{
  positions_in, IsHighest, Delivered, watermark-IsHighest, redelivery_converges,
}

abbrev some_copy : DeliveredCopy
some_copy = record { username = "warp"; path = "geogaddi"; size_bytes = some 5_000_000 }

abbrev some_source : ImportSource
some_source = record { acquisition_id = "dl-1"; candidate = some some_copy; feed_position = some 7 }

abbrev some_policy : ImportPolicy
some_policy = record { auto_apply_threshold = 100 }

abbrev match_at : String → ℕ → MetadataMatch
match_at id distance = record {
  ref = record { data_source = "MusicBrainz"; album_id = id };
  artist = "Boards of Canada";
  album = "Geogaddi";
  distance = distance;
  penalties = [];
  tracks = [];
  extra_items = none;
  missing_tracks = none;
  album_fields = none;
}

abbrev some_matches : List MetadataMatch
some_matches = match_at "far" 300 ∷ match_at "near" 200 ∷ []

-- A weak match goes to review.
abbrev reviewed_run : List ImportCommand
reviewed_run =
    submit_import "intake/geogaddi" none some_policy (some some_source)
    ∷ record_proposal some_matches [] none
    ∷ []

-- It is rejected as unusable, and the intake deleted.
abbrev rejected_run : List ImportCommand
rejected_run =
    submit_import "intake/geogaddi" none some_policy (some some_source)
    ∷ record_proposal some_matches [] none
    ∷ resolve_review (reject_unusable_delivery (some ("too quiet" ∷ [])))
    ∷ record_intake_deleted
    ∷ []

history-Evidence_example : Evidence (fold_events (history reviewed_run))
history-Evidence_example = history-Evidence reviewed_run

abbrev some_requested : Requested
some_requested = record {
  directory = "intake/geogaddi";
  hints = none;
  policy = some_policy;
  source = some some_source;
  seam_watermark = some 7;
}

proposals_route_example : Routes some_requested some_matches [] (
    fold_from
      (requested some_requested [])
      (events_of (decide (record_proposal some_matches [] none) (requested some_requested []))))
proposals_route_example =
    proposals_route (requested some_requested []) some_requested some_matches [] none refl

abbrev some_review : OpenReview
unfolding permitted_actions_for
some_review = record {
  cause = match_review false none (record { data_source = "MusicBrainz"; album_id = "near" });
  candidates = some_matches;
  available_actions = permitted_actions_for kind_match_review true true;
}

review_opens : (snapshot (fold_events (history reviewed_run))).open_review ≡ some some_review
unfolding snapshot open_review_of history execute fold_events fold_from evolve decide
    decide_proposal some_review
review_opens = refl

rejection_is_offered : Offers some_review.available_actions kind_reject_unusable_delivery
unfolding permitted_actions_for some_review
rejection_is_offered = ground arith

offered_actions_resolve_example :
    ResolvesBy
      (reject_unusable_delivery none)
      (execute (history reviewed_run) (resolve_review (reject_unusable_delivery none)))
offered_actions_resolve_example =
    offered_actions_resolve reviewed_run some_review (reject_unusable_delivery none) review_opens
      rejection_is_offered tt

deletion_is_done : owes_deletion (fold_events (history rejected_run)) ≡ true
unfolding history execute fold_events fold_from evolve decide decide_proposal
deletion_is_done = refl

deletion_follows_rejection_example : is_rejected_from false (history rejected_run) ≡ true
deletion_follows_rejection_example = deletion_follows_rejection rejected_run deletion_is_done

verdicts_match_rejections_example :
    count is_verdict (history rejected_run) ≡ count is_unusable (history rejected_run)
verdicts_match_rejections_example = verdicts_match_rejections rejected_run

watermark-IsHighest_example :
    IsHighest
      (snapshot (fold_events (history rejected_run))).seam_watermark
      (positions_in (history rejected_run))
watermark-IsHighest_example = watermark-IsHighest rejected_run

seventh-Delivered : Delivered 7 (history rejected_run)
unfolding history execute fold_events fold_from evolve decide decide_proposal
seventh-Delivered = inl refl

redelivery_converges_example :
    execute
      (history rejected_run)
      (submit_import "intake/geogaddi" none some_policy (some some_source))
    ≡ ok []
redelivery_converges_example =
    redelivery_converges rejected_run "intake/geogaddi" none some_policy some_source 7
      seventh-Delivered refl

-- A strong match is applied.
import-Follows_example : Follows phase_requested (
    phase_of (
      fold_from
        (requested some_requested [])
        (events_of (decide (record_proposal some_matches [] none) (requested some_requested [])))))
import-Follows_example =
    import-Follows (record_proposal some_matches [] none) (requested some_requested [])

-- Two handlers read the empty stream, and the one that read last appends first.
abbrev race : List Action
race =
    decides true "im-1" (submit_import "intake/geogaddi" none some_policy (some some_source))
    ∷ decides true "im-1" (submit_import "intake/other" none some_policy none)
    ∷ appends true 0
    ∷ appends true 0
    ∷ []

streams_are_histories_example : IsHistory ((act_all race at_start).store "im-1")
streams_are_histories_example = streams_are_histories race "im-1"

-- The one that lost the race appended nothing.
loser_appends_nothing : length ((act_all race at_start).store "im-1") ≡ 1
unfolding act_all act load_and_decide take_at settle_taken append execute fold_events fold_from
    decide
loser_appends_nothing = refl
