-- ===== src/Downloader/Projection.antt =====
-- packages/downloader/src/application/projections/read-models.ts: the download status.
pub mod Views
pub mod Streams
use music_downloader.Prelude.{
  ℕ, Bool, true, false, not, Option, none, some, List, [], ◌∷◌, ◌++◌, String, str_eq, if◌then◌else◌,
  map,
}
use mathlib.Core.Option
use music_downloader.Downloader.Candidate.{Candidate, CandidateIdentity}
use music_downloader.Downloader.Target.{Target}
use music_downloader.Downloader.Verdict.{ValidationReason}
use music_downloader.Downloader.Download.Events.{
  DownloadRequest, musicbrainz, release_group, descriptor, TryFailureReason, EditionCandidate,
  DownloadEvent, download_requested, target_resolved, metadata_resolution_failed, search_requested,
  candidate_selected, try_started, try_failed, validation_failed, imported, download_fulfilled,
  fulfillment_rejected, download_exhausted, import_conflicted, download_cancelled,
}
use music_downloader.Downloader.Download.State.{
  DownloadPhase, phase_awaiting_manual_selection, is_terminal, fold_events,
}
use music_downloader.Downloader.Download.Aggregate.{DownloadSnapshot, snapshot}

pub data HistoryPayload : Type 0 where
  requested_entry : DownloadRequest → HistoryPayload
  resolved_entry : (artist title : String) (year : Option ℕ) → HistoryPayload
  search_started_entry : (round : ℕ) → HistoryPayload
  selected_entry download_started_entry : CandidateIdentity → HistoryPayload
  download_failed_entry : CandidateIdentity → TryFailureReason → HistoryPayload
  validation_failed_entry : CandidateIdentity → List ValidationReason → HistoryPayload
  imported_entry : CandidateIdentity → (location : String) → HistoryPayload
  fulfillment_rejected_entry : CandidateIdentity → (reasons : List String) → HistoryPayload
  fulfilled_entry conflicted_entry : (location : String) → HistoryPayload
  exhausted_entry metadata_failed_entry cancelled_entry : HistoryPayload

pub record StatusHistoryEntry : Type 0 where
  pub payload : HistoryPayload
  pub at_time : String

pub record ViewTarget : Type 0 where
  pub artist : String
  pub title : String

-- The tag `stalled` is added later, by a join.
pub record DownloadStatusView : Type 0 where
  pub acquisition_id : String
  pub status : DownloadPhase
  pub transfer_started : Bool
  pub target : Option ViewTarget
  pub requested_target : Option DownloadRequest
  pub requested_at : Option String
  pub current_candidate : Option CandidateIdentity
  pub attempts : ℕ
  pub rejected_count : ℕ
  pub location : Option String
  pub history : List StatusHistoryEntry
  pub candidates : Option (List EditionCandidate)
  pub cancellable : Bool
  pub awaiting_selection : Bool

-- The fields of a stored event that the projection reads.
pub record StoredEvent : Type 0 where
  pub stream_id : String
  pub event : DownloadEvent
  pub occurred_at : String

unfoldable pub history_payload_of : DownloadEvent → Option HistoryPayload
history_payload_of (download_requested request policies) = some (requested_entry request)
history_payload_of (target_resolved target) =
    some (resolved_entry target.artist target.title target.year)
history_payload_of (search_requested round) = some (search_started_entry round)
history_payload_of (download_fulfilled location candidate) = some (fulfilled_entry location)
history_payload_of download_exhausted = some exhausted_entry
history_payload_of (import_conflicted location files) = some (conflicted_entry location)
history_payload_of metadata_resolution_failed = some metadata_failed_entry
history_payload_of (download_cancelled files) = some cancelled_entry
history_payload_of (candidate_selected candidate) = some (selected_entry candidate.identity)
history_payload_of (try_started candidate) = some (download_started_entry candidate)
history_payload_of (try_failed candidate reason) = some (download_failed_entry candidate reason)
history_payload_of (validation_failed candidate verdict) =
    some (validation_failed_entry candidate verdict.reasons)
history_payload_of (imported candidate location files) = some (imported_entry candidate location)
history_payload_of (fulfillment_rejected candidate reasons) =
    some (fulfillment_rejected_entry candidate reasons)
history_payload_of event = none

abbrev pub entry_of : String → Option HistoryPayload → List StatusHistoryEntry
entry_of occurred_at none = []
entry_of occurred_at (some payload) = record { payload = payload; at_time = occurred_at } ∷ []

-- The loop over the stored events, one variable at a time.
unfoldable pub history_of : List StoredEvent → List StatusHistoryEntry
unfolding history_payload_of
history_of [] = []
history_of (entry ∷ stored) =
    entry_of entry.occurred_at (history_payload_of entry.event) ++ history_of stored

abbrev pub retarget : Option ViewTarget → DownloadEvent → Option ViewTarget
retarget target (download_requested (descriptor type artist title album) policies) =
    some (record { artist = artist; title = title })
retarget target (target_resolved resolved) =
    some (record { artist = resolved.artist; title = resolved.title })
retarget target event = target

unfoldable pub target_from : Option ViewTarget → List DownloadEvent → Option ViewTarget
target_from target [] = target
target_from target (event ∷ events) = target_from (retarget target event) events

abbrev pub rerequest : Option DownloadRequest → DownloadEvent → Option DownloadRequest
rerequest requested (download_requested request policies) = some request
rerequest requested event = requested

unfoldable pub requested_from : Option DownloadRequest → List DownloadEvent → Option DownloadRequest
requested_from requested [] = requested
requested_from requested (event ∷ events) = requested_from (rerequest requested event) events

abbrev request_time : Option String → StoredEvent → DownloadEvent → Option String
request_time time entry (download_requested request policies) = some entry.occurred_at
request_time time entry event = time

unfoldable pub requested_at_from : Option String → List StoredEvent → Option String
requested_at_from time [] = time
requested_at_from time (entry ∷ stored) =
    requested_at_from (request_time time entry entry.event) stored

abbrev is_awaiting : DownloadPhase → Bool
is_awaiting phase_awaiting_manual_selection = true
is_awaiting phase = false

unfoldable pub project_status : String → List StoredEvent → DownloadStatusView
unfolding history_of target_from requested_from requested_at_from
project_status acquisition_id stored =
    let events = map (λ entry. entry.event) stored in
    let state = fold_events events in
    let seen = snapshot state in
    record {
      acquisition_id = acquisition_id;
      status = seen.phase;
      transfer_started = seen.transfer_started;
      target = target_from none events;
      requested_target = requested_from none events;
      requested_at = requested_at_from none stored;
      current_candidate = seen.current_candidate;
      attempts = seen.attempts;
      rejected_count = seen.rejected_count;
      location = seen.location;
      history = history_of stored;
      candidates = seen.candidates;
      cancellable = not (is_terminal state);
      awaiting_selection = is_awaiting seen.phase;
    }

-- The map of streams, in the order of their first events.
pub record StreamOf : Type 0 where
  pub stream_id : String
  pub stored : List StoredEvent

unfoldable pub apply : StoredEvent → List StreamOf → List StreamOf
apply entry [] = record { stream_id = entry.stream_id; stored = entry ∷ [] } ∷ []
apply entry (stream ∷ streams) =
    if str_eq stream.stream_id entry.stream_id
    then record stream { stored = stream.stored ++ entry ∷ [] } ∷ streams
    else stream ∷ apply entry streams

unfoldable pub stored_of : String → List StreamOf → Option (List StoredEvent)
stored_of id [] = none
stored_of id (stream ∷ streams) =
    if str_eq stream.stream_id id then some stream.stored else stored_of id streams

unfoldable pub get : String → List StreamOf → Option DownloadStatusView
unfolding project_status stored_of
get acquisition_id streams =
    Option.map (project_status acquisition_id) (stored_of acquisition_id streams)

unfoldable pub list_views : List StreamOf → List DownloadStatusView
unfolding project_status
list_views = map λ stream. project_status stream.stream_id stream.stored

unfoldable pub apply_all : List StoredEvent → List StreamOf → List StreamOf
unfolding apply
apply_all [] streams = streams
apply_all (entry ∷ stored) streams = apply_all stored (apply entry streams)

unfoldable pub rebuild : List StoredEvent → List StreamOf
unfolding apply_all
rebuild stored = apply_all stored []
