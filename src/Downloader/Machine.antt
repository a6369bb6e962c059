-- ===== src/Downloader/Machine.antt =====
-- What the downloader's reactor runs on: packages/downloader/src/application/ports.
-- Each call of a store or of a port takes a tick of the machine; while it waits, others append to the
-- log. The environment says what each call answers at its tick.
use music_downloader.Prelude.{
  ℕ, ◌+◌, Bool, not, Option, none, some, List, [], ◌∷◌, String, str_eq, filter, Result,
  if◌then◌else◌,
}
use music_downloader.Downloader.Candidate.{Candidate}
use music_downloader.Downloader.Policy.{TryPolicy}
use music_downloader.Downloader.Runtime.{Runtime}
use music_downloader.Downloader.Target.{Target}
use music_downloader.Downloader.Validators.{ProbedAudio}
use music_downloader.Downloader.Download.Events.{
  DownloadRequest, TryFailureReason, DownloadedFile, EditionCandidate, DownloadEvent,
}
use music_downloader.Downloader.Download.React.{Effect}
use music_downloader.Downloader.Log.{StoredEvent, arrive}
use music_downloader.Downloader.Retry.{RetryPolicy}

-- An infrastructure fault; the message is for the operator only.
pub data InfraError : Type 0 where
  transient_fault permanent_fault : InfraError

pub data MetadataResolution : Type 0 where
  resolved_target : Target → MetadataResolution
  unresolved : MetadataResolution
  needs_selection : List EditionCandidate → MetadataResolution

pub data TryStart : Type 0 where
  started : TryStart
  rejected : TryFailureReason → TryStart

pub data ImportResult : Type 0 where
  imported_to : (location : String) → ImportResult
  conflict_at : (location : String) → ImportResult

-- The outbound ports, each at a tick.
pub record EffectPorts : Type 0 where
  pub resolve : ℕ → DownloadRequest → Result InfraError MetadataResolution
  pub search : ℕ → String → Target → ℕ → Result InfraError (List Candidate)
  pub start : ℕ → String → Candidate → TryPolicy → Result InfraError TryStart
  pub abort : ℕ → String → Candidate → Result InfraError (List DownloadedFile)
  pub probe : ℕ → String → Result InfraError ProbedAudio
  pub import_files : ℕ → List DownloadedFile → Target → Result InfraError ImportResult
  pub discard_staging : ℕ → List DownloadedFile → Result InfraError Unit

pub record Environment : Type 0 where
  pub js : Runtime
  pub ports : EffectPorts
  -- Whether the store call at a tick fails.
  pub faults : ℕ → Bool
  -- What others append while the call at a tick waits.
  pub arrivals : ℕ → List (String × DownloadEvent)
  pub now : ℕ → ℕ
  pub random : ℕ → ℕ
  pub policy : RetryPolicy

pub record ParkedEffect : Type 0 where
  pub stream_id : String
  pub global_seq : ℕ
  pub attempt : ℕ
  pub parked_at : ℕ
  pub next_retry_at : ℕ

pub record DeadLetter : Type 0 where
  pub global_seq : ℕ
  pub stream_id : String
  pub effect : Effect
  pub attempt : ℕ
  pub occurred_at : ℕ

-- What the reactor did with an event: it began to dispatch its effects; none of them is to be tried
-- again; or one came to rest by a landing after its retries.
pub data Record : Type 0 where
  began : StoredEvent → Record
  dispatched : StoredEvent → Record
  landed : StoredEvent → Record

-- `cursor` is `lastProcessed`, and `checkpoint` what is durable of it. `trace` has the latest first.
pub record Machine : Type 0 where
  pub tick : ℕ
  pub log : List StoredEvent
  pub cursor : ℕ
  pub checkpoint : ℕ
  pub parks : List ParkedEffect
  pub letters : List DeadLetter
  pub stalled : List String
  pub trace : List Record

module _ (env : Environment) where
  -- A call goes out and its answer comes.
  unfoldable pub call : Machine → Machine
  unfolding arrive
  call m = record m { tick = m.tick + 1; log = arrive (env.arrivals m.tick) m.log }

-- The table of parked effects, one for each stream.
abbrev pub clear_park : String → List ParkedEffect → List ParkedEffect
clear_park id = filter λ p. not (str_eq p.stream_id id)

abbrev pub park : ParkedEffect → List ParkedEffect → List ParkedEffect
park entry parks = entry ∷ clear_park entry.stream_id parks

abbrev pub find_park : String → List ParkedEffect → Option ParkedEffect
find_park id [] = none
find_park id (p ∷ ps) = if str_eq p.stream_id id then some p else find_park id ps
