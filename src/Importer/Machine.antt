-- ===== src/Importer/Machine.antt =====
-- What the importer's reactor runs on: packages/importer/src/application/ports.
-- Each call of a store or of a port takes a tick of the machine; while it waits, others append to the
-- log. The environment says what each call answers at its tick.
use music_downloader.Prelude.{
  ℕ, ◌+◌, Bool, not, Option, none, some, List, [], ◌∷◌, String, filter, if◌then◌else◌, ◌==◌,
}
use music_downloader.Eventing.Log.{Stored, arrive}
use music_downloader.Importer.Import.Events.{
  MetadataMatch, DuplicateIncumbent, ApplyFailure, ApplyMode, ImportEvent,
}
use music_downloader.Importer.Import.React.{Effect}
use music_downloader.Importer.Handling.{CommandError}

abbrev pub StoredEvent : Type 0
StoredEvent = Stored ImportEvent

pub data ProposeOutcome : Type 0 where
  proposal : List MetadataMatch → List DuplicateIncumbent → ProposeOutcome
  refused_proposal : (reason : String) → ProposeOutcome

pub data ApplyOutcome : Type 0 where
  files_applied : (location : String) (failures : List ApplyFailure) → ApplyOutcome
  skipped_duplicate : List DuplicateIncumbent → ApplyOutcome
  refused_apply : (reason : String) → ApplyOutcome

-- The tagger and the intake, each at a tick; `none` is an infrastructure fault.
pub record EffectPorts : Type 0 where
  pub propose : ℕ → String → (id artist album : Option String) → Option ProposeOutcome
  pub apply : ℕ → String → ApplyMode → Option ApplyOutcome
  pub delete_release : ℕ → String → Option {0} Unit

pub record Environment : Type 0 where
  pub ports : EffectPorts
  -- Whether the store call at a tick fails.
  pub faults : ℕ → Bool
  -- What others append while the call at a tick waits.
  pub arrivals : ℕ → List (String × ImportEvent)
  pub now : ℕ → ℕ
  pub retry_budget : ℕ

-- The tally of an event's failed attempts, with the latest failure.
pub record ParkedEffect : Type 0 where
  pub global_seq : ℕ
  pub stream_id : String
  pub attempt : ℕ
  pub parked_at : ℕ
  pub failed : Effect
  pub last_error : CommandError

pub record DeadLetter : Type 0 where
  pub global_seq : ℕ
  pub stream_id : String
  pub failed : Effect
  pub last_error : CommandError
  pub occurred_at : ℕ

-- How the reactor was done with an effect of an event: it was carried out; its outcome was rejected
-- as stale; or its retries were spent.
pub data Record : Type 0 where
  carried_out rejected_stale dead_lettered : StoredEvent → Effect → Record

-- `cursor` is `lastProcessed`, and `checkpoint` what is durable of it. `trace` has the latest first.
pub record Machine : Type 0 where
  pub tick : ℕ
  pub log : List StoredEvent
  pub cursor : ℕ
  pub checkpoint : ℕ
  pub tallies : List ParkedEffect
  pub letters : List DeadLetter
  pub stalled : List String
  pub trace : List Record

module _ (env : Environment) where
  -- A call goes out and its answer comes.
  unfoldable pub call : Machine → Machine
  unfolding arrive
  call m = record m { tick = m.tick + 1; log = arrive (env.arrivals m.tick) m.log }

-- The table of parked effects, one for each event.
abbrev pub clear_tally : ℕ → List ParkedEffect → List ParkedEffect
clear_tally seq = filter λ p. not (p.global_seq == seq)

abbrev pub park : ParkedEffect → List ParkedEffect → List ParkedEffect
park entry tallies = entry ∷ clear_tally entry.global_seq tallies

abbrev pub find_tally : ℕ → List ParkedEffect → Option ParkedEffect
find_tally seq [] = none
find_tally seq (p ∷ ps) = if p.global_seq == seq then some p else find_tally seq ps

-- `existing.value?.attempt ?? 0`
abbrev pub attempt_of : Option ParkedEffect → ℕ
attempt_of none = 0
attempt_of (some p) = p.attempt

abbrev pub parked_since : ℕ → Option ParkedEffect → ℕ
parked_since now none = now
parked_since now (some p) = p.parked_at
