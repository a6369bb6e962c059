-- ===== src/Downloader/Lander.antt =====
-- packages/downloader/src/application/download/effect-lander.ts and failure-classification.ts
use music_downloader.Prelude.{
  ℕ, Bool, true, false, not, Option, none, some, List, [], ◌∷◌, String, str_eq, filter, any, Result,
  ok, err, if◌then◌else◌, ◌==◌, leb,
}
use music_downloader.Downloader.Download.Events.{stalled, cancelled_at_source}
use music_downloader.Downloader.Download.Commands.{
  DownloadCommand, record_metadata_failed, record_try_failed,
}
use music_downloader.Downloader.Download.React.{
  Effect, resolve_metadata, search_for, download, validate, import_files, cleanup, abort_download,
}
use music_downloader.Downloader.Log.{StoredEvent}
use music_downloader.Downloader.Machine.{
  transient_fault, permanent_fault, DeadLetter, Environment, Machine, call,
}
use music_downloader.Downloader.Handling.{
  CommandError, domain_error, infra_error, concurrency_conflict, apply_command,
}

pub data FailureClass : Type 0 where
  retryable permanent rejection : FailureClass

abbrev pub classify_command_error : CommandError → FailureClass
classify_command_error (infra_error permanent_fault) = permanent
classify_command_error (infra_error transient_fault) = retryable
classify_command_error (concurrency_conflict id version) = retryable
classify_command_error (domain_error e) = rejection

-- The business failure that an effect degrades to, if it has one.
abbrev pub degrade_command : Effect → Option DownloadCommand
degrade_command (resolve_metadata request) = some record_metadata_failed
degrade_command (download candidate policy) =
    some (record_try_failed stalled none candidate.identity)
degrade_command (abort_download candidate) =
    some (record_try_failed cancelled_at_source none candidate.identity)
degrade_command (search_for target round) = none
degrade_command (validate files target match_policy) = none
degrade_command (import_files files target) = none
degrade_command (cleanup files) = none

abbrev is_rejection : FailureClass → Bool
is_rejection rejection = true
is_rejection _ = false

-- Whether a degrade came to rest.
abbrev pub is_degraded : Result CommandError Unit → Bool
is_degraded (ok done) = true
is_degraded (err e) = is_rejection (classify_command_error e)

-- `StalledReadModel`, as the list of the streams that are marked.
abbrev pub is_stalled : String → List String → Bool
is_stalled id = any λ s. str_eq s id

abbrev pub mark_stalled : String → List String → List String
mark_stalled id ids = if is_stalled id ids then ids else id ∷ ids

abbrev pub unmark_stalled : String → List String → List String
unmark_stalled id = filter λ s. not (str_eq s id)

-- The table of dead letters: a letter for an event replaces the earlier one.
abbrev pub record_letter : DeadLetter → List DeadLetter → List DeadLetter
record_letter letter letters =
    letter ∷ filter (λ l. not (l.global_seq == letter.global_seq)) letters

abbrev pub clear_stream : String → List DeadLetter → List DeadLetter
clear_stream id = filter λ l. not (str_eq l.stream_id id)

module _ (env : Environment) where
  unfoldable pub dead_letter : StoredEvent → Effect → ℕ → Machine → Bool × Machine
  unfolding call
  dead_letter s effect attempt m =
      let m' = call env m in
      if env.faults m.tick then (false, m') else (
        true,
        record m' {
          letters =
              record_letter
                (record {
                  global_seq = s.global_seq;
                  stream_id = s.stream_id;
                  effect = effect;
                  attempt = attempt;
                  occurred_at = env.now m.tick;
                })
                m'.letters;
          stalled = mark_stalled s.stream_id m'.stalled;
        },
      )

  unfoldable pub landed_by :
      StoredEvent → Effect → ℕ → Option DownloadCommand → Machine → Bool × Machine
  unfolding apply_command dead_letter
  landed_by s effect attempt none m = dead_letter s effect attempt m
  landed_by s effect attempt (some command) m =
      let (result, m') = apply_command env s.stream_id command m in (is_degraded result, m')

  -- The flag says whether the failure came to rest.
  unfoldable pub land : StoredEvent → Effect → ℕ → Machine → Bool × Machine
  unfolding landed_by
  land s effect attempt m = landed_by s effect attempt (degrade_command effect) m

  unfoldable pub clear_stalled : String → Machine → Machine
  unfolding call
  clear_stalled id m =
      let m' = call env m in
      if env.faults m.tick then m' else record m' {
        letters = clear_stream id m'.letters;
        stalled = unmark_stalled id m'.stalled;
      }

  -- `seedStalledReadModel`, at a boot: old letters are pruned, and the streams of the others marked.
  unfoldable pub pruned : ℕ → Machine → Machine
  unfolding call
  pruned horizon m =
      let m' = call env m in
      if env.faults m.tick
      then m'
      else record m' { letters = filter (λ l. leb horizon l.occurred_at) m'.letters }

  abbrev pub mark_all : List DeadLetter → List String → List String
  mark_all [] ids = ids
  mark_all (l ∷ ls) ids = mark_all ls (mark_stalled l.stream_id ids)

  unfoldable pub seed_stalled : ℕ → Machine → Machine
  unfolding pruned call
  seed_stalled horizon m =
      let m' = record (pruned horizon m) { stalled = [] } in
      let m'' = call env m' in
      if env.faults m'.tick then m'' else record m'' { stalled = mark_all m''.letters [] }
