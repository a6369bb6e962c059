-- ===== src/Downloader/Interpreter.antt =====
-- packages/downloader/src/application/download/interpreter.ts and validation-service.ts
use music_downloader.Prelude.{
  ℕ, Bool, Option, none, some, List, [], ◌∷◌, String, Result, ok, err, if◌then◌else◌,
}
use music_downloader.Downloader.Candidate.{Candidate}
use music_downloader.Downloader.Policy.{MatchPolicy}
use music_downloader.Downloader.Target.{Target}
use music_downloader.Downloader.Validators.{
  ProbedAudio, playability_validator, structural_identity_validator,
}
use music_downloader.Downloader.Verdict.{ValidationVerdict, combine_verdict, is_verdict_passing}
use music_downloader.Downloader.Download.Events.{DownloadedFile, cancelled_at_source}
use music_downloader.Downloader.Download.Commands.{
  DownloadCommand, record_target, record_metadata_failed, record_manual_selection_requested,
  record_search_results, record_try_started, record_try_failed, record_validation_passed,
  record_validation_failed, record_imported, record_import_conflict,
}
use music_downloader.Downloader.Download.React.{
  Effect, resolve_metadata, search_for, download, validate, import_files, cleanup, abort_download,
}
use music_downloader.Downloader.Machine.{
  InfraError, MetadataResolution, resolved_target, unresolved, needs_selection, TryStart, started,
  rejected, ImportResult, imported_to, conflict_at, Environment, Machine, call,
}
use music_downloader.Downloader.Handling.{CommandError, infra_error, apply_command}

pub record ValidationResult : Type 0 where
  pub passed : Bool
  pub verdict : ValidationVerdict

abbrev also_probed :
    Result InfraError ProbedAudio
    → Result InfraError (List ProbedAudio)
    → Result InfraError (List ProbedAudio)
also_probed (err e) rest = err e
also_probed (ok p) (err e) = err e
also_probed (ok p) (ok ps) = ok (p ∷ ps)

-- `ResultAsync.combine`: the first error, or all the results.
abbrev pub probe_all :
    (String → Result InfraError ProbedAudio)
    → List DownloadedFile
    → Result InfraError (List ProbedAudio)
probe_all probe [] = ok []
probe_all probe (file ∷ files) = also_probed (probe file.path) (probe_all probe files)

unfoldable pub run_validation :
    (String → Result InfraError ProbedAudio)
    → List DownloadedFile
    → Target
    → MatchPolicy
    → Result InfraError ValidationResult
unfolding playability_validator structural_identity_validator combine_verdict is_verdict_passing
run_validation probe files target match_policy = elim (probe_all probe files) [
  | err e ↦ err e
  | ok probes ↦
      let verdict =
        combine_verdict
          (playability_validator probes ∷ structural_identity_validator probes target ∷ []) in
      ok (record { passed = is_verdict_passing verdict match_policy; verdict = verdict })
]

abbrev pub resolution_command : MetadataResolution → DownloadCommand
resolution_command (resolved_target target) = record_target target
resolution_command (needs_selection candidates) = record_manual_selection_requested candidates
resolution_command unresolved = record_metadata_failed

abbrev pub start_command : Candidate → TryStart → DownloadCommand
start_command candidate started = record_try_started candidate.identity
start_command candidate (rejected reason) = record_try_failed reason none candidate.identity

abbrev pub validation_command : ValidationResult → DownloadCommand
validation_command result =
    if result.passed
    then record_validation_passed result.verdict
    else record_validation_failed result.verdict

abbrev pub import_command : ImportResult → DownloadCommand
import_command (imported_to location) = record_imported location
import_command (conflict_at location) = record_import_conflict location

abbrev pub with_answer :
    {A : Type 0}
    → (A → Option DownloadCommand)
    → Result InfraError A
    → Result InfraError (Option DownloadCommand)
with_answer f (err e) = err e
with_answer f (ok a) = ok (f a)

module _ (env : Environment) where
  -- The port's answer at a tick, as the command that it becomes; a cleanup becomes none.
  unfoldable pub ask : ℕ → String → Effect → Result InfraError (Option DownloadCommand)
  unfolding run_validation
  ask t id (resolve_metadata request) =
      with_answer (λ r. some (resolution_command r)) (env.ports.resolve t request)
  ask t id (search_for target round) =
      with_answer (λ candidates. some (record_search_results candidates))
        (env.ports.search t id target round)
  ask t id (download candidate policy) =
      with_answer (λ r. some (start_command candidate r)) (env.ports.start t id candidate policy)
  ask t id (validate files target match_policy) =
      with_answer (λ r. some (validation_command r))
        (run_validation (env.ports.probe t) files target match_policy)
  ask t id (import_files files target) =
      with_answer (λ r. some (import_command r)) (env.ports.import_files t files target)
  ask t id (cleanup files) = with_answer (λ u. none) (env.ports.discard_staging t files)
  ask t id (abort_download candidate) =
      with_answer
        (λ files. some (record_try_failed cancelled_at_source (some files) candidate.identity))
        (env.ports.abort t id candidate)

  unfoldable pub answered :
      String
      → Result InfraError (Option DownloadCommand)
      → Machine
      → Result CommandError Unit × Machine
  unfolding apply_command
  answered id (err e) m = (err (infra_error e), m)
  answered id (ok none) m = (ok tt, m)
  answered id (ok (some command)) m = apply_command env id command m

  unfoldable pub interpret_effect : String → Effect → Machine → Result CommandError Unit × Machine
  unfolding ask answered call
  interpret_effect id effect m = answered id (ask m.tick id effect) (call env m)
