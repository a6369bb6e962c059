-- ===== src/Importer/Interpreter.antt =====
-- packages/importer/src/application/import/interpreter.ts, and the command handler on the log.
use music_downloader.Prelude.{
  ℕ, not, Option, none, some, List, String, length, map, Result, ok, err, ◌==◌, if◌then◌else◌,
}
use music_downloader.Eventing.Log.{read_stream, insert_rows}
use music_downloader.Importer.Import.Commands.{
  ImportCommand, record_proposal, record_applied, record_apply_skipped_duplicate,
  record_intake_deleted, record_doomed,
}
use music_downloader.Importer.Import.React.{Effect, propose, apply, delete_intake}
use music_downloader.Importer.Handling.{
  CommandError, infra_error, concurrency_conflict, Store, PendingAppend, load_and_decide,
}
use music_downloader.Importer.Machine.{
  StoredEvent, ProposeOutcome, proposal, refused_proposal, ApplyOutcome, files_applied,
  skipped_duplicate, refused_apply, Environment, Machine, call,
}

-- The events of each stream of a log.
abbrev pub store_of : List StoredEvent → Store
store_of log = λ id. map (λ s. s.event) (read_stream id log)

abbrev pub proposal_command : Option String → ProposeOutcome → ImportCommand
proposal_command search_id (proposal candidates duplicates) =
    record_proposal candidates duplicates search_id
proposal_command search_id (refused_proposal reason) = record_doomed reason

abbrev pub apply_outcome_command : ApplyOutcome → ImportCommand
apply_outcome_command (files_applied location failures) = record_applied location failures
apply_outcome_command (skipped_duplicate incumbents) = record_apply_skipped_duplicate incumbents
apply_outcome_command (refused_apply reason) = record_doomed reason

abbrev pub answer_with {ℓ} : {A : Type ℓ} → (A → ImportCommand) → Option A → Option ImportCommand
answer_with f none = none
answer_with f (some a) = some (f a)

module _ (env : Environment) where
  -- `append`, on the log as it is when the call is answered.
  unfoldable pub append_rows : PendingAppend → Machine → Result CommandError Unit × Machine
  unfolding insert_rows call
  append_rows p m =
      let m' = call env m in
      if env.faults m.tick
      then (err infra_error, m')
      else if length (read_stream p.import_id m'.log) == p.expected_version
      then (ok tt, record m' { log = insert_rows p.import_id p.events m'.log })
      else (err (concurrency_conflict p.import_id p.expected_version), m')

  unfoldable pub carry_out :
      Result CommandError (Option PendingAppend) → Machine → Result CommandError Unit × Machine
  unfolding append_rows
  carry_out (err e) m = (err e, m)
  carry_out (ok none) m = (ok tt, m)
  carry_out (ok (some p)) m = append_rows p m

  unfoldable pub apply_command :
      String → ImportCommand → Machine → Result CommandError Unit × Machine
  unfolding carry_out load_and_decide call
  apply_command id command m =
      let m' = call env m in
      carry_out (load_and_decide (not (env.faults m.tick)) (store_of m'.log) id command) m'

  -- The port's answer at a tick, as the command that it becomes.
  unfoldable pub ask : ℕ → Effect → Option ImportCommand
  ask t (propose directory search_id artist album) =
      answer_with (proposal_command search_id)
        (env.ports.propose t directory search_id artist album)
  ask t (apply directory mode) =
      answer_with apply_outcome_command (env.ports.apply t directory mode)
  ask t (delete_intake directory) =
      answer_with (λ u. record_intake_deleted) (env.ports.delete_release t directory)

  unfoldable pub answered :
      String → Option ImportCommand → Machine → Result CommandError Unit × Machine
  unfolding apply_command
  answered id none m = (err infra_error, m)
  answered id (some command) m = apply_command id command m

  unfoldable pub interpret_effect : String → Effect → Machine → Result CommandError Unit × Machine
  unfolding ask answered call
  interpret_effect id effect m = answered id (ask m.tick effect) (call env m)
