-- ===== src/Downloader/Handling.antt =====
-- packages/downloader/src/application/download/command-handler.ts
use music_downloader.Prelude.{
  ℕ, zero, suc, List, [], ◌∷◌, String, length, map, Result, ok, err, ◌==◌, if◌then◌else◌,
}
use music_downloader.Downloader.Download.Events.{DownloadEvent}
use music_downloader.Downloader.Download.Commands.{DownloadCommand}
use music_downloader.Downloader.Download.Decide.{DomainError, Decision}
use music_downloader.Downloader.Download.Aggregate.{execute}
use music_downloader.Downloader.Log.{StoredEvent, read_stream, insert_rows}
use music_downloader.Downloader.Machine.{InfraError, transient_fault, Environment, Machine, call}

pub data CommandError : Type 0 where
  domain_error : DomainError → CommandError
  infra_error : InfraError → CommandError
  concurrency_conflict : (stream_id : String) (expected_version : ℕ) → CommandError

abbrev pub events_in : String → List StoredEvent → List DownloadEvent
events_in id log = map (λ s. s.event) (read_stream id log)

module _ (env : Environment) where
  -- `append`, on the log as it is when the call is answered. A lost race goes on with `again`.
  unfoldable pub append :
      String
      → ℕ
      → List DownloadEvent
      → (Machine → Result CommandError Unit × Machine)
      → Machine
      → Result CommandError Unit × Machine
  unfolding insert_rows call
  append id version events again m =
      let m' = call env m in
      if env.faults m.tick
      then (err (infra_error transient_fault), m')
      else if length (read_stream id m'.log) == version
      then (ok tt, record m' { log = insert_rows id events m'.log })
      else again m'

  -- What is done with the decision on a stream of a version.
  unfoldable pub carry_out :
      String
      → ℕ
      → Decision
      → (Machine → Result CommandError Unit × Machine)
      → Machine
      → Result CommandError Unit × Machine
  unfolding append
  carry_out id version (err e) again m = (err (domain_error e), m)
  carry_out id version (ok []) again m = (ok tt, m)
  carry_out id version (ok (event ∷ events)) again m = append id version (event ∷ events) again m

  -- `attemptCommand`, with the attempts left after this one.
  unfoldable pub attempt_command :
      ℕ → String → DownloadCommand → Machine → Result CommandError Unit × Machine
  unfolding carry_out call execute
  attempt_command zero id command m =
      let m' = call env m in
      if env.faults m.tick
      then (err (infra_error transient_fault), m')
      else carry_out id (length (read_stream id m'.log))
          (execute env.js (events_in id m'.log) command)
          (λ m''. (err (concurrency_conflict id (length (read_stream id m'.log))), m'')) m'
  attempt_command (suc left) id command m =
      let m' = call env m in
      if env.faults m.tick
      then (err (infra_error transient_fault), m')
      else carry_out id (length (read_stream id m'.log))
          (execute env.js (events_in id m'.log) command) (attempt_command left id command) m'

  unfoldable pub apply_command :
      String → DownloadCommand → Machine → Result CommandError Unit × Machine
  unfolding attempt_command
  apply_command = attempt_command 2
