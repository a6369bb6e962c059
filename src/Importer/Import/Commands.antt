-- ===== src/Importer/Import/Commands.antt =====
-- packages/importer/src/domain/import/commands.ts
use music_downloader.Prelude.{Option, List, String}
use music_downloader.Importer.Import.Events.{
  ImportHints, ImportPolicy, ImportSource, MetadataMatch, DuplicateIncumbent, ApplyFailure,
  Resolution,
}

pub data ImportCommand : Type 0 where
  submit_import :
      (directory : String) (hints : Option ImportHints) (policy : ImportPolicy)
      (source : Option ImportSource)
      → ImportCommand
  record_proposal :
      (candidates : List MetadataMatch) (duplicates : List DuplicateIncumbent)
      (pinned_id : Option String)
      → ImportCommand
  record_applied : (location : String) (failures : List ApplyFailure) → ImportCommand
  record_apply_skipped_duplicate : (incumbents : List DuplicateIncumbent) → ImportCommand
  record_intake_deleted : ImportCommand
  record_doomed : (reason : String) → ImportCommand
  resolve_review : Resolution → ImportCommand
