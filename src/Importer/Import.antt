-- ===== src/Importer/Import.antt =====
-- packages/importer/src/domain/import
pub mod Events
pub mod Commands
pub mod State
pub mod Decide
pub mod React
pub mod Aggregate
pub mod Runs
pub mod Moves
pub mod Induction
pub mod Actions
pub mod Nearest
pub mod Evidence
pub mod Routing
pub mod Owing
pub mod Verdicts
pub mod Watermark
pub mod Effects
pub mod Graph
