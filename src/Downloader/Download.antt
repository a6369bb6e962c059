-- ===== src/Downloader/Download.antt =====
-- packages/downloader/src/domain/download: the download aggregate.
pub mod Events
pub mod Commands
pub mod State
pub mod Decide
pub mod React
pub mod Aggregate
pub mod Runs
pub mod Untried
pub mod Moves
pub mod Invariant
pub mod History
pub mod Selections
pub mod Budget
pub mod Termination
pub mod Driving
pub mod Graph
pub mod Redelivery
pub mod Guards
