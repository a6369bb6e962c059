-- ===== src/Downloader.antt =====
-- packages/downloader: the download module.
pub mod Runtime
pub mod Log
pub mod Retry
pub mod Machine
pub mod Candidate
pub mod Target
pub mod Policy
pub mod Quality
pub mod Verdict
pub mod Duration
pub mod Matching
pub mod Validators
pub mod Ranking
pub mod Download
pub mod Projection
pub mod Handling
pub mod Interpreter
pub mod Lander
pub mod Reactor
mod Samples
mod Scenarios
mod ViewScenarios
mod ReactorScenarios
