-- ===== src/Importer.antt =====
-- packages/importer/src
pub mod Import
pub mod Handling
pub mod Machine
pub mod Interpreter
pub mod Reactor
mod Scenarios
mod ReactorScenarios
