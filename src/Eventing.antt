-- ===== src/Eventing.antt =====
-- packages/eventing/src
pub mod Drain
pub mod Log
mod Scenarios
