-- ===== src/Tests.antt =====
-- Runs of the program's parts on small inputs, at which the theorems are applied.
pub mod Fixture
pub mod Cores
pub mod Credentials
pub mod Sessions
pub mod Requests
pub mod Rounds
pub mod Startup
pub mod Events
pub mod Deliveries
pub mod Answers
pub mod Commands
