-- ===== src/Bluegreen.antt =====
-- The blue-green strategy: internal/command/deploy/strategy_bluegreen.go. `Types` and `Errors` have the
-- data, `Platform` what the strategy calls and its state, `Starts` to `Run` the stages; the others are proofs.
pub mod Types
pub mod Errors
pub mod Platform
pub mod Starts
pub mod Images
pub mod Waits
pub mod Launch
pub mod Stages
pub mod Run
pub mod Moves
pub mod Traces
pub mod Late
pub mod Early
pub mod Traffic
pub mod Safety
pub mod Cleanup
pub mod Finish
pub mod Healthy
pub mod Attempts
pub mod Forced
pub mod Samples
pub mod Tests
