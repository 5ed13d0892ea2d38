-- ===== src/Plan.antt =====
-- internal/command/deploy/plan.go: `Checks` is the update of one machine and its checks, `Leases` the
-- leases of all machines, `Recovery` the attempts to update them.
pub mod Checks
pub mod Leases
pub mod Recovery
mod Samples
mod Tests
