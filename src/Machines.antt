-- ===== src/Machines.antt =====
-- Machines and their leases: internal/machine. `Api` is what the package calls, `Leasable` is
-- leasable_machine.go, `Waits` its wait loops and those of wait.go, `Sets` machine_set.go and lease.go.
pub mod Api
pub mod Leasable
pub mod Waits
pub mod Sets
mod Samples
mod Tests
