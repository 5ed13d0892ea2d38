-- ===== src/Groups.antt =====
-- Process groups: `Names` and `Flatten` are internal/appconfig/processgroups.go, `Changes` is
-- resolveProcessGroupChanges of internal/command/deploy/machines_deploymachinesapp.go.
pub mod Names
pub mod Flatten
pub mod Changes
mod Samples
mod Tests
