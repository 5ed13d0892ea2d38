-- ===== src/Rollout.antt =====
-- internal/command/deploy/machines_deploymachinesapp.go: how the machines of an app are updated, without
-- the recovery of `Plan`: `Entries` is the update of one machine, `Pool` a pool of such updates, `Group`
-- the updates of a group of machines, `Rolling` the strategies, `Creation` the machines of new groups,
-- `Canary` the canary machines, `Deploy` a deployment and `Release` the status of its release.
pub mod Entries
pub mod Pool
pub mod Group
pub mod Rolling
pub mod Creation
pub mod Canary
pub mod Deploy
pub mod Release
mod Tests
mod Trials
