-- ===== src/Scale.antt =====
-- internal/command/scale: the plan of a scaling.
pub mod Converge
pub mod Volumes
pub mod Actions
pub mod Arguments
mod Tests
