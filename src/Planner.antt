-- ===== src/Planner.antt =====
-- internal/planner: module and step definitions, plans in dependency order, removal plans and
-- network groups. The children hold the parts of the package.
pub mod Types
pub mod Graph
pub mod Select
pub mod Build
pub mod Removal
pub mod Network
pub mod Digest
mod Examples
mod DigestExamples
