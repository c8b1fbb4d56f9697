-- ===== src/Catalog.antt =====
-- internal/catalog: the values and the documents that a catalog is merged from.
pub mod Values
pub mod Risks
pub mod Documents
pub mod Sources
pub mod Merge
pub mod Checks
pub mod Repository
pub mod Sample
mod Examples
