-- ===== src/Gitx.antt =====
-- internal/gitx: git behind an allow-list of safe commands.
pub mod Safety
pub mod Objects
pub mod Status
pub mod Actions
pub mod Checkout
pub mod Update
pub mod Checkpoint
mod Examples
mod CheckoutExamples
