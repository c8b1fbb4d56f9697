-- ===== src/App.antt =====
-- internal/app: the services behind the commands.
pub mod Apply
pub mod Host
pub mod Rollback
mod Examples
