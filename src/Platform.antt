-- ===== src/Platform.antt =====
-- internal/platform/cachyos: what a host's policy lets the module factories do.
pub mod Policy
mod Examples
