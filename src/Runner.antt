-- ===== src/Runner.antt =====
-- internal/runner: the argv-only command boundary. Requests are validated before they are run, and
-- system-scoped ones are wrapped in pkexec.
pub mod Request
pub mod Ports
pub mod Exec
pub mod Elevation
pub mod Examples
