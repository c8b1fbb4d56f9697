-- ===== src/Executor.antt =====
-- internal/executor: the convergence loop over a plan, and the mutator that runs commands.
pub mod Types
pub mod Engine
pub mod Command
mod Examples
