-- ===== src/Runtime.antt =====
-- The runtime of Tile: what executes a run between the start and the end that the Store records.
pub mod History
pub mod Monad
pub mod Environment
pub mod ToolExecutor
pub mod Prompt
pub mod Agent
pub mod Execution
pub mod RunExecution
