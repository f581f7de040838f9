-- ===== src/Types.antt =====
-- tile/types: the data that providers, the agent loop, the runtime and the store exchange.
pub mod Json
pub mod StreamEvents
pub mod Tools
pub mod Conversation
pub mod ToolExecution
