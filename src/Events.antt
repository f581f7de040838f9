-- ===== src/Events.antt =====
-- tile/events.py: the events of a run.
use tile.Prelude.{String, Option, List}
use tile.Types.Json.{JsonObject}
use tile.Types.StreamEvents.{StreamUpdateEvent}
use tile.Types.Conversation.{UserMessage, AssistantTurn}
use tile.Types.ToolExecution.{ToolExecutionOutcome}
use tile.Outcome.{RunOutcome}

pub data AgentEvent : Type 0 where
  run_start : AgentEvent
  run_end : RunOutcome → AgentEvent
  run_fault : String → String → AgentEvent
  agent_start : AgentEvent
  agent_end : AgentEvent
  result_follow_up_event : UserMessage → AgentEvent
  turn_start : AgentEvent
  turn_end : AssistantTurn → List ToolExecutionOutcome → AgentEvent
  message_start : Option String → AgentEvent
  message_update : StreamUpdateEvent → AgentEvent
  message_end : AssistantTurn → AgentEvent
  tool_execution_start : String → String → JsonObject → AgentEvent
  tool_execution_end : ToolExecutionOutcome → AgentEvent
