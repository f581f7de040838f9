-- ===== src/Runtime/Agent.antt =====
-- tile/agent.py: the stateless agent loop. A provider's stream is a list of events and what ends
-- it; cancellation is raised by a call that is waited for. `fuel` bounds the provider turns.
pub mod Logs
pub mod Streams
pub mod Turns
pub mod Histories
pub mod Quiet
pub mod Ends
use tile.Prelude.{
  ℕ, zero, suc, String, Bool, true, false, not, ◌&&◌, Option, none, some, List, [], ◌∷◌, ◌++◌, map,
  any,
}
use tile.Types.StreamEvents.{
  ToolCallBlock, ProviderStreamEvent, StreamDone, StreamError, stream_start, update, stream_done,
  stream_error,
}
use tile.Types.Conversation.{
  AssistantTurn, ConversationItem, assistant, tool_result, from_stream_done, from_stream_error,
}
use tile.Types.ToolExecution.{ToolExecutionOutcome}
use tile.Outcome.{Raised, turn_failed, stream_protocol}
use tile.Events.{
  agent_start, agent_end, turn_start, turn_end, message_start, message_update, message_end,
  tool_execution_start, tool_execution_end,
}
use tile.Runtime.Environment.{ToolDefinition, Environment}
use tile.Runtime.Monad.{Code, raised, exhausted, pure, stop, call, emit, ◌>>=◌, ◌>>◌}
use tile.Runtime.History.{tool_calls_of}
use tile.Runtime.ToolExecutor.{execute}

pub record AgentResult : Type 0 where
  pub last_turn : AssistantTurn
  pub tool_executions : List ToolExecutionOutcome

pub record TurnResult : Type 0 where
  pub assistant_turn : AssistantTurn
  pub tool_executions : List ToolExecutionOutcome

unfoldable pub conversation_items : TurnResult → List ConversationItem
conversation_items r =
    assistant r.assistant_turn ∷ map (λ e. tool_result e.tool_result_turn) r.tool_executions

abbrev pub is_empty {ℓ} : {A : Type ℓ} → List A → Bool
is_empty [] = true
is_empty (a ∷ rest) = false

unfoldable pub should_continue : TurnResult → Bool
should_continue r =
    not (is_empty r.tool_executions) && not (any (λ e. e.terminate) r.tool_executions)

module _ {W : Type 0} (env : Environment W) (tools : List (ToolDefinition W)) where
  unfoldable pub execute_tool : ToolCallBlock → Code W ToolExecutionOutcome
  execute_tool tool_call = do
    emit (tool_execution_start tool_call.call_id tool_call.name tool_call.arguments)
    outcome ← execute env tools tool_call.call_id tool_call.name tool_call.arguments
    emit (tool_execution_end outcome)
    pure outcome

  -- The loop of `_execute_tools` over the collected calls.
  unfoldable pub execute_calls : List ToolCallBlock → Code W (List ToolExecutionOutcome)
  unfolding execute_tool
  execute_calls [] = pure []
  execute_calls (tool_call ∷ tool_calls) = do
    outcome ← execute_tool tool_call
    outcomes ← execute_calls tool_calls
    pure (outcome ∷ outcomes)

  unfoldable pub handle_stream_done_event : StreamDone → Code W TurnResult
  unfolding execute_calls tool_calls_of
  handle_stream_done_event event = do
    let turn = from_stream_done event
    emit (message_end turn)
    tool_executions ← execute_calls (tool_calls_of turn.blocks)
    emit (turn_end turn tool_executions)
    pure (record { assistant_turn = turn; tool_executions = tool_executions })

  unfoldable pub handle_stream_error_event : StreamError → Code W (Option TurnResult)
  handle_stream_error_event event = do
    emit (message_end (from_stream_error event))
    stop (raised (turn_failed (from_stream_error event)))

  unfoldable pub emit_turn_start : String → Code W (Unit {0})
  emit_turn_start response_id = do emit turn_start; emit (message_start (some response_id))

  abbrev pub found : {A : Type 0} → A → Code W (Option A)
  found a = pure (some a)

  unfoldable pub handle_stream_event : ProviderStreamEvent → Code W (Option TurnResult)
  unfolding handle_stream_done_event handle_stream_error_event emit_turn_start
  handle_stream_event (stream_start source response_id) = do emit_turn_start response_id; pure none
  handle_stream_event (update event) = do emit (message_update event); pure none
  handle_stream_event (stream_done event) = handle_stream_done_event event >>= found
  handle_stream_event (stream_error event) = handle_stream_error_event event

  -- What a stream does after its last event.
  abbrev pub end_of_stream : Option Raised → Code W TurnResult
  end_of_stream none = stop (
      raised (stream_protocol "Provider stream ended without StreamDoneEvent or StreamErrorEvent."))
  end_of_stream (some e) = stop (raised e)

  abbrev pub or_else : {A : Type 0} → Option A → Code W A → Code W A
  or_else (some a) m = pure a
  or_else none m = m

  -- The `async for` of `_run_provider_turn`.
  unfoldable pub consume : List ProviderStreamEvent → Option Raised → Code W TurnResult
  unfolding handle_stream_event
  consume [] ending = end_of_stream ending
  consume (event ∷ events) ending = do
    result ← handle_stream_event event
    or_else result (consume events ending)

  module _ (instructions : String) where
    unfoldable pub run_provider_turn : List ConversationItem → Code W TurnResult
    unfolding consume
    run_provider_turn run_history = do
      stream ← call (env.stream run_history instructions tools)
      consume stream.events stream.ending

    unfoldable pub run_agent_loop :
        ℕ → List ConversationItem → List ToolExecutionOutcome → Code W AgentResult
    unfolding run_provider_turn
    run_agent_loop zero run_history tool_executions = stop exhausted
    run_agent_loop (suc fuel) run_history tool_executions = do
      result ← run_provider_turn run_history
      let run_history' = run_history ++ conversation_items result
      let tool_executions' = tool_executions ++ result.tool_executions
      elim (should_continue result) [
        | true ↦ run_agent_loop fuel run_history' tool_executions'
        | false ↦
            pure (record { last_turn = result.assistant_turn; tool_executions = tool_executions' })
      ]

    unfoldable pub run_agent : ℕ → List ConversationItem → Code W AgentResult
    unfolding run_agent_loop
    run_agent fuel history = do
      emit agent_start
      result ← run_agent_loop fuel history []
      emit agent_end
      pure result
