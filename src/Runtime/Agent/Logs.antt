-- ===== src/Runtime/Agent/Logs.antt =====
-- The agent loop and the prompt's composition only add inner events to the log.
use tile.Prelude.{
  inr, inl, refl, ℕ, zero, suc, String, Bool, Option, none, some, List, [], ◌∷◌, Bool-cases,
}
use tile.Types.StreamEvents.{
  ToolCallBlock, ProviderStreamEvent, stream_start, update, stream_done, stream_error,
}
use tile.Types.Conversation.{ConversationItem}
use tile.Types.ToolExecution.{ToolExecutionOutcome}
use tile.Outcome.{Raised}
use tile.Types.Json.{JsonObject}
use tile.Runtime.Environment.{ToolDefinition, Environment}
use tile.Runtime.Monad.{Code}
use tile.Runtime.Monad.Logs.{Grows, pure-Grows, stop-Grows, call-Grows, emit-Grows, bind-Grows}
use tile.Runtime.ToolExecutor.{execute}
use tile.Runtime.Prompt.{
  project_context_filenames, build_system_prompt, read_project_context, context_parts,
}
use tile.Runtime.Agent.{
  execute_tool, execute_calls, handle_stream_done_event, handle_stream_error_event, emit_turn_start,
  handle_stream_event, end_of_stream, or_else, consume, run_provider_turn, run_agent_loop,
  run_agent, should_continue, TurnResult,
}

module _ {W : Type 0} (env : Environment W) where
  context_parts-Grows : (filenames : List String) → Grows (context_parts env filenames)
  unfolding context_parts
  context_parts-Grows [] = pure-Grows []
  context_parts-Grows (f ∷ filenames) =
      bind-Grows _ _ (call-Grows (env.project_file f))
        λ content. bind-Grows _ _ (context_parts-Grows filenames) λ parts. pure-Grows _

  pub build_system_prompt-Grows :
      (instructions : String) (auto_mode : Bool)
      → Grows (build_system_prompt env instructions auto_mode)
  unfolding build_system_prompt read_project_context
  build_system_prompt-Grows instructions auto_mode = bind-Grows _ _ (call-Grows _) λ environment.
      bind-Grows _ _
        (bind-Grows _ _ (context_parts-Grows project_context_filenames) λ parts. pure-Grows _)
        λ context. pure-Grows _

  module _ (tools : List (ToolDefinition W)) where
    execute-Grows :
        (call_id tool_name : String) (arguments : JsonObject)
        → Grows (execute env tools call_id tool_name arguments)
    unfolding execute
    execute-Grows call_id tool_name arguments = call-Grows _

    execute_tool-Grows : (tool_call : ToolCallBlock) → Grows (execute_tool env tools tool_call)
    unfolding execute_tool
    execute_tool-Grows tool_call = bind-Grows _ _ (emit-Grows _ refl) λ u.
        bind-Grows _ _ (execute-Grows _ _ _)
          λ outcome. bind-Grows _ _ (emit-Grows _ refl) λ u. pure-Grows outcome

    execute_calls-Grows :
        (tool_calls : List ToolCallBlock) → Grows (execute_calls env tools tool_calls)
    unfolding execute_calls
    execute_calls-Grows [] = pure-Grows []
    execute_calls-Grows (tool_call ∷ tool_calls) =
        bind-Grows _ _ (execute_tool-Grows tool_call)
          λ outcome. bind-Grows _ _ (execute_calls-Grows tool_calls) λ outcomes. pure-Grows _

    handle_stream_event-Grows :
        (event : ProviderStreamEvent) → Grows (handle_stream_event env tools event)
    unfolding handle_stream_event handle_stream_done_event handle_stream_error_event emit_turn_start
    handle_stream_event-Grows (stream_start source response_id) =
        bind-Grows _ _ (bind-Grows _ _ (emit-Grows _ refl) λ u. emit-Grows _ refl)
          λ u. pure-Grows none
    handle_stream_event-Grows (update event) =
        bind-Grows _ _ (emit-Grows _ refl) λ u. pure-Grows none
    handle_stream_event-Grows (stream_done event) =
        bind-Grows _ _
          (bind-Grows _ _ (emit-Grows _ refl) λ u.
            bind-Grows _ _ (execute_calls-Grows _)
              λ executions. bind-Grows _ _ (emit-Grows _ refl) λ u. pure-Grows _)
          λ result. pure-Grows (some result)
    handle_stream_event-Grows (stream_error event) =
        bind-Grows _ _ (emit-Grows _ refl) λ u. stop-Grows _

    end_of_stream-Grows : (ending : Option Raised) → Grows (end_of_stream env tools ending)
    end_of_stream-Grows none = stop-Grows _
    end_of_stream-Grows (some e) = stop-Grows _

    or_else-Grows :
        (o : Option TurnResult) (m : Code W TurnResult) → Grows m → Grows (or_else env tools o m)
    or_else-Grows none m h = h
    or_else-Grows (some a) m h = pure-Grows a

    consume-Grows :
        (events : List ProviderStreamEvent) (ending : Option Raised)
        → Grows (consume env tools events ending)
    unfolding consume
    consume-Grows [] ending = end_of_stream-Grows ending
    consume-Grows (event ∷ events) ending =
        bind-Grows _ _ (handle_stream_event-Grows event)
          λ result. or_else-Grows result _ (consume-Grows events ending)

    run_agent_loop-Grows :
        (instructions : String) (fuel : ℕ) (run_history : List ConversationItem)
        (tool_executions : List ToolExecutionOutcome)
        → Grows (run_agent_loop env tools instructions fuel run_history tool_executions)
    unfolding run_agent_loop run_provider_turn
    run_agent_loop-Grows instructions zero run_history tool_executions = stop-Grows _
    run_agent_loop-Grows instructions (suc fuel) run_history tool_executions =
        bind-Grows _ _
          (bind-Grows _ _ (call-Grows _) λ stream. consume-Grows stream.events stream.ending)
          λ result. elim (Bool-cases (should_continue result)) [
            | inl e ↦ rw e (run_agent_loop-Grows instructions fuel _ _)
            | inr e ↦ rw e (pure-Grows _)
          ]

    pub run_agent-Grows :
        (instructions : String) (fuel : ℕ) (history : List ConversationItem)
        → Grows (run_agent env tools instructions fuel history)
    unfolding run_agent
    run_agent-Grows instructions fuel history = bind-Grows _ _ (emit-Grows _ refl) λ u.
        bind-Grows _ _ (run_agent_loop-Grows instructions fuel history [])
          λ result. bind-Grows _ _ (emit-Grows _ refl) λ u. pure-Grows result
