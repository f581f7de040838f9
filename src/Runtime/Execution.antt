-- ===== src/Runtime/Execution.antt =====
-- tile/runtime/execution.py: prompt programs, with the two result tools of tile/tools/complete.py and
-- tile/tools/fail.py. A prompt program never touches the Store.
pub mod Logs
pub mod Outcomes
pub mod Ends
use tile.Prelude.{
  ℕ, suc, String, Bool, true, false, Option, none, some, List, [], ◌∷◌, ◌++◌, Result, ok, join,
}
use Prim.Native.String.{◌++◌ as text_append}
use tile.Types.Json
use tile.Types.Json.{JsonObject}
use tile.Types.StreamEvents.{
  AssistantBlock, text_block, reasoning_block, tool_call_block, string_of,
}
use tile.Types.Tools.{ToolInputIssue, ToolDetails, complete_details, fail_details, text_result}
use tile.Types.Conversation.{AssistantTurn}
use tile.Types.ToolExecution.{ToolExecutionOutcome}
use tile.Outcome.{
  RunOutcome, completed, failed, text, fields, agent_failure, complete_tool_name, fail_tool_name,
  max_result_follow_ups, no_result_reason, result_contract, result_follow_up,
}
use tile.Events.{result_follow_up_event}
use tile.Runtime.Environment.{ToolDefinition, Environment}
use tile.Runtime.Monad.{Code, pure, call, emit, ◌>>=◌, ◌>>◌}
use tile.Runtime.Prompt.{build_system_prompt, text_or_empty}
use tile.Runtime.ToolExecutor.{new_executor}
use tile.Runtime.Agent.{AgentResult, run_agent}

-- `_ExecutionDependencies`, without the provider and the working directory of the environment.
pub record Dependencies (W : Type 0) : Type 0 where
  pub instructions : String
  pub auto_mode : Bool
  pub tools : List (ToolDefinition W)

-- The `result` class of a typed prompt: how it validates arguments.
abbrev pub ResultType : Type 0
ResultType = JsonObject → Result (List ToolInputIssue) JsonObject

-- `"\n\n".join` over the text blocks of a turn.
unfoldable pub texts_of : List AssistantBlock → List String
texts_of [] = []
texts_of (text_block b ∷ blocks) = b.text ∷ texts_of blocks
texts_of (reasoning_block b ∷ blocks) = texts_of blocks
texts_of (tool_call_block b ∷ blocks) = texts_of blocks

unfoldable pub assistant_text : AssistantTurn → String
unfolding texts_of
assistant_text turn = join "\n\n" (texts_of turn.blocks)

-- The result that one execution's details stand for.
abbrev pub result_of_details : Option ToolDetails → Option RunOutcome → Option RunOutcome
result_of_details (some (complete_details value)) later = some (completed (fields value))
result_of_details (some (fail_details reason)) later = some (failed (agent_failure reason))
result_of_details _ later = later

abbrev pub if_terminating : Bool → Option RunOutcome → Option RunOutcome → Option RunOutcome
if_terminating true found later = found
if_terminating false found later = later

unfoldable pub result_outcome : List ToolExecutionOutcome → Option RunOutcome
result_outcome [] = none
result_outcome (execution ∷ executions) =
    let later = result_outcome executions in
    if_terminating execution.terminate (result_of_details execution.details later) later

module _ {W : Type 0} (env : Environment W) where
  unfoldable pub complete_tool : ResultType → ToolDefinition W
  complete_tool result = record {
    name = complete_tool_name;
    description =
        "Report the final result and end the run. The arguments are validated against the required result schema; validation errors are returned for correction. Call this exactly once, when the task is done.";
    signature_error = none;
    validate = result;
    fn = λ params w. (ok (text_result "Result recorded." (some (complete_details params)) true), w);
  }

  -- The text of the field `reason` of a validated `FailInput`.
  abbrev pub reason_of : JsonObject → String
  reason_of params = text_or_empty (string_of (Json.get "reason" params))

  unfoldable pub fail_tool : ToolDefinition W
  fail_tool = record {
    name = fail_tool_name;
    description =
        "Report that the task cannot be completed and end the run. Provide a clear reason naming what is missing or impossible.";
    signature_error = none;
    validate = env.validate_fail_input;
    fn = λ params w.
        (ok (text_result "Failure recorded." (some (fail_details (reason_of params))) true), w);
  }

  unfoldable pub run_attempt : ℕ → Dependencies W → Code W AgentResult
  run_attempt fuel deps = do
    instructions ← build_system_prompt env deps.instructions deps.auto_mode
    λ s. run_agent env deps.tools instructions fuel s.history.working s

  unfoldable pub execute_plain : ℕ → Dependencies W → Code W RunOutcome
  unfolding run_attempt
  execute_plain fuel deps = do
    agent_result ← run_attempt fuel deps
    pure (completed (text (assistant_text agent_result.last_turn)))

  -- `replace` of the tools happens in `ToolExecutor`, which rejects a tool that has a result name.
  unfoldable pub typed_attempt_dependencies : Dependencies W → ResultType → Code W (Dependencies W)
  typed_attempt_dependencies deps result = do
    tools ← call λ w. (new_executor env (deps.tools ++ complete_tool result ∷ fail_tool ∷ []), w)
    pure (record {
      instructions = text_append deps.instructions (text_append "\n\n" result_contract);
      auto_mode = deps.auto_mode;
      tools = tools;
    })

  -- After an attempt that gave no result.
  abbrev pub or_follow_up : Option RunOutcome → Code W RunOutcome → Code W RunOutcome
  or_follow_up (some outcome) next = pure outcome
  or_follow_up none next = next

  -- The loop over attempts, with the number of follow-ups that are left.
  unfoldable pub attempts : ℕ → Dependencies W → ℕ → Code W RunOutcome
  unfolding run_attempt
  attempts fuel deps Prim.Native.Nat.zero = do
    agent_result ← run_attempt fuel deps
    or_follow_up (result_outcome agent_result.tool_executions)
        (pure (failed (agent_failure no_result_reason)))
  attempts fuel deps (Prim.Native.Nat.suc left) = do
    agent_result ← run_attempt fuel deps
    or_follow_up (result_outcome agent_result.tool_executions) (do
      emit (result_follow_up_event (record { content = result_follow_up }))
      attempts fuel deps left)

  unfoldable pub execute_typed : ℕ → Dependencies W → ResultType → Code W RunOutcome
  unfolding typed_attempt_dependencies attempts
  execute_typed fuel deps result = do
    attempt_dependencies ← typed_attempt_dependencies deps result
    attempts fuel attempt_dependencies max_result_follow_ups

  unfoldable pub execute_prompt : ℕ → Dependencies W → Option ResultType → Code W RunOutcome
  unfolding execute_plain execute_typed
  execute_prompt fuel deps none = execute_plain fuel deps
  execute_prompt fuel deps (some result) = execute_typed fuel deps result
