-- ===== src/Outcome.antt =====
-- tile/result.py: how a run ends, and tile/exceptions.py: what the runtime raises.
use tile.Prelude.{ℕ, String, Option}
use tile.Types.Json.{JsonObject}
use tile.Types.Tools.{ToolDetails}
use tile.Types.Conversation.{AssistantTurn}

abbrev pub max_result_follow_ups : ℕ
max_result_follow_ups = 8

abbrev pub complete_tool_name : String
complete_tool_name = "complete"

abbrev pub fail_tool_name : String
fail_tool_name = "fail"

abbrev pub result_contract : String
result_contract =
    "This run must end with a result tool call.\n- When the task is complete, call `complete` with your final result as its arguments. The arguments are validated against the required schema; validation errors come back as tool errors you can correct.\n- If you cannot complete the task or cannot produce a conforming result, call `fail` with a clear `reason`.\n- Plain text does not end the run. Only a `complete` or `fail` call does."

abbrev pub result_follow_up : String
result_follow_up =
    "You ended your turn without calling `complete` or `fail`. Call `complete` with your final result, or `fail` with a reason if you cannot."

abbrev pub no_result_reason : String
no_result_reason = "The model ended the run without calling `complete` or `fail`."

-- `value` of a completed run: text, or the fields of the validated result.
pub data CompletedValue : Type 0 where
  text : String → CompletedValue
  fields : JsonObject → CompletedValue

pub data ExecutionFailureOrigin : Type 0 where
  turn execution : ExecutionFailureOrigin

pub data FailureCause : Type 0 where
  agent_failure : String → FailureCause
  execution_failure : ExecutionFailureOrigin → String → String → FailureCause

pub data RunOutcome : Type 0 where
  completed : CompletedValue → RunOutcome
  failed : FailureCause → RunOutcome
  aborted : RunOutcome

-- The errors of tile/store/base.py; `persistence` is `StorePersistenceError` with its operation.
pub data StoreError : Type 0 where
  active_run : String → StoreError
  run_already_ended : String → StoreError
  session_already_exists : String → StoreError
  session_not_found : String → StoreError
  run_already_exists : String → StoreError
  run_not_found : String → String → StoreError
  no_terminal_record : String → StoreError
  persistence : String → String → StoreError

-- What Python code of the runtime can raise. `exception` is any other `Exception`, by the name of
-- its class and its text; `cancelled` is `asyncio.CancelledError`, which is no `Exception`.
pub data Raised : Type 0 where
  turn_failed : AssistantTurn → Raised
  stream_protocol : String → Raised
  tool_error : String → Option ToolDetails → Raised
  store_error : StoreError → Raised
  exception : String → String → Raised
  cancelled : Raised

pub data RunResult : Type 0 where
  outcome : RunOutcome → RunResult
  faulted : Raised → RunResult
