-- ===== src/Runtime/ToolExecutor.antt =====
-- tile/tool_executor.py: the boundary between the agent loop and the tools.
pub mod Outcomes
pub mod Names
use tile.Prelude.{
  inl, decimal, inr, ℕ, join, ◌⊎◌, String, not, Option, none, some, List, [], ◌∷◌, map, any,
  find_first, str_eq, if◌then◌else◌, Result, ok, err,
}
use tile.Types.Json.{JsonObject}
use tile.Types.Tools.{ToolInputIssue, ToolResult, input_validation_failure, invocation_failure}
use tile.Types.ToolExecution.{ToolExecutionOutcome, from_result, from_error}
use Prim.Native.String.{◌++◌ as text_append}
use tile.Outcome.{
  Raised, turn_failed, stream_protocol, tool_error, store_error, exception, cancelled,
}
use tile.Runtime.Environment.{ToolDefinition, Environment}
use tile.Runtime.Monad.{Code, call}

-- `turn.error_message or "The assistant turn failed."`
abbrev pub turn_message : Option String → String
turn_message none = "The assistant turn failed."
turn_message (some text) = if str_eq text "" then "The assistant turn failed." else text

-- `_format_location`: the field path of a validation issue.
abbrev location_part : String → String ⊎ ℕ → String
location_part rendered (inr index) =
    text_append rendered (text_append "[" (text_append (decimal index) "]"))
location_part rendered (inl key) =
    if str_eq rendered "" then key else text_append rendered (text_append "." key)

unfoldable pub render_location : String → List (String ⊎ ℕ) → String
render_location rendered [] = if str_eq rendered "" then "arguments" else rendered
render_location rendered (part ∷ parts) = render_location (location_part rendered part) parts

-- `_format_validation_failure`
unfoldable pub format_validation_failure : String → List ToolInputIssue → String
unfolding render_location
format_validation_failure tool_name issues = join "\n" (
    text_append "Invalid arguments for tool '" (text_append tool_name "':")
    ∷ map
        (λ issue.
          text_append "- "
            (text_append (render_location "" issue.location) (text_append ": " issue.message)))
        issues)

module _ {W : Type 0} (env : Environment W) where
  -- `type(error).__name__`
  unfoldable pub exception_type : Raised → String
  exception_type (turn_failed turn) = "TurnFailedError"
  exception_type (stream_protocol text) = "ProviderStreamProtocolError"
  exception_type (tool_error text details) = "ToolError"
  exception_type (store_error e) = env.store_error_type e
  exception_type (exception name text) = name
  exception_type cancelled = "CancelledError"

  -- `str(error)`
  unfoldable pub exception_message : Raised → String
  exception_message (turn_failed turn) = turn_message turn.error_message
  exception_message (stream_protocol text) = text
  exception_message (tool_error text details) = text
  exception_message (store_error e) = env.store_message e
  exception_message (exception name text) = text
  exception_message cancelled = ""

  unfoldable pub get_tool : List (ToolDefinition W) → String → Option (ToolDefinition W)
  get_tool tools tool_name =
      let normalized_tool_name = env.strip (env.lower tool_name) in
      find_first (λ tool. str_eq (env.lower tool.name) normalized_tool_name) tools

  unfoldable pub require_tool : List (ToolDefinition W) → String → Result Raised (ToolDefinition W)
  unfolding get_tool
  require_tool tools tool_name = elim (get_tool tools tool_name) [
    | none ↦ err (tool_error (text_append "Tool '" (text_append tool_name "' not found")) none)
    | some tool ↦ ok tool
  ]

  unfoldable pub validate_arguments : ToolDefinition W → JsonObject → Result Raised JsonObject
  validate_arguments tool arguments = elim (tool.validate arguments) [
    | ok validated ↦ ok validated
    | err issues ↦ err (
        tool_error (format_validation_failure tool.name issues)
          (some (input_validation_failure tool.name issues)))
  ]

  abbrev pub invoke :
      Result Raised (ToolDefinition W) → JsonObject → W → Result Raised ToolResult × W
  invoke (err e) arguments w = (err e, w)
  invoke (ok tool) arguments w = elim (validate_arguments tool arguments) [
    | err e ↦ (err e, w)
    | ok validated ↦ tool.fn validated w
  ]

  unfoldable pub call_tool :
      List (ToolDefinition W) → String → JsonObject → W → Result Raised ToolResult × W
  unfolding require_tool validate_arguments
  call_tool tools tool_name arguments = invoke (require_tool tools tool_name) arguments

  -- The `except` clauses of `execute`: a cancellation is no `Exception` and passes through.
  abbrev pub normalized :
      String → String → Result Raised ToolResult → Result Raised ToolExecutionOutcome
  normalized call_id tool_name (ok result) = ok (from_result call_id tool_name result)
  normalized call_id tool_name (err (tool_error text details)) =
      ok (from_error call_id tool_name text details)
  normalized call_id tool_name (err cancelled) = err cancelled
  normalized call_id tool_name (err e) = ok (
      from_error call_id tool_name (exception_message e)
        (some (invocation_failure tool_name (exception_type e) (exception_message e))))

  abbrev pub outcome_of :
      String → String → Result Raised ToolResult × W → Result Raised ToolExecutionOutcome × W
  outcome_of call_id tool_name (r, w) = (normalized call_id tool_name r, w)

  unfoldable pub execute :
      List (ToolDefinition W) → String → String → JsonObject → Code W ToolExecutionOutcome
  unfolding call_tool exception_type exception_message
  execute tools call_id tool_name arguments =
      call (λ w. outcome_of call_id tool_name (call_tool tools tool_name arguments w))

  -- `_require_invocable_signature`, then the rest of the loop.
  abbrev pub invocable :
      String → Option String → Result Raised (Unit {0}) → Result Raised (Unit {0})
  invocable name none rest = rest
  invocable name (some error) rest = err (
      exception "ValueError" (
        text_append "Tool '" (
          text_append name (
            text_append
              "' function must accept one validated input model as a positional argument: "
              error))))

  -- The loop of `ToolExecutor.__init__`, with the names seen so far.
  unfoldable pub check_tools : List String → List (ToolDefinition W) → Result Raised (Unit {0})
  check_tools seen [] = ok tt
  check_tools seen (tool ∷ tools) =
      let name = env.lower tool.name in
      let rest = check_tools (name ∷ seen) tools in
      if any (str_eq name) seen
      then err (exception "ValueError" (text_append "Duplicate tool name: " tool.name))
      else invocable tool.name tool.signature_error rest

  -- `ToolExecutor(tools)`, which keeps the tools.
  unfoldable pub new_executor : List (ToolDefinition W) → Result Raised (List (ToolDefinition W))
  unfolding check_tools
  new_executor tools = elim (check_tools [] tools) [ ok u ↦ ok tools | err e ↦ err e ]
