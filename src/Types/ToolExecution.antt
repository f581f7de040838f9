-- ===== src/Types/ToolExecution.antt =====
-- tile/types/tool_execution.py: the outcome of one tool execution.
use tile.Prelude.{String, Bool, true, false, Option, [], ◌∷◌}
use tile.Types.Tools.{ToolDetails, ToolResult, text_content}
use tile.Types.Conversation.{ToolResultTurn}

pub record ToolExecutionOutcome : Type 0 where
  pub tool_result_turn : ToolResultTurn
  pub details : Option ToolDetails
  pub terminate : Bool

unfoldable pub from_result : String → String → ToolResult → ToolExecutionOutcome
from_result call_id tool_name result = record {
  tool_result_turn = record {
    call_id = call_id;
    tool_name = tool_name;
    content = result.content;
    is_error = false;
  };
  details = result.details;
  terminate = result.terminate;
}

unfoldable pub from_error : String → String → String → Option ToolDetails → ToolExecutionOutcome
from_error call_id tool_name message details = record {
  tool_result_turn = record {
    call_id = call_id;
    tool_name = tool_name;
    content = text_content message ∷ [];
    is_error = true;
  };
  details = details;
  terminate = false;
}
