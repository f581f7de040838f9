-- ===== src/Types/Conversation.antt =====
-- tile/types/conversation.py: the items of a conversation history.
use tile.Prelude.{String, Bool, Option, none, some, List}
use tile.Types.StreamEvents.{StopReason, ProviderSource, AssistantBlock, StreamDone, StreamError}
use tile.Types.Tools.{ToolResultContent}

pub data TurnStatus : Type 0 where
  completed aborted error : TurnStatus

pub record UserMessage : Type 0 where
  pub content : String

pub record AssistantTurn : Type 0 where
  pub source : Option ProviderSource
  pub blocks : List AssistantBlock
  pub response_id : Option String
  pub stop_reason : StopReason
  pub status : TurnStatus
  pub error_message : Option String

unfoldable pub from_stream_done : StreamDone → AssistantTurn
from_stream_done event = record {
  source = some event.source;
  blocks = event.blocks;
  response_id = event.response_id;
  stop_reason = event.stop_reason;
  status = completed;
  error_message = none;
}

abbrev failed_status : StopReason → TurnStatus
failed_status StopReason.aborted = aborted
failed_status _ = error

unfoldable pub from_stream_error : StreamError → AssistantTurn
from_stream_error event = record {
  source = some event.source;
  blocks = event.blocks;
  response_id = event.response_id;
  stop_reason = event.stop_reason;
  status = failed_status event.stop_reason;
  error_message = some event.error_message;
}

pub record ToolResultTurn : Type 0 where
  pub call_id : String
  pub tool_name : String
  pub content : List ToolResultContent
  pub is_error : Bool

pub data ConversationItem : Type 0 where
  user : UserMessage → ConversationItem
  assistant : AssistantTurn → ConversationItem
  tool_result : ToolResultTurn → ConversationItem
