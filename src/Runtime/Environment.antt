-- ===== src/Runtime/Environment.antt =====
-- What the runtime calls and does not implement: the provider, the tools' functions and schemas, the
-- clock and the files of the working directory, Unicode case folding, and the texts of errors.
use tile.Prelude.{String, Option, List, Result}
use tile.Types.Json.{JsonObject}
use tile.Types.StreamEvents.{ProviderStreamEvent}
use tile.Types.Tools.{ToolInputIssue, ToolResult}
use tile.Types.Conversation.{ConversationItem}
use tile.Outcome.{Raised, StoreError}

-- `ToolDefinition` of tile/types/tools.py. `validate` is `input_model.model_validate`, with the
-- fields of the validated model for the model; `signature_error` is the text of the `TypeError` of
-- `inspect.signature(fn).bind` with one positional argument, if it raises one.
pub record ToolDefinition (W : Type 0) : Type 0 where
  pub name : String
  pub description : String
  pub signature_error : Option String
  pub validate : JsonObject → Result (List ToolInputIssue) JsonObject
  pub fn : JsonObject → W → Result Raised ToolResult × W

-- A provider's stream: the events that it yields, and the exception that ends it, if any.
pub record Stream : Type 0 where
  pub events : List ProviderStreamEvent
  pub ending : Option Raised

pub record Environment (W : Type 0) : Type 0 where
  pub stream :
      List ConversationItem → String → List (ToolDefinition W) → W → Result Raised Stream × W
  pub validate_fail_input : JsonObject → Result (List ToolInputIssue) JsonObject
  pub project_file : String → W → Result Raised (Option String) × W
  pub today : W → String
  pub cwd : String
  pub lower : String → String
  pub strip : String → String
  pub store_message : StoreError → String
  pub store_error_type : StoreError → String
