-- ===== src/Types/Tools.antt =====
-- tile/types/tools.py, and the details that the tools attach to their results.
use tile.Prelude.{ℕ, String, Bool, Option, List, [], ◌∷◌, ◌⊎◌}
use tile.Types.Json.{JsonObject}

pub data ImageMimeType : Type 0 where
  jpeg png gif webp : ImageMimeType

pub data ToolResultContent : Type 0 where
  text_content : String → ToolResultContent
  image_content : String → ImageMimeType → ToolResultContent

-- `ToolInputIssue` of tile/types/tool_execution.py; a location part is a key or an index.
pub record ToolInputIssue : Type 0 where
  pub location : List (String ⊎ ℕ)
  pub code : String
  pub message : String

-- The subclasses of `ToolDetails` that the runtime tells apart; `other` is any further one.
pub data ToolDetails : Type 0 where
  complete_details : JsonObject → ToolDetails
  fail_details : String → ToolDetails
  input_validation_failure : String → List ToolInputIssue → ToolDetails
  invocation_failure : String → String → String → ToolDetails
  other : String → JsonObject → ToolDetails

pub record ToolResult : Type 0 where
  pub content : List ToolResultContent
  pub details : Option ToolDetails
  pub terminate : Bool

-- `ToolResult.text`
unfoldable pub text_result : String → Option ToolDetails → Bool → ToolResult
text_result text details terminate = record {
  content = text_content text ∷ [];
  details = details;
  terminate = terminate;
}
