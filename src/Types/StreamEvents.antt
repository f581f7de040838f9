-- ===== src/Types/StreamEvents.antt =====
-- tile/types/stream_events.py: assistant blocks and the events of a provider stream.
use tile.Prelude.{ℕ, String, Option, none, some, List, [], ◌∷◌}
use tile.Types.Json
use tile.Types.Json.{JsonValue, JsonObject, string, end, field}

pub data StopReason : Type 0 where
  stop length tool_use error aborted : StopReason

pub record ProviderSource : Type 0 where
  pub provider : String
  pub model : Option String

pub record ProviderMetadata : Type 0 where
  pub entries : JsonObject

-- The dictionary comprehension of `from_values`: absent values are left out.
unfoldable pub present : List (String × Option String) → JsonObject
present [] = end
present ((key, none) ∷ values) = present values
present ((key, some value) ∷ values) = field key (string value) (present values)

abbrev metadata_of : JsonObject → Option ProviderMetadata
metadata_of end = none
metadata_of (field k v rest) = some (record { entries = field k v rest })

unfoldable pub from_values : List (String × Option String) → Option ProviderMetadata
unfolding present
from_values values = metadata_of (present values)

abbrev pub string_of : Option JsonValue → Option String
string_of (some (string s)) = some s
string_of _ = none

unfoldable pub string_value : ProviderMetadata → String → Option String
string_value m key = string_of (Json.get key m.entries)

-- `metadata_string` of a block, from the block's metadata.
unfoldable pub metadata_string : Option ProviderMetadata → String → Option String
unfolding string_value
metadata_string none key = none
metadata_string (some m) key = string_value m key

pub record TextBlock : Type 0 where
  pub provider_metadata : Option ProviderMetadata
  pub text : String

pub record ReasoningBlock : Type 0 where
  pub provider_metadata : Option ProviderMetadata
  pub summary_text : String

pub record ToolCallBlock : Type 0 where
  pub provider_metadata : Option ProviderMetadata
  pub call_id : String
  pub name : String
  pub arguments : JsonObject

pub data AssistantBlock : Type 0 where
  text_block : TextBlock → AssistantBlock
  reasoning_block : ReasoningBlock → AssistantBlock
  tool_call_block : ToolCallBlock → AssistantBlock

-- `StreamUpdateEvent`: the events of one block, each with its content index.
pub data StreamUpdateEvent : Type 0 where
  reasoning_start : ℕ → StreamUpdateEvent
  reasoning_delta : ℕ → String → StreamUpdateEvent
  reasoning_end : ℕ → ReasoningBlock → StreamUpdateEvent
  text_start : ℕ → StreamUpdateEvent
  text_delta : ℕ → String → StreamUpdateEvent
  text_end : ℕ → TextBlock → StreamUpdateEvent
  tool_call_start : ℕ → String → String → StreamUpdateEvent
  tool_call_delta : ℕ → String → StreamUpdateEvent
  tool_call_end : ℕ → ToolCallBlock → StreamUpdateEvent

pub record StreamDone : Type 0 where
  pub source : ProviderSource
  pub response_id : Option String
  pub stop_reason : StopReason
  pub blocks : List AssistantBlock

pub record StreamError : Type 0 where
  pub source : ProviderSource
  pub response_id : Option String
  pub stop_reason : StopReason
  pub error_message : String
  pub blocks : List AssistantBlock

pub data ProviderStreamEvent : Type 0 where
  stream_start : ProviderSource → String → ProviderStreamEvent
  update : StreamUpdateEvent → ProviderStreamEvent
  stream_done : StreamDone → ProviderStreamEvent
  stream_error : StreamError → ProviderStreamEvent
