-- ===== src/Providers/Adapter.antt =====
-- tile/providers/openai/sdk_event_adapter.py. An event of the SDK is seen by what the code reads of it;
-- parsing JSON, stripping blanks and dumping a reasoning item are parameters.
pub mod Ends
use tile.Prelude.{
  ◌+◌, String, Bool, true, false, not, ◌||◌, Option, none, some, List, [], ◌∷◌, ◌++◌, if◌then◌else◌,
  length, filter, str_eq, join, any, unwrap_or,
}
use tile.Types.Json.{JsonObject, JsonValue, object, end}
use tile.Types.StreamEvents.{StopReason}
use tile.Providers.Assembler.{
  NormalizedEvent, created, reasoning_added, reasoning_delta, reasoning_done, message_added,
  message_text_delta, message_done, tool_call_added, tool_call_arguments_delta,
  tool_call_arguments_done, tool_call_done, completed, incomplete, failed,
}

-- `ResponseReasoningItem`, with the object that the SDK dumps for it.
pub record ReasoningItem : Type 0 where
  pub id : String
  pub summary : List String
  pub dumped : JsonObject

-- The parts of a message: texts, refusals, and what else there may be.
pub data MessageContent : Type 0 where
  output_text : String → MessageContent
  output_refusal : String → MessageContent
  other_content : MessageContent

pub record OutputMessage : Type 0 where
  pub id : String
  pub content : List MessageContent
  pub phase : Option String

pub record FunctionToolCall : Type 0 where
  pub id : Option String
  pub call_id : String
  pub name : String
  pub arguments : Option String

pub data OutputItem : Type 0 where
  reasoning_item : ReasoningItem → OutputItem
  message_item : OutputMessage → OutputItem
  function_call_item : FunctionToolCall → OutputItem
  other_item : OutputItem

-- `ResponseStreamEvent`: an incomplete response has the reason of its details, a failed one the message of
-- its error, where there is one.
pub data SdkEvent : Type 0 where
  response_created : String → SdkEvent
  response_completed : List OutputItem → SdkEvent
  response_incomplete : Option String → List OutputItem → SdkEvent
  response_error : String → SdkEvent
  response_failed : Option (Option String) → SdkEvent
  reasoning_summary_text_delta : String → SdkEvent
  reasoning_text_delta : String → SdkEvent
  output_text_delta : String → SdkEvent
  refusal_delta : String → SdkEvent
  function_call_arguments_delta : String → SdkEvent
  function_call_arguments_done : String → SdkEvent
  output_item_added : OutputItem → SdkEvent
  output_item_done : OutputItem → SdkEvent
  other_event : SdkEvent

-- `text or other`
unfoldable pub nonempty_or : String → String → String
nonempty_or text other = if str_eq text "" then other else text

-- `"\n\n".join(item.text for item in summary if item.text)`
unfoldable pub join_reasoning_summary_text : List String → String
join_reasoning_summary_text summary = join "\n\n" (filter (λ text. not (str_eq text "")) summary)

unfoldable pub message_part : MessageContent → List String
message_part (output_text text) = text ∷ []
message_part (output_refusal refusal) = refusal ∷ []
message_part other_content = []

unfoldable pub message_parts : List MessageContent → List String
message_parts [] = []
message_parts (item ∷ content) = message_part item ++ message_parts content

unfoldable pub join_message_text : List MessageContent → String
join_message_text content = join "" (message_parts content)

unfoldable pub known_message_phase : String → Option String
known_message_phase phase =
    if str_eq phase "commentary" || str_eq phase "final_answer" then some phase else none

unfoldable pub extract_message_phase : OutputMessage → Option String
extract_message_phase item = elim item.phase [
  | none ↦ none
  | some phase ↦ known_message_phase phase
]

unfoldable pub extract_error_message : Option (Option String) → String
extract_error_message none = "OpenAI response failed."
extract_error_message (some none) = "OpenAI response failed."
extract_error_message (some (some message)) = nonempty_or message "OpenAI response failed."

unfoldable pub is_content_filter : Option String → Bool
is_content_filter none = false
is_content_filter (some reason) = str_eq reason "content_filter"

unfoldable pub extract_incomplete_error_message : Option String → String
extract_incomplete_error_message reason =
    if is_content_filter reason
    then "OpenAI response was truncated by the content filter."
    else "OpenAI response incomplete."

unfoldable pub is_function_call : OutputItem → Bool
is_function_call (function_call_item call) = true
is_function_call _ = false

-- `_extract_base_stop_reason` and `_extract_stop_reason` of a completed response.
unfoldable pub completed_stop_reason : List OutputItem → StopReason
completed_stop_reason output =
    if any is_function_call output then StopReason.tool_use else StopReason.stop

-- The same of an incomplete response, whose base reason is never `stop`.
unfoldable pub incomplete_stop_reason : Option String → StopReason
incomplete_stop_reason reason =
    if is_content_filter reason then StopReason.error else StopReason.length

-- `json.loads`, with none for a `JSONDecodeError`, `str.strip` and `json.dumps`.
pub record Json : Type 0 where
  pub loads : String → Option JsonValue
  pub strip : String → String
  pub dumps : JsonObject → String

unfoldable pub object_of : Option JsonValue → JsonObject
object_of (some (object fields)) = fields
object_of _ = end

-- `first or second`; an event is true.
unfoldable pub or_else {ℓ} : {A : Type ℓ} → Option A → Option A → Option A
or_else none second = second
or_else (some a) second = some a

unfoldable pub listed {ℓ} : {A : Type ℓ} → Option A → List A
listed none = []
listed (some a) = a ∷ []

module _ (json : Json) where
  unfoldable pub parse_tool_call_arguments : String → JsonObject
  parse_tool_call_arguments arguments =
      if str_eq (json.strip arguments) "" then end else object_of (json.loads arguments)

  unfoldable pub item_arguments : FunctionToolCall → JsonObject
  item_arguments call = parse_tool_call_arguments (unwrap_or call.arguments "")

  unfoldable pub normalize_response_lifecycle_event : SdkEvent → Option NormalizedEvent
  normalize_response_lifecycle_event (response_created id) = some (created id)
  normalize_response_lifecycle_event (response_completed output) =
      some (completed (completed_stop_reason output))
  normalize_response_lifecycle_event (response_incomplete reason output) =
      some (
        incomplete (incomplete_stop_reason reason) (some (extract_incomplete_error_message reason)))
  normalize_response_lifecycle_event (response_error message) =
      some (failed (nonempty_or message "OpenAI stream error."))
  normalize_response_lifecycle_event (response_failed error) =
      some (failed (extract_error_message error))
  normalize_response_lifecycle_event _ = none

  unfoldable pub normalize_content_stream_event : SdkEvent → Option NormalizedEvent
  normalize_content_stream_event (reasoning_summary_text_delta delta) = some (reasoning_delta delta)
  normalize_content_stream_event (reasoning_text_delta delta) = some (reasoning_delta delta)
  normalize_content_stream_event (output_text_delta delta) = some (message_text_delta delta)
  normalize_content_stream_event (refusal_delta delta) = some (message_text_delta delta)
  normalize_content_stream_event (function_call_arguments_delta delta) =
      some (tool_call_arguments_delta delta)
  normalize_content_stream_event (function_call_arguments_done arguments) =
      some (tool_call_arguments_done (parse_tool_call_arguments arguments))
  normalize_content_stream_event _ = none

  unfoldable pub normalize_output_item_added : SdkEvent → Option NormalizedEvent
  normalize_output_item_added (output_item_added (reasoning_item item)) =
      some (reasoning_added item.id)
  normalize_output_item_added (output_item_added (message_item item)) =
      some (message_added item.id (extract_message_phase item))
  normalize_output_item_added (output_item_added (function_call_item call)) =
      some (tool_call_added call.id call.call_id call.name (item_arguments call))
  normalize_output_item_added _ = none

  unfoldable pub normalize_output_item_done : SdkEvent → Option NormalizedEvent
  normalize_output_item_done (output_item_done (reasoning_item item)) = some (
      reasoning_done item.id (join_reasoning_summary_text item.summary)
        (some (json.dumps item.dumped)))
  normalize_output_item_done (output_item_done (message_item item)) =
      some (message_done item.id (join_message_text item.content) (extract_message_phase item))
  normalize_output_item_done (output_item_done (function_call_item call)) =
      some (tool_call_done call.id call.call_id call.name (item_arguments call))
  normalize_output_item_done _ = none

  unfoldable pub normalize_sdk_event : SdkEvent → Option NormalizedEvent
  normalize_sdk_event event =
      or_else
        (or_else
          (or_else (normalize_response_lifecycle_event event)
            (normalize_content_stream_event event))
          (normalize_output_item_added event))
        (normalize_output_item_done event)

  unfoldable pub normalize_sdk_events : List SdkEvent → List NormalizedEvent
  normalize_sdk_events [] = []
  normalize_sdk_events (event ∷ events) =
      listed (normalize_sdk_event event) ++ normalize_sdk_events events
