-- ===== src/Providers/Serialization.antt =====
-- tile/providers/openai/serialization.py: the request items of a history. JSON texts and the validation
-- of a stored reasoning item by the SDK are parameters.
pub mod Answered
pub mod Committed
use mathlib.Core.Option
use Prim.Native.String.{◌++◌ as text_append}
use tile.Prelude.{
  ℕ, suc, ◌+◌, ◌-◌, ◌/◌, String, not, Option, none, some, List, [], ◌∷◌, ◌++◌, map, if◌then◌else◌,
  decimal, Result, ok, ◌>>=◌, ◌>>◌, str_eq, join,
}
use tile.Types.Json.{JsonObject}
use tile.Types.StreamEvents.{
  metadata_string, TextBlock, ReasoningBlock, ToolCallBlock, AssistantBlock, text_block,
  reasoning_block, tool_call_block,
}
use tile.Types.Tools.{ImageMimeType, ToolResultContent, text_content, image_content}
use tile.Types.Conversation.{
  TurnStatus, UserMessage, AssistantTurn, ToolResultTurn, ConversationItem, user, assistant,
  tool_result,
}

pub data InputPart : Type 0 where
  input_text : String → InputPart
  input_image : String → InputPart

-- `str | ResponseFunctionCallOutputItemListParam`
pub data CallOutput : Type 0 where
  plain : String → CallOutput
  parts : List InputPart → CallOutput

-- The items of `ResponseInputParam` that the module builds, with the entries that vary.
pub data InputItem : Type 0 where
  user_message : List InputPart → InputItem
  reasoning : JsonObject → InputItem
  output_message : String → String → Option String → InputItem
  function_call : String → String → String → String → InputItem
  function_call_output : String → CallOutput → InputItem

-- `value or other` for an optional text.
unfoldable pub text_or : Option String → String → String
text_or none other = other
text_or (some value) other = if str_eq value "" then other else value

unfoldable pub mime_text : ImageMimeType → String
mime_text ImageMimeType.jpeg = "image/jpeg"
mime_text ImageMimeType.png = "image/png"
mime_text ImageMimeType.gif = "image/gif"
mime_text ImageMimeType.webp = "image/webp"

unfoldable pub build_input_image : String → ImageMimeType → InputPart
build_input_image image mime_type =
    input_image
      (text_append "data:" (text_append (mime_text mime_type) (text_append ";base64," image)))

unfoldable pub content_part : ToolResultContent → InputPart
content_part (text_content text) = input_text text
content_part (image_content image mime_type) = build_input_image image mime_type

-- The texts of a result that has no image.
unfoldable pub text_only : List ToolResultContent → Option (List String)
text_only [] = some []
text_only (text_content text ∷ content) = Option.map (λ texts. text ∷ texts) (text_only content)
text_only (image_content image mime_type ∷ content) = none

unfoldable pub serialize_tool_result_content : List ToolResultContent → CallOutput
serialize_tool_result_content content = elim (text_only content) [
  | some texts ↦ plain (join "\n" texts)
  | none ↦ parts (map content_part content)
]

unfoldable pub serialize_tool_result_turn : ToolResultTurn → InputItem
serialize_tool_result_turn turn =
    function_call_output turn.call_id (serialize_tool_result_content turn.content)

unfoldable pub serialize_user_message : UserMessage → InputItem
serialize_user_message message = user_message (input_text message.content ∷ [])

unfoldable pub build_fallback_message_id : ℕ → ℕ → String
build_fallback_message_id assistant_turn_index block_index =
    text_append "msg_"
      (text_append (decimal assistant_turn_index) (text_append "_" (decimal block_index)))

unfoldable pub known_phase : String → Option String
known_phase value =
    if str_eq value "commentary"
    then some "commentary"
    else if str_eq value "final_answer"
    then some "final_answer"
    else none

unfoldable pub phase_of : Option String → Option String
phase_of none = none
phase_of (some value) = known_phase value

unfoldable pub read_provider_phase : TextBlock → Option String
read_provider_phase block = phase_of (metadata_string block.provider_metadata "phase")

unfoldable pub serialize_assistant_text_block : TextBlock → ℕ → ℕ → InputItem
serialize_assistant_text_block block assistant_turn_index block_index =
    output_message
      (text_or (metadata_string block.provider_metadata "message_id")
        (build_fallback_message_id assistant_turn_index block_index))
      block.text (read_provider_phase block)

-- `json.dumps` of an object, and the item that the SDK's model dumps for a stored signature; `err` holds
-- the message of a `ValidationError`.
pub record Codec : Type 0 where
  pub dumps : JsonObject → String
  pub replay : String → Result String JsonObject

module _ (codec : Codec) where
  unfoldable pub serialize_assistant_tool_call_block : ToolCallBlock → InputItem
  serialize_assistant_tool_call_block block =
      function_call
        (text_or (metadata_string block.provider_metadata "provider_item_id") block.call_id)
        block.call_id block.name (codec.dumps block.arguments)

  -- A block whose signature is absent or empty is left out.
  unfoldable pub serialize_signature : Option String → Result String (List InputItem)
  serialize_signature none = ok []
  serialize_signature (some signature) =
      if str_eq signature ""
      then ok []
      else codec.replay signature >>= λ item. ok (reasoning item ∷ [])

  unfoldable pub serialize_block : AssistantBlock → ℕ → ℕ → Result String (List InputItem)
  serialize_block (reasoning_block block) assistant_turn_index block_index =
      serialize_signature (metadata_string block.provider_metadata "reasoning_signature")
  serialize_block (text_block block) assistant_turn_index block_index =
      ok (serialize_assistant_text_block block assistant_turn_index block_index ∷ [])
  serialize_block (tool_call_block block) assistant_turn_index block_index =
      ok (serialize_assistant_tool_call_block block ∷ [])

  -- The loop of `_serialize_assistant_turn` from a block index.
  unfoldable pub serialize_blocks : List AssistantBlock → ℕ → ℕ → Result String (List InputItem)
  serialize_blocks [] assistant_turn_index block_index = ok []
  serialize_blocks (block ∷ blocks) assistant_turn_index block_index = do
    items ← serialize_block block assistant_turn_index block_index
    rest ← serialize_blocks blocks assistant_turn_index (suc block_index)
    ok (items ++ rest)

  unfoldable pub serialize_assistant_turn : AssistantTurn → ℕ → Result String (List InputItem)
  serialize_assistant_turn turn assistant_turn_index =
      serialize_blocks turn.blocks assistant_turn_index 0

  -- `case AssistantTurn(status="completed")`; other turns are not replayed.
  unfoldable pub if_completed :
      TurnStatus → Result String (List InputItem) → ℕ → Result String (List InputItem × ℕ)
  if_completed TurnStatus.completed serialized index = serialized >>= λ items. ok (items, suc index)
  if_completed TurnStatus.aborted serialized index = ok ([], index)
  if_completed TurnStatus.error serialized index = ok ([], index)

  -- The items of one history item, and the next index of an assistant turn.
  unfoldable pub serialize_item : ConversationItem → ℕ → Result String (List InputItem × ℕ)
  serialize_item (user message) index = ok (serialize_user_message message ∷ [], index)
  serialize_item (tool_result turn) index = ok (serialize_tool_result_turn turn ∷ [], index)
  serialize_item (assistant turn) index =
      if_completed turn.status (serialize_assistant_turn turn index) index

  -- The loop of `serialize_history_items` from an assistant turn index.
  unfoldable pub serialize_items : List ConversationItem → ℕ → Result String (List InputItem)
  serialize_items [] index = ok []
  serialize_items (item ∷ history) index = do
    items ← serialize_item item index
    rest ← serialize_items history (items.1)
    ok (items.0 ++ rest)

  unfoldable pub serialize_history_items : List ConversationItem → Result String (List InputItem)
  serialize_history_items history = serialize_items history 0
