-- ===== src/Runtime/History.antt =====
-- tile/runtime/history.py: the working history of a run, the delta that it commits, and the healing
-- of interrupted tool calls. Items are immutable values, so a deep copy is the item itself.
pub mod Healing
pub mod Projection
use tile.Prelude.{
  String, Bool, true, not, Option, none, some, List, [], ◌∷◌, ◌++◌, map, str_eq, filter, any,
}
use tile.Types.StreamEvents.{
  AssistantBlock, ToolCallBlock, text_block, reasoning_block, tool_call_block,
}
use tile.Types.Tools.{text_content}
use tile.Types.Conversation.{
  TurnStatus, ConversationItem, AssistantTurn, ToolResultTurn, user, assistant, tool_result,
}
use tile.Events.{AgentEvent, result_follow_up_event, message_end, tool_execution_end}

pub record RunHistory : Type 0 where
  pub working : List ConversationItem
  pub delta : List ConversationItem

-- `committed` holds the items of the committed envelopes.
unfoldable pub start : List ConversationItem → String → RunHistory
start committed prompt =
    let delta = user (record { content = prompt }) ∷ [] in
    record { working = committed ++ delta; delta = delta }

abbrev completed_turn : TurnStatus → AssistantTurn → Option ConversationItem
completed_turn TurnStatus.completed turn = some (assistant turn)
completed_turn _ turn = none

unfoldable pub conversation_item_for : AgentEvent → Option ConversationItem
conversation_item_for (message_end turn) = completed_turn turn.status turn
conversation_item_for (tool_execution_end outcome) = some (tool_result outcome.tool_result_turn)
conversation_item_for (result_follow_up_event message) = some (user message)
conversation_item_for _ = none

abbrev append_item : Option ConversationItem → RunHistory → RunHistory
append_item none h = h
append_item (some item) h = record {
  working = h.working ++ item ∷ [];
  delta = h.delta ++ item ∷ [];
}

unfoldable pub observe : RunHistory → AgentEvent → RunHistory
unfolding conversation_item_for
observe h event = append_item (conversation_item_for event) h

-- The tool calls among the blocks, in order (also `_collect_tool_calls` of tile/agent.py).
unfoldable pub tool_calls_of : List AssistantBlock → List ToolCallBlock
tool_calls_of [] = []
tool_calls_of (text_block b ∷ bs) = tool_calls_of bs
tool_calls_of (reasoning_block b ∷ bs) = tool_calls_of bs
tool_calls_of (tool_call_block b ∷ bs) = b ∷ tool_calls_of bs

-- The set `answered`, as a list of call ids.
unfoldable pub answered : List ConversationItem → List String
answered [] = []
answered (user m ∷ items) = answered items
answered (assistant t ∷ items) = answered items
answered (tool_result t ∷ items) = t.call_id ∷ answered items

unfoldable pub requested : List ConversationItem → List ToolCallBlock
unfolding tool_calls_of
requested [] = []
requested (user m ∷ items) = requested items
requested (assistant t ∷ items) = tool_calls_of t.blocks ++ requested items
requested (tool_result t ∷ items) = requested items

abbrev pub mem_id : String → List String → Bool
mem_id id ids = any (str_eq id) ids

unfoldable pub unanswered_tool_calls : List ConversationItem → List ToolCallBlock
unfolding answered requested
unanswered_tool_calls items =
    filter (λ call. not (mem_id call.call_id (answered items))) (requested items)

unfoldable pub interrupted : ToolCallBlock → ConversationItem
interrupted call = tool_result (record {
  call_id = call.call_id;
  tool_name = call.name;
  content = text_content "Tool execution did not complete." ∷ [];
  is_error = true;
})

unfoldable pub heal : RunHistory → RunHistory
unfolding unanswered_tool_calls interrupted
heal h =
    let results = map interrupted (unanswered_tool_calls h.delta) in
    record { working = h.working ++ results; delta = h.delta ++ results }
