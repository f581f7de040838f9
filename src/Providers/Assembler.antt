-- ===== src/Providers/Assembler.antt =====
-- tile/providers/openai/stream_assembler.py, with the events of
-- tile/providers/openai/normalized_events.py. The active block of the assembler is one of its blocks, the
-- same object, so `active` is its position: a write to it is a write to the block.
pub mod Progress
pub mod Blocks
pub mod Terminal
use tile.Prelude.{
  ℕ, String, Bool, true, false, Option, none, some, List, [], ◌∷◌, ◌++◌, length, get_elem?, set,
  str_eq, if◌then◌else◌,
}
use Prim.Native.String.{◌++◌ as text_append}
use tile.Types.Json.{JsonObject}
use tile.Types.StreamEvents.{
  StopReason, ProviderSource, from_values, TextBlock, ReasoningBlock, ToolCallBlock, AssistantBlock,
  text_block, reasoning_block, tool_call_block, StreamUpdateEvent, reasoning_start, reasoning_end,
  text_start, text_delta, text_end, tool_call_start, tool_call_delta, tool_call_end,
  ProviderStreamEvent, stream_start, update, stream_done, stream_error,
}

pub data NormalizedEvent : Type 0 where
  created : String → NormalizedEvent
  reasoning_added : String → NormalizedEvent
  reasoning_delta : String → NormalizedEvent
  reasoning_done : String → String → Option String → NormalizedEvent
  message_added : String → Option String → NormalizedEvent
  message_text_delta : String → NormalizedEvent
  message_done : String → String → Option String → NormalizedEvent
  tool_call_added : Option String → String → String → JsonObject → NormalizedEvent
  tool_call_arguments_delta : String → NormalizedEvent
  tool_call_arguments_done : JsonObject → NormalizedEvent
  tool_call_done : Option String → String → String → JsonObject → NormalizedEvent
  completed : StopReason → NormalizedEvent
  incomplete : StopReason → Option String → NormalizedEvent
  failed : String → NormalizedEvent

-- `TERMINAL_NORMALIZED_EVENT_TYPES`
abbrev pub is_terminal : NormalizedEvent → Bool
is_terminal (completed r) = true
is_terminal (incomplete r m) = true
is_terminal (failed m) = true
is_terminal _ = false

pub record StreamAssemblyState : Type 0 where
  pub source : ProviderSource
  pub response_id : Option String
  pub blocks : List AssistantBlock
  pub active : Option ℕ

abbrev pub fresh : ProviderSource → StreamAssemblyState
fresh source = record { source = source; response_id = none; blocks = []; active = none }

abbrev pub with_index : ℕ → Option AssistantBlock → Option (AssistantBlock × ℕ)
with_index i none = none
with_index i (some block) = some (block, i)

-- The active block and its index.
abbrev pub active_block : StreamAssemblyState → Option (AssistantBlock × ℕ)
active_block s = elim s.active [ none ↦ none | some i ↦ with_index i (get_elem? s.blocks i) ]

abbrev pub Reply : Type 0
Reply = Option ProviderStreamEvent × StreamAssemblyState

-- `_append_active_block`
abbrev pub append_active_block : StreamAssemblyState → AssistantBlock → StreamAssemblyState
append_active_block s block = record s {
  blocks = s.blocks ++ block ∷ [];
  active = some (length s.blocks);
}

-- A write to the block at a position.
abbrev pub write_block : StreamAssemblyState → ℕ → AssistantBlock → StreamAssemblyState
write_block s i block = record s { blocks = set s.blocks i block }

-- `_clear_active_block`
abbrev pub clear_active_block : StreamAssemblyState → StreamAssemblyState
clear_active_block s = record s { active = none }

abbrev pub append_reasoning_delta :
    StreamAssemblyState → String → Option (AssistantBlock × ℕ) → Reply
append_reasoning_delta s delta (some (reasoning_block b, i)) = (
  some (update (StreamUpdateEvent.reasoning_delta i delta)),
  write_block s i (reasoning_block (record b { summary_text = text_append b.summary_text delta })),
)
append_reasoning_delta s delta _ = (none, s)

abbrev pub or_kept : String → String → String
or_kept new old = if str_eq new "" then old else new

abbrev pub finalize_reasoning_block :
    StreamAssemblyState → String → Option String → Option (AssistantBlock × ℕ) → Reply
finalize_reasoning_block s summary signature (some (reasoning_block b, i)) =
    let block : ReasoningBlock = record {
      provider_metadata = from_values (("reasoning_signature", signature) ∷ []);
      summary_text = or_kept summary b.summary_text;
    } in
    (
      some (update (reasoning_end i block)),
      clear_active_block (write_block s i (reasoning_block block)),
    )
finalize_reasoning_block s summary signature _ = (none, s)

abbrev pub append_text_delta : StreamAssemblyState → String → Option (AssistantBlock × ℕ) → Reply
append_text_delta s delta (some (text_block b, i)) = (
  some (update (text_delta i delta)),
  write_block s i (text_block (record b { text = text_append b.text delta })),
)
append_text_delta s delta _ = (none, s)

abbrev pub finalize_text_block :
    StreamAssemblyState → String → String → Option String → Option (AssistantBlock × ℕ) → Reply
finalize_text_block s item_id text phase (some (text_block b, i)) =
    let block : TextBlock = record {
      provider_metadata = from_values (("message_id", some item_id) ∷ ("phase", phase) ∷ []);
      text = text;
    } in
    (some (update (text_end i block)), clear_active_block (write_block s i (text_block block)))
finalize_text_block s item_id text phase _ = (none, s)

abbrev pub append_tool_call_arguments_delta :
    StreamAssemblyState → String → Option (AssistantBlock × ℕ) → Reply
append_tool_call_arguments_delta s delta (some (tool_call_block b, i)) =
    (some (update (tool_call_delta i delta)), s)
append_tool_call_arguments_delta s delta _ = (none, s)

abbrev pub replace_tool_call_arguments :
    StreamAssemblyState → JsonObject → Option (AssistantBlock × ℕ) → Reply
replace_tool_call_arguments s arguments (some (tool_call_block b, i)) =
    (none, write_block s i (tool_call_block (record b { arguments = arguments })))
replace_tool_call_arguments s arguments _ = (none, s)

abbrev pub finalize_tool_call_block :
    StreamAssemblyState
    → Option String
    → String
    → String
    → JsonObject
    → Option (AssistantBlock × ℕ)
    → Reply
finalize_tool_call_block s item_id call_id name arguments (some (tool_call_block b, i)) =
    let block : ToolCallBlock = record {
      provider_metadata = from_values (("provider_item_id", item_id) ∷ []);
      call_id = call_id;
      name = name;
      arguments = arguments;
    } in
    (
      some (update (tool_call_end i block)),
      clear_active_block (write_block s i (tool_call_block block)),
    )
finalize_tool_call_block s item_id call_id name arguments _ = (none, s)

abbrev pub build_stream_done_event : StreamAssemblyState → StopReason → ProviderStreamEvent
build_stream_done_event s stop_reason = stream_done (record {
  source = s.source;
  response_id = s.response_id;
  stop_reason = stop_reason;
  blocks = s.blocks;
})

abbrev pub build_stream_error_event : StreamAssemblyState → String → ProviderStreamEvent
build_stream_error_event s error_message = stream_error (record {
  source = s.source;
  response_id = s.response_id;
  stop_reason = StopReason.error;
  error_message = error_message;
  blocks = s.blocks;
})

abbrev pub incomplete_message : Option String → String
incomplete_message none = "OpenAI response incomplete."
incomplete_message (some m) = or_kept m "OpenAI response incomplete."

abbrev pub build_incomplete_event :
    StreamAssemblyState → StopReason → Option String → ProviderStreamEvent
build_incomplete_event s StopReason.error message =
    build_stream_error_event s (incomplete_message message)
build_incomplete_event s stop_reason message = build_stream_done_event s stop_reason

-- `_yield_stream_event`
unfoldable pub yield_stream_event : StreamAssemblyState → NormalizedEvent → Reply
yield_stream_event s (created response_id) =
    (some (stream_start s.source response_id), record s { response_id = some response_id })
yield_stream_event s (reasoning_added item_id) = (
  some (update (reasoning_start (length s.blocks))),
  append_active_block s (reasoning_block (record { provider_metadata = none; summary_text = "" })),
)
yield_stream_event s (NormalizedEvent.reasoning_delta delta) =
    append_reasoning_delta s delta (active_block s)
yield_stream_event s (reasoning_done item_id summary signature) =
    finalize_reasoning_block s summary signature (active_block s)
yield_stream_event s (message_added item_id phase) = (
  some (update (text_start (length s.blocks))),
  append_active_block s (text_block (record { provider_metadata = none; text = "" })),
)
yield_stream_event s (message_text_delta delta) = append_text_delta s delta (active_block s)
yield_stream_event s (message_done item_id text phase) =
    finalize_text_block s item_id text phase (active_block s)
yield_stream_event s (tool_call_added item_id call_id name arguments) = (
  some (update (tool_call_start (length s.blocks) call_id name)),
  append_active_block s (
      tool_call_block (record {
        provider_metadata = none;
        call_id = call_id;
        name = name;
        arguments = arguments;
      })),
)
yield_stream_event s (tool_call_arguments_delta delta) =
    append_tool_call_arguments_delta s delta (active_block s)
yield_stream_event s (tool_call_arguments_done arguments) =
    replace_tool_call_arguments s arguments (active_block s)
yield_stream_event s (tool_call_done item_id call_id name arguments) =
    finalize_tool_call_block s item_id call_id name arguments (active_block s)
yield_stream_event s (completed stop_reason) = (some (build_stream_done_event s stop_reason), s)
yield_stream_event s (incomplete stop_reason message) =
    (some (build_incomplete_event s stop_reason message), s)
yield_stream_event s (failed message) = (some (build_stream_error_event s message), s)

abbrev pub emitted : Option ProviderStreamEvent → List ProviderStreamEvent
emitted none = []
emitted (some event) = event ∷ []

-- The loop of `assemble_stream`, on the events of the normalized stream.
unfoldable pub assemble : StreamAssemblyState → List NormalizedEvent → List ProviderStreamEvent
unfolding yield_stream_event
assemble s [] = []
assemble s (event ∷ events) =
    let (reply, s') = yield_stream_event s event in
    let rest = assemble s' events in emitted reply ++ (if is_terminal event then [] else rest)
