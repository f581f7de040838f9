-- ===== src/Examples/Requests.antt =====
-- Small requests, SDK responses, rows and outputs.
use tile.Prelude.{
  ℕ, String, ◌≡◌, refl, sym, subst, true, none, some, List, [], ◌∷◌, arith, ◌==◌, if◌then◌else◌,
  decimal, All, ok, err, str_eq, join,
}
use tile.Types.Json.{end}
use tile.Types.StreamEvents.{StopReason, ProviderSource, tool_call_block}
use tile.Types.Tools.{text_content}
use tile.Types.Conversation.{
  TurnStatus, AssistantTurn, ConversationItem, user, assistant, tool_result,
}
use tile.Events.{message_end}
use tile.Outcome.{aborted}
use tile.Runtime.History.{RunHistory, heal, mem_id}
use tile.Runtime.History as History
use tile.Runtime.History.Projection.{observe_all}
use tile.Store.Tables.{empty}
use tile.Store.Operations.{Operation, perform_all, create, start, finish}
use tile.Providers.Assembler.{fresh, assemble}
use tile.Providers.Assembler.Terminal.{EndsOnce}
use tile.Providers.Serialization
use tile.Providers.Serialization.{InputItem, serialize_history_items}
use tile.Providers.Serialization.Answered.{call_ids, output_ids}
use tile.Providers.Serialization.Committed.{committed_items, serialize_history_items-heal}
use tile.Providers.Adapter.{
  Json, SdkEvent, response_created, response_completed, output_text_delta, normalize_sdk_events,
}
use tile.Providers.Adapter.Ends.{normalize_sdk_events-EndsOnce}
use tile.Store.Models.{TerminalRun, terminal}
use tile.Store.Consistency.{RunTimes}
use tile.Store.Serialization.{Codec as RowCodec, run_from_row, value_error}
use tile.Store.Serialization.RoundTrip.{
  row_of, status_of, ReadsRun, run_from_row-row_of, run_from_row-status_of,
}
use tile.Tools.Text.{codes}
use tile.Tools.OutputAccumulator.{Decoding, new_accumulator}
use tile.Tools.OutputAccumulator.Accumulated.{Accepts, decoded_text, accumulate_all-Accepts}

-- A turn that asks for a tool with the call id.
abbrev asking : String → AssistantTurn
asking call_id = record {
  source = none;
  blocks =
      tool_call_block
        (record { provider_metadata = none; call_id = call_id; name = "ls"; arguments = end })
      ∷ [];
  response_id = none;
  stop_reason = StopReason.tool_use;
  status = TurnStatus.completed;
  error_message = none;
}

-- A run that was cut off before its tool has answered.
abbrev cut_off : RunHistory
cut_off = observe_all (History.start [] "hi") (message_end (asking "c1") ∷ [])

abbrev cut_off_delta : List ConversationItem
cut_off_delta =
    user (record { content = "hi" })
    ∷ assistant (asking "c1")
    ∷ tool_result (record {
      call_id = "c1";
      tool_name = "ls";
      content = text_content "Tool execution did not complete." ∷ [];
      is_error = true;
    })
    ∷ []

healed_delta : cut_off_delta ≡ (heal cut_off).delta
unfolding heal History.observe History.start
healed_delta = refl

abbrev row_ids : ℕ → String
row_ids k = if k == 0 then "a" else if k == 1 then "b" else "c"

-- A session with the cut off run, which was aborted.
abbrev earlier : List Operation
earlier =
    create 1 "s"
    ∷ start 2 "s" "r" "hi" "m" "p"
    ∷ finish 3 row_ids "s" "r" aborted cut_off_delta
    ∷ []

abbrev plain_json : Serialization.Codec
plain_json = record { dumps = λ fields. "{}"; replay = λ signature. ok end }

abbrev request : List InputItem
request =
    Serialization.user_message (Serialization.input_text "hi" ∷ [])
    ∷ Serialization.function_call "c1" "c1" "ls" "{}"
    ∷ Serialization.function_call_output "c1"
        (Serialization.plain "Tool execution did not complete.")
    ∷ Serialization.user_message (Serialization.input_text "again" ∷ [])
    ∷ Serialization.function_call "c2" "c2" "ls" "{}"
    ∷ Serialization.function_call_output "c2"
        (Serialization.plain "Tool execution did not complete.")
    ∷ []

committed : committed_items (perform_all earlier empty) "s" ≡ cut_off_delta
unfolding tile.Store.Tables.select_history perform_all tile.Store.Operations.perform
    tile.Store.Sqlite.finish_run tile.Store.Action.translate_store_errors
    tile.Store.Action.immediate_transaction tile.Store.Rows.get_run_row tile.Store.Tables.select_run
    tile.Store.Sqlite.start_run tile.Store.Rows.require_session tile.Store.Tables.select_session
    tile.Store.Sqlite.create_session tile.Store.Tables.insert_session_row
    tile.Store.Models.new_session_record tile.Store.Rows.active_run_for_session
    tile.Store.Rows.reject_active_run tile.Store.Tables.select_active_run
    tile.Store.Rows.history_for_session tile.Store.Models.new_active_run_record
    tile.Store.Models.terminal_run_record tile.Store.Rows.delta_rows
    tile.Store.Rows.finalize_active_run tile.Store.Rows.get_session_row
    tile.Store.Rows.insert_history_delta tile.Store.Rows.insert_history_rows
    tile.Store.Rows.insert_run tile.Store.Rows.set_updated_at tile.Store.Rows.touch_session
    tile.Store.Sqlite.create_session_block tile.Store.Sqlite.finish_run_block
    tile.Store.Sqlite.start_run_block tile.Store.Tables.insert_by
    tile.Store.Tables.insert_history_row tile.Store.Tables.insert_run_row
    tile.Store.Tables.next_history_position tile.Store.Tables.order_by
    tile.Store.Tables.past_positions tile.Store.Tables.run_exists tile.Store.Tables.session_exists
committed = refl

serialized_healed :
    serialize_history_items plain_json
      (heal (
        observe_all (History.start cut_off_delta "again") (message_end (asking "c2") ∷ []))).working
    ≡ ok request
unfolding serialize_history_items Serialization.serialize_items heal Serialization.serialize_item
    Serialization.if_completed Serialization.serialize_assistant_turn Serialization.serialize_blocks
    Serialization.serialize_block Serialization.serialize_user_message
    Serialization.serialize_assistant_tool_call_block Serialization.serialize_tool_result_turn
    Serialization.text_or Serialization.serialize_tool_result_content
    tile.Types.StreamEvents.metadata_string Serialization.text_only join History.observe
    History.start
serialized_healed = refl

serialized :
    serialize_history_items plain_json
      (heal (
        observe_all
          (History.start (committed_items (perform_all earlier empty) "s") "again")
          (message_end (asking "c2") ∷ []))).working
    ≡ ok request
serialized =
    subst
      (λ c.
        serialize_history_items plain_json
          (heal (observe_all (History.start c "again") (message_end (asking "c2") ∷ []))).working
        ≡ ok request)
      (sym committed) serialized_healed

serialize_history_items-heal_example :
    All (λ id. mem_id id (output_ids request) ≡ true) (call_ids request)
serialize_history_items-heal_example =
    serialize_history_items-heal plain_json earlier "s" "again" (message_end (asking "c2") ∷ [])
      request (tt, (tt, ((cut_off, healed_delta), tt))) serialized

abbrev no_json : Json
no_json = record { loads = λ s. none; strip = λ s. s; dumps = λ fields. "{}" }

abbrev openai : ProviderSource
openai = record { provider = "openai"; model = none }

abbrev sdk_response : List SdkEvent
sdk_response = response_created "r1" ∷ output_text_delta "hi" ∷ response_completed [] ∷ []

normalize_sdk_events-EndsOnce_example :
    EndsOnce (assemble (fresh openai) (normalize_sdk_events no_json sdk_response))
normalize_sdk_events-EndsOnce_example =
    normalize_sdk_events-EndsOnce no_json openai sdk_response refl

abbrev ended_run : TerminalRun
ended_run = record {
  id = "r";
  session_id = "s";
  prompt = "hi";
  started_at = 7;
  ended_at = 9;
  model = "m";
  provider = "p";
  outcome = aborted;
}

-- The two times and the outcome of the run, written and read.
abbrev row_codec : RowCodec
row_codec = record {
  isoformat = λ (n : ℕ). decimal n;
  fromisoformat = λ s. if str_eq s "7" then ok 7 else if str_eq s "9" then ok 9 else ok 0;
  dump_outcome = λ o. "aborted";
  load_outcome = λ s. ok aborted;
  dump_conversation_item = λ item. "";
  load_conversation_item = λ s. ok (user (record { content = "" }));
  repr = λ s. s;
}

in_order : RunTimes (terminal ended_run)
in_order = omega arith

times_read : ReadsRun row_codec (terminal ended_run)
unfolding decimal
times_read = (refl, refl, refl)

run_from_row-row_of_example :
    run_from_row row_codec (row_of row_codec (terminal ended_run)) ≡ ok (terminal ended_run)
run_from_row-row_of_example = run_from_row-row_of row_codec (terminal ended_run) in_order times_read

row_read : run_from_row row_codec (row_of row_codec (terminal ended_run)) ≡ ok (terminal ended_run)
row_read = run_from_row-row_of row_codec (terminal ended_run) in_order times_read

run_from_row-status_of_example :
    (row_of row_codec (terminal ended_run)).status ≡ status_of (terminal ended_run)
run_from_row-status_of_example =
    run_from_row-status_of row_codec (row_of row_codec (terminal ended_run)) (terminal ended_run)
      row_read

-- Bytes of ASCII, decoded one by one.
abbrev ascii : Decoding Unit
ascii = record { fresh = tt; decode_chunk = λ d chunk final. (chunk, tt); decode = λ bytes. bytes }

abbrev output_chunks : List (List ℕ)
output_chunks = codes "one\ntw" ∷ codes "o\nthree" ∷ []

accumulate_all-Accepts_example :
    let a = new_accumulator ascii 5 3 in
    Accepts ascii a output_chunks (decoded_text ascii a.decoder output_chunks)
accumulate_all-Accepts_example = accumulate_all-Accepts ascii 5 3 output_chunks

-- The clock of a row went back.
refused_row :
    run_from_row row_codec (record (row_of row_codec (terminal ended_run)) { ended_at = some "0" })
    ≡ err (value_error "A run cannot end before it starts.")
unfolding run_from_row tile.Store.Serialization.terminal_columns
    tile.Store.Serialization.validate_lifecycle tile.Store.Serialization.run_values
    tile.Store.Serialization.terminal_run_values tile.Store.Serialization.status_text
    tile.Store.Models.terminal_status_for decimal
refused_row = refl
