-- ===== src/Examples/Loop.antt =====
-- The tool executor, the agent loop and the history against a scripted provider.
use tile.Providers.Assembler.{NormalizedEvent, created, completed, assemble, fresh}
use tile.Runtime.Agent.Streams.{ends_turn, consume-assemble}
use tile.Prelude.{
  List, true, arith, ◌≡◌, ◌≢◌, refl, false, true, ◌⊎◌, [], ◌∷◌, map, none, some, ok, err, All,
}
use tile.Types.Json.{end}
use tile.Types.Tools.{text_content, text_result}
use tile.Types.StreamEvents.{StopReason, tool_call_block}
use tile.Types.Conversation.{TurnStatus, assistant, from_stream_done}
use tile.Types.ToolExecution.{from_result, ToolExecutionOutcome}
use tile.Outcome.{cancelled}
use tile.Runtime.Monad.{exhausted, raised, pure, call, emit, ◌>>=◌}
use tile.Runtime.History.{RunHistory, heal, requested, answered, mem_id}
use tile.Runtime.History.Projection.{extended}
use tile.Runtime.History.Healing.{heal-answered}
use tile.Runtime.ToolExecutor.{call_tool, execute, new_executor, check_tools, get_tool}
use tile.Runtime.ToolExecutor.Outcomes.{Answers, execute-Answers}
use tile.Runtime.ToolExecutor.Names.{get_tool-registered}
use tile.Runtime.Agent.{
  consume, TurnResult, run_agent_loop, handle_stream_done_event, conversation_items,
}
use tile.Runtime.Agent.Histories.{loop_on_working, run_agent_loop-working}
use tile.Runtime.Agent.Turns.{handle_stream_done_event-ok}
use tile.Runtime.Agent.Ends.{run_agent_loop-ends}
use tile.Runtime.History.{tool_calls_of}
use tile.Examples.Script.{source, lookup, asking, scripted, echo, begun, answer-spends, asks_left}

execute-Answers_example :
    (((call_tool scripted (echo ∷ []) "echo" end 2).0 ≡ err cancelled)
      × ((execute scripted (echo ∷ []) "c1" "echo" end begun).0 ≡ err (raised cancelled)))
    ⊎ ((o : ToolExecutionOutcome) × ((execute scripted (echo ∷ []) "c1" "echo" end begun).0 ≡ ok o)
        × Answers "c1" "echo" (call_tool scripted (echo ∷ []) "echo" end 2).0 o)
execute-Answers_example = execute-Answers scripted (echo ∷ []) "c1" "echo" end begun

accepted : new_executor scripted (echo ∷ []) ≡ ok (echo ∷ [])
unfolding new_executor check_tools
accepted = refl

get_tool-registered_example : get_tool scripted (echo ∷ []) "echo" ≡ some echo
get_tool-registered_example =
    get_tool-registered scripted (echo ∷ []) 0 echo "echo" accepted refl refl

run_agent_loop-working_example :
    run_agent_loop scripted (echo ∷ []) "Help." 3 begun.history.working [] begun
    ≡ loop_on_working scripted (echo ∷ []) "Help." 3 [] begun
run_agent_loop-working_example = run_agent_loop-working scripted (echo ∷ []) "Help." 3 [] begun

abbrev asked : TurnResult
asked = record {
  assistant_turn = record {
    source = some source;
    blocks = tool_call_block lookup ∷ [];
    response_id = none;
    stop_reason = StopReason.tool_use;
    status = TurnStatus.completed;
    error_message = none;
  };
  tool_executions =
      record {
        tool_result_turn = record {
          call_id = "c1";
          tool_name = "echo";
          content = text_content "done" ∷ [];
          is_error = false;
        };
        details = none;
        terminate = false;
      }
      ∷ [];
}

asked_done :
    handle_stream_done_event scripted (echo ∷ []) asking begun
    ≡ (ok asked, (handle_stream_done_event scripted (echo ∷ []) asking begun).1)
unfolding handle_stream_done_event ◌>>=◌ emit from_stream_done execute call pure from_result
    text_result
asked_done = refl

handle_stream_done_event-ok_example :
    ((handle_stream_done_event scripted (echo ∷ []) asking begun).1.history
      ≡ extended begun.history (conversation_items asked))
    × (asked.assistant_turn ≡ from_stream_done asking)
    × (map (λ o. o.tool_result_turn.call_id) asked.tool_executions
        ≡ map (λ c. c.call_id) (tool_calls_of asking.blocks))
handle_stream_done_event-ok_example =
    handle_stream_done_event-ok scripted (echo ∷ []) asking begun asked_done

run_agent_loop-ends_example :
    (run_agent_loop scripted (echo ∷ []) "Help." 2 begun.history.working [] begun).0 ≢ err exhausted
run_agent_loop-ends_example =
    run_agent_loop-ends scripted asks_left (echo ∷ []) ((λ arguments w. omega arith), tt) "Help."
      answer-spends 2 begun.history.working [] begun (omega arith)

abbrev interrupted_history : RunHistory
interrupted_history = record {
  working = assistant (from_stream_done asking) ∷ [];
  delta = assistant (from_stream_done asking) ∷ [];
}

heal-answered_example :
    All
      (λ call. mem_id call.call_id (answered (heal interrupted_history).delta) ≡ true)
      (requested (heal interrupted_history).delta)
heal-answered_example = heal-answered interrupted_history

abbrev short_response : List NormalizedEvent
short_response = created "r1" ∷ completed StopReason.stop ∷ []

consume-assemble_example :
    ends_turn (consume scripted (echo ∷ []) (assemble (fresh source) short_response) none begun).0
    ≡ true
consume-assemble_example =
    consume-assemble scripted (echo ∷ []) source short_response none begun refl
