-- ===== src/Examples/Programs.antt =====
-- Plain and typed prompt programs against a scripted provider.
use tile.Runtime.Prompt.{build_system_prompt}
use native.Mathlib.Nat.{le_refl}
use tile.Runtime.Execution.Ends.{execute_prompt-ends}
use tile.Runtime.Execution.Outcomes.{concludes_typed, execute_typed-concludes_typed}
use tile.Prelude.{ℕ, arith, ◌≡◌, ◌≢◌, refl, true, [], ◌∷◌, none, ok, err}
use tile.Types.Json.{get, field, string, end}
use tile.Types.Tools.{text_result}
use tile.Types.StreamEvents.{StopReason, StreamDone, stream_start, stream_done, tool_call_block}
use tile.Types.Conversation.{from_stream_done}
use tile.Types.ToolExecution.{from_result}
use tile.Outcome.{failed, agent_failure}
use tile.Runtime.Environment.{Environment}
use tile.Runtime.Monad.{exhausted, pure, call, emit, ◌>>=◌}
use tile.Runtime.ToolExecutor.{execute, new_executor}
use tile.Runtime.Agent.{run_agent, should_continue}
use tile.Runtime.Monad.Logs.{Grows}
use tile.Runtime.Execution.{complete_tool, fail_tool, result_outcome, execute_typed, execute_prompt}
use tile.Runtime.Execution.Logs.{execute_prompt-Grows}
use tile.Examples.Script.{source, scripted, deps, begun, answer-spends, asks_left}

execute_prompt-Grows_example : Grows (execute_prompt scripted 3 deps none)
execute_prompt-Grows_example = execute_prompt-Grows scripted 3 deps none

execute_prompt-ends_example : (execute_prompt scripted 2 deps none begun).0 ≢ err exhausted
execute_prompt-ends_example =
    execute_prompt-ends scripted asks_left (λ filename w. le_refl (asks_left w))
      (λ items instructions tools w. answer-spends items w) 2 deps none begun
      ((λ arguments w. omega arith), tt) (omega arith)

abbrev giving_up : StreamDone
giving_up = record {
  source = source;
  response_id = none;
  stop_reason = StopReason.tool_use;
  blocks =
      tool_call_block (record {
        provider_metadata = none;
        call_id = "c9";
        name = "fail";
        arguments = field "reason" (string "no") end;
      })
      ∷ [];
}

abbrev resigned : Environment ℕ
resigned = record scripted {
  stream = λ items instructions tools w. (
    ok (record { events = stream_start source "r" ∷ stream_done giving_up ∷ []; ending = none }),
    w,
  );
}

typed_ran : execute_typed resigned 2 deps (λ arguments. ok arguments) begun ≡ (
  ok (failed (agent_failure "no")),
  (execute_typed resigned 2 deps (λ arguments. ok arguments) begun).1,
)
unfolding execute_typed ◌>>=◌ call new_executor complete_tool fail_tool pure build_system_prompt
    run_agent emit from_stream_done execute should_continue from_result text_result result_outcome
    get
typed_ran = refl

execute_typed-concludes_typed_example : concludes_typed (failed (agent_failure "no")) ≡ true
execute_typed-concludes_typed_example =
    execute_typed-concludes_typed resigned 2 deps (λ arguments. ok arguments) begun typed_ran
