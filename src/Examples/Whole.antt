-- ===== src/Examples/Whole.antt =====
-- A whole run against a scripted provider, and its end in the Store.
use tile.Runtime.Prompt.{build_system_prompt}
use tile.Prelude.{
  join, ℕ, ◌≡◌, refl, false, List, [], ◌∷◌, ◌++◌, map, none, some, Option, Result, ok, err,
}
use tile.Types.Tools.{text_result}
use tile.Types.Conversation.{from_stream_done}
use tile.Types.ToolExecution.{from_result}
use tile.Outcome.{Raised, RunOutcome, completed, text, cancelled, aborted, outcome}
use tile.Events.{AgentEvent, run_start}
use tile.Store.Models.{new_session_record, ActiveRun, new_active_run_record, TerminalRun, terminal}
use tile.Store.Tables.{
  next_history_position, Database, select_session, insert_session_row, select_history,
  select_active_run, insert_run_row,
}
use tile.Runtime.Monad.{RunState, pure, call, emit, ◌>>=◌}
use tile.Runtime.History.{start, heal, observe}
use tile.Runtime.History.Projection.{observe_all}
use tile.Runtime.ToolExecutor.{execute}
use tile.Runtime.Agent.{run_agent, should_continue}
use tile.Runtime.Monad.Logs.{AllInner}
use tile.Runtime.Execution.{assistant_text, execute_prompt}
use tile.Runtime.RunExecution.{
  start_execution, run_task, finalize, terminal_event, terminal_outcome,
}
use tile.Runtime.RunExecution.Logs.{finalized_log}
use tile.Runtime.RunExecution.Durable.{reported_is_recorded}
use tile.Runtime.RunExecution.Committed.{finalize_commits}
use tile.Runtime.RunExecution.Whole.{run_commits_working}
use tile.Store.Operations.{perform, perform_all}
use tile.Examples.Storage.{idle-IsConsistent, others, ids, busy, idle, running, busy-IsConsistent}
use tile.Store.Action.{translate_store_errors, immediate_transaction}
use tile.Store.Rows.{
  require_session, active_run_for_session, reject_active_run, history_for_session, insert_run,
  get_run_row, finalize_active_run, insert_history_delta, touch_session,
}
use tile.Store.Tables.{insert_history_row, select_session, select_run, select_history}
use tile.Store.Sqlite.{create_session, get_run, finish_run, start_run}
use tile.Store.Models.{ActiveRun, terminal_run_record, active}
use tile.Runtime.History.{unanswered_tool_calls}
use tile.Examples.Script.{scripted, deps, begun}

abbrev left_by : Option (Result Raised RunOutcome × RunState ℕ) → RunState ℕ
left_by none = begun
left_by (some (r, s)) = s

abbrev after : RunState ℕ
after = left_by (run_task scripted 3 deps none false begun)

started :
    start_execution scripted 3 "s" "q" "hi" "m" "p" 2 idle
    ≡ (ok begun, (start_execution scripted 3 "s" "q" "hi" "m" "p" 2 idle).1)
unfolding start_execution start_run translate_store_errors immediate_transaction require_session
    select_session active_run_for_session reject_active_run select_active_run history_for_session
    insert_run insert_run_row new_active_run_record emit start observe select_history
started = refl

ran : run_task scripted 3 deps none false begun ≡ some (ok (completed (text "bye")), after)
unfolding run_task execute_prompt ◌>>=◌ build_system_prompt call pure run_agent emit
    from_stream_done execute should_continue from_result text_result assistant_text join
ran = refl

finalized_log_example :
    (inner : List AgentEvent) × AllInner inner
    × ((finalize scripted 9 ids "s" "q" (ok (completed (text "bye"))) after idle).1.events
        ≡ run_start ∷ inner
          ++ terminal_event scripted
              (finalize scripted 9 ids "s" "q" (ok (completed (text "bye"))) after idle).0
            ∷ [])
    × ((finalize scripted 9 ids "s" "q" (ok (completed (text "bye"))) after idle).1.history
        ≡ heal (observe_all begun.history inner))
finalized_log_example =
    finalized_log scripted 3 9 ids "s" "q" "hi" "m" "p" 2 idle
      (start_execution scripted 3 "s" "q" "hi" "m" "p" 2 idle).1 idle 3 deps none false started ran

selected_busy : select_run busy "s" "r" ≡ some (active running)
unfolding select_run
selected_busy = refl

reported : (finalize scripted 9 ids "s" "r" (err cancelled) begun busy).0 ≡ outcome aborted
unfolding finalize finish_run translate_store_errors immediate_transaction get_run_row select_run
    finalize_active_run terminal_run_record insert_history_delta heal start insert_history_row
    touch_session select_session
reported = refl

reported_is_recorded_example :
    (run : TerminalRun) × (get_run "s" "r"
        (finalize scripted 9 ids "s" "r" (err cancelled) begun busy).2
      ≡ (ok (terminal run), (finalize scripted 9 ids "s" "r" (err cancelled) begun busy).2))
    × (run.outcome ≡ aborted)
reported_is_recorded_example =
    reported_is_recorded scripted 9 ids "s" "r" (err cancelled) begun busy reported

finalize_commits_example :
    (aborted ≡ terminal_outcome scripted (err cancelled))
    × (map
          (λ row. row.item)
          (select_history (finalize scripted 9 ids "s" "r" (err cancelled) begun busy).2 "s")
        ≡ map (λ row. row.item) (select_history busy "s")
          ++ (finalize scripted 9 ids "s" "r" (err cancelled) begun busy).1.history.delta)
    × (unanswered_tool_calls
          (finalize scripted 9 ids "s" "r" (err cancelled) begun busy).1.history.delta
        ≡ [])
finalize_commits_example =
    finalize_commits scripted 9 ids "s" "r" (err cancelled) begun busy running busy-IsConsistent
      selected_busy reported

abbrev accepted_in : Database
accepted_in = (start_execution scripted 3 "s" "q" "hi" "m" "p" 2 idle).1

abbrev accepted_run : ActiveRun
accepted_run = record {
  id = "q";
  session_id = "s";
  prompt = "hi";
  started_at = 3;
  model = "m";
  provider = "p";
}

still_active : select_run (perform_all others accepted_in) "s" "q" ≡ some (active accepted_run)
unfolding start_execution select_run perform_all perform create_session start_run
    translate_store_errors immediate_transaction require_session select_session insert_session_row
    new_session_record active_run_for_session reject_active_run select_active_run
    history_for_session insert_run insert_run_row new_active_run_record select_history
still_active = refl

whole_reported :
    (finalize scripted 9 ids "s" "q"
      (ok (completed (text "bye")))
      after
      (perform_all others accepted_in)).0
    ≡ outcome (completed (text "bye"))
unfolding finalize finish_run get_run_row select_run finalize_active_run terminal_run_record
    insert_history_delta heal insert_history_row touch_session start_execution perform_all perform
    create_session start_run translate_store_errors immediate_transaction require_session
    select_session insert_session_row new_session_record active_run_for_session reject_active_run
    select_active_run history_for_session insert_run insert_run_row new_active_run_record
    select_history run_task execute_prompt ◌>>=◌ build_system_prompt call pure run_agent emit
    from_stream_done execute should_continue from_result text_result observe start
    next_history_position
whole_reported = refl

run_commits_working_example :
    map
      (λ row. row.item)
      (select_history
        (finalize scripted 9 ids "s" "q"
          (ok (completed (text "bye")))
          after
          (perform_all others accepted_in)).2
        "s")
    ≡ (finalize scripted 9 ids "s" "q"
        (ok (completed (text "bye")))
        after
        (perform_all others accepted_in)).1.history.working
run_commits_working_example =
    run_commits_working scripted 3 9 ids "s" "q" "hi" "m" "p" 2 idle accepted_in others 3 deps none
      false accepted_run idle-IsConsistent started ran still_active whole_reported
