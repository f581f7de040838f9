-- ===== src/Runtime/RunExecution.antt =====
-- tile/runtime/run_execution.py: the live execution of an accepted run and its durable end, through the
-- private methods of `Session` in tile/sessions.py. Other clients of the Store may act between the
-- start of a run and its end: both work on the database that they find.
pub mod Logs
pub mod Subscription
pub mod Durable
pub mod Committed
pub mod Whole
use tile.Prelude.{ℕ, String, Bool, true, false, Option, none, some, [], map, Result, ok, err}
use tile.Outcome.{
  Raised, RunOutcome, aborted, failed, execution_failure, ExecutionFailureOrigin, turn_failed,
  cancelled, StoreError, run_already_ended, no_terminal_record, RunResult, outcome, faulted,
  store_error,
}
use tile.Events.{AgentEvent, run_start, run_end, run_fault}
use tile.Store.Models.{TerminalRun, RunRecord, active, terminal, StartedRun}
use tile.Store.Tables.{Database}
use tile.Store.Sqlite.{start_run, finish_run, get_run}
use tile.Runtime.Environment.{Environment}
use tile.Runtime.Monad.{RunState, Stop, raised, exhausted, emit}
use tile.Runtime.History.{RunHistory, start, heal}
use tile.Runtime.ToolExecutor.{exception_type, exception_message}
use tile.Runtime.Execution.{Dependencies, ResultType, execute_prompt}

-- `_ended_outcome`
abbrev pub outcome_of_record :
    String → Result StoreError RunRecord × Database → Result StoreError RunOutcome × Database
outcome_of_record run_id (ok (terminal run), db) = (ok run.outcome, db)
outcome_of_record run_id (ok (active run), db) = (err (no_terminal_record run_id), db)
outcome_of_record run_id (err e, db) = (err e, db)

unfoldable pub ended_outcome : String → String → Database → Result StoreError RunOutcome × Database
ended_outcome session_id run_id db = outcome_of_record run_id (get_run session_id run_id db)

-- The `try` of `_finish`.
abbrev pub finished :
    String
    → String
    → Result StoreError TerminalRun × Database
    → Result StoreError RunOutcome × Database
finished session_id run_id (ok run, db) = (ok run.outcome, db)
finished session_id run_id (err (run_already_ended id), db) = ended_outcome session_id run_id db
finished session_id run_id (err e, db) = (err e, db)

module _ {W : Type 0} (env : Environment W) where
  -- A run as it stands after `RunExecution.start`.
  abbrev pub begin_run :
      W → Result StoreError StartedRun × Database → Result StoreError (RunState W) × Database
  begin_run w (ok started, db) = (
    ok (
        (emit run_start (record {
          events = [];
          history = start (map (λ row. row.item) started.committed_history) started.run.prompt;
          world = w;
        })).1),
    db,
  )
  begin_run w (err e, db) = (err e, db)

  unfoldable pub start_execution :
      ℕ
      → String
      → String
      → String
      → String
      → String
      → W
      → Database
      → Result StoreError (RunState W) × Database
  start_execution now session_id run_id prompt model provider w db =
      begin_run w (start_run now session_id run_id prompt model provider db)

  -- `_execution_failure`
  abbrev pub failure_origin : Raised → ExecutionFailureOrigin
  failure_origin (turn_failed turn) = ExecutionFailureOrigin.turn
  failure_origin _ = ExecutionFailureOrigin.execution

  -- `_terminal_outcome`
  unfoldable pub terminal_outcome : Result Raised RunOutcome → RunOutcome
  unfolding exception_type exception_message
  terminal_outcome (err cancelled) = aborted
  terminal_outcome (err e) =
      failed (execution_failure (failure_origin e) (exception_type env e) (exception_message env e))
  terminal_outcome (ok o) = o

  unfoldable pub finish :
      ℕ
      → (ℕ → String)
      → String
      → String
      → Result Raised RunOutcome
      → RunHistory
      → Database
      → Result StoreError RunOutcome × Database
  unfolding terminal_outcome ended_outcome
  finish now uuid session_id run_id task history db =
      finished session_id run_id
        (finish_run now uuid session_id run_id (terminal_outcome task) history.delta db)

  abbrev pub run_result : Result StoreError RunOutcome → RunResult
  run_result (ok o) = outcome o
  run_result (err e) = faulted (store_error e)

  unfoldable pub terminal_event : RunResult → AgentEvent
  terminal_event (outcome o) = run_end o
  terminal_event (faulted e) = run_fault (exception_type env e) (exception_message env e)

  -- `_finalize`: the result, the events and the history of the run, and the database.
  unfoldable pub finalize :
      ℕ
      → (ℕ → String)
      → String
      → String
      → Result Raised RunOutcome
      → RunState W
      → Database
      → RunResult × (RunState W) × Database
  unfolding finish terminal_event
  finalize now uuid session_id run_id task s db =
      let healed = heal s.history in
      let (r, db') = finish now uuid session_id run_id task healed db in
      let result = run_result r in
      (result, (emit (terminal_event result) (record s { history = healed })).1, db')

  -- The task of a run. Cancelled before its first step, it does nothing; `none` is a run of the model
  -- that used up its fuel.
  abbrev pub task_result :
      Result Stop RunOutcome × RunState W → Option (Result Raised RunOutcome × RunState W)
  task_result (ok o, s) = some (ok o, s)
  task_result (err (raised e), s) = some (err e, s)
  task_result (err exhausted, s) = none

  unfoldable pub run_task :
      ℕ
      → Dependencies W
      → Option ResultType
      → Bool
      → RunState W
      → Option (Result Raised RunOutcome × RunState W)
  run_task fuel deps result true s = some (err cancelled, s)
  run_task fuel deps result false s = task_result (execute_prompt env fuel deps result s)
