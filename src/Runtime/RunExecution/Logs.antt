-- ===== src/Runtime/RunExecution/Logs.antt =====
-- The log of a finalized run: its start, inner events, and the one event that ends it.
use mathlib.Core.Path.{subst}
use tile.Prelude.{
  value_or, ℕ, String, Bool, true, false, ◌≡◌, refl, sym, ◌∙◌, ap, Option, none, some, List, [],
  ◌∷◌, ◌++◌, map, Result, ok, err,
}
use tile.Outcome.{StoreError, Raised, RunOutcome, RunResult, outcome, faulted}
use tile.Events.{AgentEvent, run_start}
use tile.Store.Models.{StartedRun}
use tile.Store.Tables.{Database}
use tile.Runtime.Environment.{Environment}
use tile.Runtime.Monad.{RunState, Stop, raised, exhausted, emit}
use tile.Runtime.Monad.Logs.{Grown, AllInner, same-Grown}
use tile.Runtime.History.{conversation_item_for, RunHistory, start, observe, heal}
use tile.Runtime.History.Projection.{observe_all}
use tile.Runtime.Execution.{Dependencies, ResultType, execute_prompt}
use tile.Runtime.Execution.Logs.{execute_prompt-Grows}
use tile.Runtime.RunExecution.{
  start_execution, begin_run, run_task, task_result, finalize, terminal_event,
}

module _ {W : Type 0} (env : Environment W) where
  -- A run's state right after it was accepted.
  abbrev pub Begun : RunState W → Type 0
  Begun s = s.events ≡ run_start ∷ []

  pub begun :
      (w : W) (r : Result StoreError StartedRun × Database) {s : RunState W} {db : Database}
      → begin_run env w r ≡ (ok s, db)
      → (started : StartedRun) × (r ≡ (ok started, db))
        × Begun s
        × (s.history ≡ start (map (λ row. row.item) started.committed_history) started.run.prompt)
  unfolding emit observe conversation_item_for
  begun w (ok started, db) {s} h = (
    started,
    ap (λ r. (ok started, r.1)) h,
    ap (λ r. (value_or r.0 s).events) (sym h),
    ap (λ r. (value_or r.0 s).history) (sym h),
  )
  begun w (err e, db) h = absurd (cc)

  abbrev state_or : Option (Result Raised RunOutcome × RunState W) → RunState W → RunState W
  state_or none other = other
  state_or (some (r, s)) other = s

  task_result-Grown :
      (s : RunState W) (r : Result Stop RunOutcome × RunState W) {task : Result Raised RunOutcome}
      {t : RunState W}
      → Grown s r.1
      → task_result env r ≡ some (task, t)
      → Grown s t
  task_result-Grown s (ok o, u) {task} {t} g h = subst (Grown s) (ap (λ r. state_or r t) h) g
  task_result-Grown s (err (raised e), u) {task} {t} g h =
      subst (Grown s) (ap (λ r. state_or r t) h) g
  task_result-Grown s (err exhausted, u) g h = absurd (cc)

  pub task-Grown :
      (fuel : ℕ) (deps : Dependencies W) (result : Option ResultType) (early : Bool)
      (s : RunState W) {task : Result Raised RunOutcome} {t : RunState W}
      → run_task env fuel deps result early s ≡ some (task, t)
      → Grown s t
  unfolding run_task
  task-Grown fuel deps result true s {task} {t} h =
      subst (Grown s) (ap (λ r. state_or r t) h) (same-Grown s s refl refl)
  task-Grown fuel deps result false s h =
      task_result-Grown s (execute_prompt env fuel deps result s)
        ((execute_prompt-Grows env fuel deps result).grown s) h

  pub observe-terminal : (r : RunResult) (h : RunHistory) → observe h (terminal_event env r) ≡ h
  unfolding observe conversation_item_for terminal_event
  observe-terminal (outcome o) h = refl
  observe-terminal (faulted e) h = refl

  -- The log of an accepted run, once its task is done and it is finalized, is the start of the run,
  -- then events that are none of the run's own lifecycle, then one terminal event, which tells the
  -- result. Its history is the one of the accepted run, with exactly the events between observed, and
  -- healed. This holds whatever the provider and the tools do and however the database has changed.
  pub finalized_log :
      (now now' : ℕ) (uuid : ℕ → String) (session_id run_id prompt model provider : String) (w : W)
      (db db' db'' : Database) (fuel : ℕ) (deps : Dependencies W) (result : Option ResultType)
      (early : Bool) {s t : RunState W} {task : Result Raised RunOutcome}
      → start_execution env now session_id run_id prompt model provider w db ≡ (ok s, db')
      → run_task env fuel deps result early s ≡ some (task, t)
      → (inner : List AgentEvent) × AllInner inner
        × ((finalize env now' uuid session_id run_id task t db'').1.events
            ≡ run_start ∷ inner
              ++ terminal_event env (finalize env now' uuid session_id run_id task t db'').0 ∷ [])
        × ((finalize env now' uuid session_id run_id task t db'').1.history
            ≡ heal (observe_all s.history inner))
  unfolding start_execution finalize emit
  finalized_log now now' uuid session_id run_id prompt model provider w db db' db'' fuel deps result
        early {s} {t} {task} h k =
      let end = terminal_event env (finalize env now' uuid session_id run_id task t db'').0 in
      let grown = task-Grown fuel deps result early _ k in
      let (_, _, began, _) = begun w _ h in
      (
        grown.new,
        grown.inner,
        ap (λ l. l ++ end ∷ []) (grown.events ∙ ap (λ l. l ++ grown.new) began),
        observe-terminal _ _ ∙ ap heal grown.history,
      )
