-- ===== src/Runtime/RunExecution/Committed.antt =====
-- What finalizing a run commits to the history of its session.
use tile.Prelude.{
  ℕ, String, ◌≡◌, refl, sym, ◌∙◌, ap, some, List, [], ◌++◌, map, Result, ok, err, value_or,
}
use tile.Types.Conversation.{ConversationItem}
use tile.Outcome.{
  Raised, RunOutcome, outcome, StoreError, active_run, run_already_ended, session_already_exists,
  session_not_found, run_already_exists, run_not_found, no_terminal_record, persistence,
}
use tile.Store.Models.{ActiveRun, TerminalRun, active, terminal_run_record}
use tile.Store.Action.{operation-err}
use tile.Store.Tables.{Database, select_run, select_history}
use tile.Store.Sqlite.{finish_run, finish_run_block, get_run}
use tile.Store.Consistency.{IsConsistent}
use tile.Store.History.Finish.{finish_run-appends}
use tile.Store.Effects.Finish.{finish_run-ok}
use tile.Runtime.Environment.{Environment}
use tile.Runtime.History.{heal, unanswered_tool_calls}
use tile.Runtime.History.Healing.{unanswered-heal}
use tile.Runtime.Monad.{RunState, emit}
use tile.Runtime.RunExecution.{
  finalize, finish, finished, ended_outcome, outcome_of_record, terminal_outcome, run_result,
}
use tile.Runtime.RunExecution.Logs.{observe-terminal}
use tile.Runtime.RunExecution.Durable.{get_run-found, run_result-outcome}

abbrev items_in : Database → String → List ConversationItem
items_in db session_id = map (λ row. row.item) (select_history db session_id)

finish_run-err :
    (now : ℕ) (uuid : ℕ → String) (session_id run_id : String) (o : RunOutcome)
    (items : List ConversationItem) (db d : Database) {e : StoreError}
    → finish_run now uuid session_id run_id o items db ≡ (err e, d)
    → d ≡ db
unfolding finish_run
finish_run-err now uuid session_id run_id o items db d h =
    sym (ap (λ r. r.1) h)
    ∙ operation-err "finish_run" (finish_run_block now uuid session_id run_id o items) db
        (ap (λ r. r.0) h)

-- The run was active, so it is this call that ended it.
ended_here :
    (now : ℕ) (uuid : ℕ → String) (session_id run_id : String) (result : RunOutcome)
    (items : List ConversationItem) (db : Database) (run : ActiveRun)
    (r : Result StoreError TerminalRun × Database) {o : RunOutcome} {db' : Database}
    → IsConsistent db
    → select_run db session_id run_id ≡ some (active run)
    → finish_run now uuid session_id run_id result items db ≡ r
    → finished session_id run_id r ≡ (ok o, db')
    → (o ≡ result) × (items_in db' session_id ≡ items_in db session_id ++ items)
unfolding ended_outcome terminal_run_record
ended_here now uuid session_id run_id result items db run (ok t, d) {o} c a e h =
    let (_, _, named, _) = finish_run-ok now uuid session_id run_id result items db e in
    (
      sym (ap (λ x. value_or x.0 o) h) ∙ ap (λ x. x.outcome) named,
      ap (λ x. items_in x session_id) (sym (ap (λ x. x.1) h))
          ∙ finish_run-appends now uuid session_id run_id result items db c e,
    )
ended_here now uuid session_id run_id result items db run (err (run_already_ended id), d) c a e h =
    let unchanged = finish_run-err now uuid session_id run_id result items db d e in
    let found = ap (get_run session_id run_id) unchanged ∙ get_run-found session_id run_id db a in
    let clash = sym (ap (outcome_of_record run_id) found) ∙ h in absurd (cc)
ended_here now uuid session_id run_id result items db run (err (active_run x), d) c a e h =
    absurd (cc)
ended_here now uuid session_id run_id result items db run (err (session_already_exists x), d) c a e
      h =
    absurd (cc)
ended_here now uuid session_id run_id result items db run (err (session_not_found x), d) c a e h =
    absurd (cc)
ended_here now uuid session_id run_id result items db run (err (run_already_exists x), d) c a e h =
    absurd (cc)
ended_here now uuid session_id run_id result items db run (err (run_not_found x y), d) c a e h =
    absurd (cc)
ended_here now uuid session_id run_id result items db run (err (no_terminal_record x), d) c a e h =
    absurd (cc)
ended_here now uuid session_id run_id result items db run (err (persistence x y), d) c a e h =
    absurd (cc)

module _ {W : Type 0} (env : Environment W) where
  -- Where finalizing finds its run active in a consistent database and its result is an outcome, then
  -- the outcome is the one that the task's result stands for, the session's committed history has
  -- grown by exactly the healed delta of the run, in order, and no tool call of it is unanswered.
  pub finalize_commits :
      (now : ℕ) (uuid : ℕ → String) (session_id run_id : String) (task : Result Raised RunOutcome)
      (s : RunState W) (db : Database) (run : ActiveRun) {o : RunOutcome}
      → IsConsistent db
      → select_run db session_id run_id ≡ some (active run)
      → (finalize env now uuid session_id run_id task s db).0 ≡ outcome o
      → (o ≡ terminal_outcome env task)
        × (map
              (λ row. row.item)
              (select_history (finalize env now uuid session_id run_id task s db).2 session_id)
            ≡ map (λ row. row.item) (select_history db session_id)
              ++ (finalize env now uuid session_id run_id task s db).1.history.delta)
        × (unanswered_tool_calls (finalize env now uuid session_id run_id task s db).1.history.delta
            ≡ [])
  unfolding finalize finish emit
  finalize_commits now uuid session_id run_id task s db run c a h =
      let r = finish env now uuid session_id run_id task (heal s.history) db in
      let kept = observe-terminal env (run_result env r.0) (heal s.history) in
      let (same, grown) =
        ended_here now uuid session_id run_id (terminal_outcome env task) (heal s.history).delta db
          run _ c a refl (ap (λ x. (x, r.1)) (run_result-outcome env r.0 h)) in
      (
        same,
        grown ∙ ap (λ x. items_in db session_id ++ x.delta) (sym kept),
        ap (λ x. unanswered_tool_calls x.delta) kept ∙ unanswered-heal s.history,
      )
