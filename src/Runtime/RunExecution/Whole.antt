-- ===== src/Runtime/RunExecution/Whole.antt =====
-- A run from its acceptance to its end, with other clients of the Store in between.
use mathlib.Core.Path.{subst}
use tile.Prelude.{
  ℕ, String, Bool, true, false, ◌≡◌, sym, ◌∙◌, ap, Option, some, List, [], ◌∷◌, ◌++◌, map, any,
  find_first, Result, ok, str_eq, arith, eq_iff,
}
use tile.Outcome.{Raised, RunOutcome, outcome}
use tile.Store.Models.{RunRecord, ActiveRun, active, new_active_run_record, run_id_of}
use tile.Store.Tables.{Database, select_run, select_history, session_exists, run_exists}
use tile.Store.Consistency.{IsConsistent}
use tile.Store.Effects.Start.{start_run-ok}
use tile.Store.Effects.Records.{matches}
use tile.Store.Operations.{Operation, perform, perform_all}
use tile.Store.Operations
use tile.Store.Operations.Consistent.{perform-IsConsistent, perform_all-IsConsistent}
use tile.Store.Operations.Isolation.{active_run-isolated}
use tile.Runtime.Environment.{Environment}
use tile.Runtime.Monad.{RunState}
use tile.Runtime.History.{start, heal}
use tile.Runtime.History.Projection.{run-Extends, observe_all}
use tile.Runtime.Execution.{Dependencies, ResultType}
use tile.Runtime.RunExecution.{start_execution, run_task, finalize}
use tile.Runtime.RunExecution.Logs.{finalized_log, begun}
use tile.Runtime.RunExecution.Committed.{finalize_commits}

new_run-found :
    (session_id run_id : String) (run : ActiveRun) (runs : List RunRecord)
    → any (λ r. str_eq (run_id_of r) run_id) runs ≡ false
    → run.session_id ≡ session_id
    → run.id ≡ run_id
    → find_first (matches session_id run_id) (runs ++ active run ∷ []) ≡ some (active run)
new_run-found session_id run_id run [] h a b =
    ground (arith, a, b, eq_iff run.session_id session_id, eq_iff run.id run_id)
new_run-found session_id run_id run (r ∷ runs) h a b =
    ground (arith, h, new_run-found session_id run_id run runs (ground (arith, h)) a b)

module _ {W : Type 0} (env : Environment W) where
  -- What `start_execution` leaves: a consistent database with the new run, active, and a history that
  -- starts from the session's committed one.
  record Accepted (session_id run_id prompt : String) (db db' : Database) (s : RunState W)
      : Type 0 where
    run : ActiveRun
    consistent : IsConsistent db'
    exists : session_exists db' session_id ≡ true
    selected : select_run db' session_id run_id ≡ some (active run)
    same_history : select_history db' session_id ≡ select_history db session_id
    starts : s.history ≡ start (map (λ row. row.item) (select_history db session_id)) prompt

  start_execution-Accepted :
      (now : ℕ) (session_id run_id prompt model provider : String) (w : W) (db db' : Database)
      {s : RunState W}
      → IsConsistent db
      → start_execution env now session_id run_id prompt model provider w db ≡ (ok s, db')
      → Accepted session_id run_id prompt db db' s
  unfolding start_execution perform select_run select_history session_exists run_exists
      new_active_run_record
  start_execution-Accepted now session_id run_id prompt model provider w db db' c h =
      let (started, ran, _, starts) = begun env w _ h in
      let (exists, fresh, _, named, left) =
        start_run-ok now session_id run_id prompt model provider db ran in
      record {
        run = started.run;
        consistent = subst IsConsistent (ap (λ r. r.1) ran) (
            perform-IsConsistent
              (tile.Store.Operations.Operation.start now session_id run_id prompt model provider) db
              c);
        exists = ap (λ d. session_exists d session_id) left ∙ exists;
        selected =
            ap (λ d. select_run d session_id run_id) left
            ∙ new_run-found session_id run_id started.run db.runs fresh
                (ap (λ x. x.run.session_id) named) (ap (λ x. x.run.id) named);
        same_history = ap (λ d. select_history d session_id) left;
        starts =
            starts ∙ ap (λ x. start (map (λ row. row.item) x.committed_history) x.run.prompt) named;
      }

  -- A run from its acceptance in a consistent database to its end: other clients perform any operations
  -- in between. If the run is still active when it is finalized, and its result is an outcome, then the
  -- session's committed history is afterwards exactly the run's healed working history.
  pub run_commits_working :
      (now now' : ℕ) (uuid : ℕ → String) (session_id run_id prompt model provider : String) (w : W)
      (db db' : Database) (ops : List Operation) (fuel : ℕ) (deps : Dependencies W)
      (result : Option ResultType) (early : Bool) (later : ActiveRun) {s t : RunState W}
      {task : Result Raised RunOutcome} {o : RunOutcome}
      → IsConsistent db
      → start_execution env now session_id run_id prompt model provider w db ≡ (ok s, db')
      → run_task env fuel deps result early s ≡ some (task, t)
      → select_run (perform_all ops db') session_id run_id ≡ some (active later)
      → (finalize env now' uuid session_id run_id task t (perform_all ops db')).0 ≡ outcome o
      → map
          (λ row. row.item)
          (select_history
            (finalize env now' uuid session_id run_id task t (perform_all ops db')).2
            session_id)
        ≡ (finalize env now' uuid session_id run_id task t (perform_all ops db')).1.history.working
  run_commits_working now now' uuid session_id run_id prompt model provider w db db' ops fuel deps
        result early later {s} {t} {task} c h k still e =
      let a = start_execution-Accepted now session_id run_id prompt model provider w db db' c h in
      let mine =
        (finalize env now' uuid session_id run_id task t (perform_all ops db')).1.history.delta in
      let committed = map (λ row. row.item) (select_history db session_id) in
      let (inner, _, _, final) =
        finalized_log env now now' uuid session_id run_id prompt model provider w db db'
          (perform_all ops db') fuel deps result early h k in
      let isolated =
        active_run-isolated ops session_id run_id a.run later db' a.consistent a.exists a.selected
          still
        ∙ a.same_history in
      let (_, grown, _) =
        finalize_commits env now' uuid session_id run_id task t (perform_all ops db') later
          (perform_all-IsConsistent ops db' a.consistent) still e in
      let whole = final ∙ ap (λ g. heal (observe_all g inner)) a.starts in
      let working = ap (λ g. g.working) whole in
      let delta = ap (λ g. g.delta) whole in
      grown
      ∙ ap (λ rows. map (λ row. row.item) rows ++ mine) isolated
      ∙ ap (λ l. committed ++ l) delta
      ∙ sym (run-Extends committed prompt inner)
      ∙ sym working
