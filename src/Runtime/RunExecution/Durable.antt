-- ===== src/Runtime/RunExecution/Durable.antt =====
-- What a finalized run has told its caller is what the Store has recorded.
use mathlib.Core.Path.{subst}
use tile.Prelude.{
  ℕ, String, ◌≡◌, refl, sym, ◌∙◌, ap, Option-cases, inl, inr, some, List, Result, ok, err, value_or,
}
use tile.Outcome.{
  Raised, RunOutcome, RunResult, outcome, faulted, StoreError, active_run, run_already_ended,
  session_already_exists, session_not_found, run_already_exists, run_not_found, no_terminal_record,
  persistence,
}
use tile.Types.Conversation.{ConversationItem}
use tile.Store.Models.{TerminalRun, RunRecord, active, terminal}
use tile.Store.Action.{translate_store_errors}
use tile.Store.Effects.Records.{select_run-finished}
use tile.Store.Tables.{Database, select_run}
use tile.Store.Rows.{get_run_row}
use tile.Store.Sqlite.{finish_run, get_run}
use tile.Runtime.Environment.{Environment}
use tile.Runtime.History.{heal}
use tile.Runtime.Monad.{RunState}
use tile.Runtime.RunExecution.{
  finalize, finish, finished, ended_outcome, outcome_of_record, terminal_outcome, run_result,
}

pub get_run-found :
    (session_id run_id : String) (db : Database) {run : RunRecord}
    → select_run db session_id run_id ≡ some run
    → get_run session_id run_id db ≡ (ok run, db)
unfolding get_run get_run_row translate_store_errors
get_run-found session_id run_id db h = rw h refl

get_run-same : (session_id run_id : String) (db : Database) → (get_run session_id run_id db).1 ≡ db
unfolding get_run get_run_row translate_store_errors
get_run-same session_id run_id db = elim (Option-cases (select_run db session_id run_id)) [
  | inl e ↦ rw e refl
  | inr (run, e) ↦ rw e refl
]

abbrev Recorded : String → String → RunOutcome → Database → Type 0
Recorded session_id run_id o db =
    (run : TerminalRun) × (get_run session_id run_id db ≡ (ok (terminal run), db))
    × (run.outcome ≡ o)

Recorded-record :
    (session_id run_id : String) (r : Result StoreError RunRecord × Database) (d : Database)
    {o : RunOutcome} {db' : Database}
    → get_run session_id run_id d ≡ r
    → outcome_of_record run_id r ≡ (ok o, db')
    → Recorded session_id run_id o db'
Recorded-record session_id run_id (ok (terminal run), d') d e h =
    let P = λ (x : Database). get_run session_id run_id x ≡ (ok (terminal run), x) in
    let same : d' ≡ d = sym (ap (λ x. x.1) e) ∙ get_run-same session_id run_id d in
    (
      run,
      subst P (sym same ∙ ap (λ x. x.1) h) (e ∙ ap (λ x. (ok (terminal run), x)) same),
      ap (λ x. value_or x.0 run.outcome) h,
    )
Recorded-record session_id run_id (ok (active run), d') d e h = absurd (cc)
Recorded-record session_id run_id (err x, d') d e h = absurd (cc)

recorded :
    (now : ℕ) (uuid : ℕ → String) (session_id run_id : String) (result : RunOutcome)
    (items : List ConversationItem) (db : Database) (r : Result StoreError TerminalRun × Database)
    {o : RunOutcome} {db' : Database}
    → finish_run now uuid session_id run_id result items db ≡ r
    → finished session_id run_id r ≡ (ok o, db')
    → Recorded session_id run_id o db'
unfolding ended_outcome
recorded now uuid session_id run_id result items db (ok run, d) e h = (
  run,
  subst (λ x. get_run session_id run_id x ≡ (ok (terminal run), x)) (ap (λ x. x.1) h)
      (get_run-found session_id run_id d
        (select_run-finished now uuid session_id run_id result items db e)),
  ap (λ x. value_or x.0 run.outcome) h,
)
recorded now uuid session_id run_id result items db (err (run_already_ended id), d) e h =
    Recorded-record session_id run_id (get_run session_id run_id d) d refl h
recorded now uuid session_id run_id result items db (err (active_run x), d) e h = absurd (cc)
recorded now uuid session_id run_id result items db (err (session_already_exists x), d) e h =
    absurd (cc)
recorded now uuid session_id run_id result items db (err (session_not_found x), d) e h = absurd (cc)
recorded now uuid session_id run_id result items db (err (run_already_exists x), d) e h =
    absurd (cc)
recorded now uuid session_id run_id result items db (err (run_not_found x y), d) e h = absurd (cc)
recorded now uuid session_id run_id result items db (err (no_terminal_record x), d) e h =
    absurd (cc)
recorded now uuid session_id run_id result items db (err (persistence x y), d) e h = absurd (cc)

module _ {W : Type 0} (env : Environment W) where
  abbrev outcome_or : RunResult → RunOutcome → RunOutcome
  outcome_or (outcome o) other = o
  outcome_or (faulted e) other = other

  pub run_result-outcome :
      (r : Result StoreError RunOutcome) {o : RunOutcome} → run_result env r ≡ outcome o → r ≡ ok o
  run_result-outcome (ok a) h = ap (λ x. ok (outcome_or x a)) h
  run_result-outcome (err e) h = absurd (cc)

  -- Where the result of a finalized run is an outcome, `get_run` on the database that finalizing left
  -- returns a terminal record of the run with that same outcome: also where another client had ended
  -- the run before.
  pub reported_is_recorded :
      (now : ℕ) (uuid : ℕ → String) (session_id run_id : String) (task : Result Raised RunOutcome)
      (s : RunState W) (db : Database) {o : RunOutcome}
      → (finalize env now uuid session_id run_id task s db).0 ≡ outcome o
      → (run : TerminalRun) × (get_run session_id run_id
            (finalize env now uuid session_id run_id task s db).2
          ≡ (ok (terminal run), (finalize env now uuid session_id run_id task s db).2))
        × (run.outcome ≡ o)
  unfolding finalize finish
  reported_is_recorded now uuid session_id run_id task s db h =
      let r = finish env now uuid session_id run_id task (heal s.history) db in
      recorded now uuid session_id run_id (terminal_outcome env task) (heal s.history).delta db _
        refl (ap (λ x. (x, r.1)) (run_result-outcome r.0 h))
