-- ===== src/Store/Effects/Records.antt =====
-- The record that `finish_run` leaves.
use mathlib.Core.Path.{subst}
use tile.Prelude.{
  ℕ, String, ◌≡◌, sym, ◌∙◌, ap, Bool, true, ◌&&◌, Bool-cases, inl, inr, some, List, [], ◌∷◌, map,
  find_first, str_eq, eq_refl, arith, ok,
}
use tile.Types.Conversation.{ConversationItem}
use tile.Outcome.{RunOutcome}
use tile.Store.Models.{
  ActiveRun, TerminalRun, RunRecord, active, terminal, terminal_run_record, session_of, run_id_of,
}
use tile.Store.Tables.{Database, select_run, finish_row}
use tile.Store.Sqlite.{finish_run}
use tile.Store.Effects.Finish.{finish_run-ok}

abbrev pub matches : String → String → RunRecord → Bool
matches session_id run_id run = str_eq (session_of run) session_id && str_eq (run_id_of run) run_id

stored :
    (now : ℕ) (run : ActiveRun) (o : RunOutcome) (session_id run_id : String)
    (runs : List RunRecord)
    → find_first (matches session_id run_id) runs ≡ some (active run)
    → find_first (matches session_id run_id) (map (finish_row (terminal_run_record now run o)) runs)
      ≡ some (terminal (terminal_run_record now run o))
unfolding terminal_run_record
stored now run o session_id run_id [] h = absurd (cc)
stored now run o session_id run_id (terminal r ∷ runs) h =
    ground (arith, h, stored now run o session_id run_id runs)
stored now run o session_id run_id (active r ∷ runs) h =
    elim (Bool-cases (matches session_id run_id (active r))) [
      | inl e ↦
          let same : r ≡ run = ground (arith, e, h) in
          subst
            (λ x.
              find_first (matches session_id run_id)
                (map (finish_row (terminal_run_record now run o)) (active x ∷ runs))
              ≡ some (terminal (terminal_run_record now run o)))
            (sym same)
            (ground (
              arith,
              subst (λ x. matches session_id run_id (active x) ≡ true) same e,
              eq_refl run.id,
              eq_refl run.session_id,
            ))
      | inr e ↦ ground (arith, h, stored now run o session_id run_id runs)
    ]

pub select_run-finished :
    (now : ℕ) (uuid : ℕ → String) (session_id run_id : String) (o : RunOutcome)
    (items : List ConversationItem) (db : Database) {run : TerminalRun} {db' : Database}
    → finish_run now uuid session_id run_id o items db ≡ (ok run, db')
    → select_run db' session_id run_id ≡ some (terminal run)
unfolding select_run
select_run-finished now uuid session_id run_id o items db h =
    let (before, selected, named, (current, _, left)) =
      finish_run-ok now uuid session_id run_id o items db h in
    ap (λ d. select_run d session_id run_id) left
    ∙ subst
        (λ x.
          find_first (matches session_id run_id) (map (finish_row x) db.runs) ≡ some (terminal x))
        (sym named) (stored now before o session_id run_id db.runs selected)
