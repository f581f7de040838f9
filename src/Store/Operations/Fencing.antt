-- ===== src/Store/Operations/Fencing.antt =====
-- A run that has ended keeps its record for ever, and cannot be ended again.
use mathlib.Core.Path.{subst}
use tile.Prelude.{
  ℕ, String, ◌≡◌, refl, sym, ◌&&◌, Option, Option-cases, inl, inr, none, some, List, [], ◌∷◌, map,
  str_eq, find_first, find_first-append, arith, ok, err,
}
use tile.Types.Conversation.{ConversationItem}
use tile.Outcome.{RunOutcome, run_already_ended}
use tile.Store.Models.{RunRecord, TerminalRun, active, terminal, session_of, run_id_of}
use tile.Store.Tables.{Database, select_run, finish_row}
use tile.Store.Rows.{get_run_row}
use tile.Store.Action.{translate_store_errors, immediate_transaction}
use tile.Store.Sqlite.{
  create_session, start_run, finish_run, abort_active_run, fork_session, get_run,
}
use tile.Store.Effects.Start.{create_session-ok, start_run-ok}
use tile.Store.Effects.Finish.{finish_run-ok}
use tile.Store.Effects.Abort.{abort_active_run-ok, Aborted}
use tile.Store.Effects.Fork.{fork_session-ok}
use tile.Store.Operations.{Operation, perform, perform_all, create, start, finish, abort, fork}
use tile.Store.Operations.Atomic.{perform_atomic, summary-ok}

abbrev Ended : Database → String → String → TerminalRun → Type 0
Ended db session_id run_id t = select_run db session_id run_id ≡ some (terminal t)

found-finish :
    (ended : TerminalRun) (session_id run_id : String) (t : TerminalRun) (runs : List RunRecord)
    → find_first (λ run. str_eq (session_of run) session_id && str_eq (run_id_of run) run_id) runs
      ≡ some (terminal t)
    → find_first
        (λ run. str_eq (session_of run) session_id && str_eq (run_id_of run) run_id)
        (map (finish_row ended) runs)
      ≡ some (terminal t)
found-finish ended session_id run_id t [] h = absurd (cc)
found-finish ended session_id run_id t (active r ∷ runs) h =
    ground (arith, h, found-finish ended session_id run_id t runs)
found-finish ended session_id run_id t (terminal r ∷ runs) h =
    ground (arith, h, found-finish ended session_id run_id t runs)

Aborted-Ended :
    (now : ℕ) (id session_id run_id : String) (t : TerminalRun) (db : Database)
    (result : Option TerminalRun) (db' : Database)
    → Ended db session_id run_id t
    → Aborted now id db result db'
    → Ended db' session_id run_id t
unfolding select_run
Aborted-Ended now id session_id run_id t db none db' h a =
    subst (λ d. Ended d session_id run_id t) (sym a.1) h
Aborted-Ended now id session_id run_id t db (some ended) db' h (run, _, _, (current, _, left)) =
    subst (λ d. Ended d session_id run_id t) (sym left)
      (found-finish ended session_id run_id t db.runs h)

performed-Ended :
    (op : Operation) (db : Database) (session_id run_id : String) (t : TerminalRun)
    → (perform op db).0 ≡ none
    → Ended db session_id run_id t
    → Ended (perform op db).1 session_id run_id t
unfolding perform select_run
performed-Ended (create now id) db session_id run_id t p h =
    let (row, e) = summary-ok (create_session now id db) p in
    let (_, _, left) = create_session-ok now id db e in
    subst (λ d. Ended d session_id run_id t) (sym left) h
performed-Ended (start now id run prompt model provider) db session_id run_id t p h =
    let (started, e) = summary-ok (start_run now id run prompt model provider db) p in
    let (_, _, _, _, left) = start_run-ok now id run prompt model provider db e in
    subst (λ d. Ended d session_id run_id t) (sym left)
      (find_first-append _ db.runs _ (terminal t) h)
performed-Ended (finish now uuid id run outcome items) db session_id run_id t p h =
    let (ended, e) = summary-ok (finish_run now uuid id run outcome items db) p in
    let (_, _, _, (current, _, left)) = finish_run-ok now uuid id run outcome items db e in
    subst (λ d. Ended d session_id run_id t) (sym left)
      (found-finish ended session_id run_id t db.runs h)
performed-Ended (abort now id) db session_id run_id t p h =
    let (result, e) = summary-ok (abort_active_run now id db) p in
    Aborted-Ended now id session_id run_id t db result _ h (abort_active_run-ok now id db e).1
performed-Ended (fork now uuid source target) db session_id run_id t p h =
    let (row, e) = summary-ok (fork_session now uuid source target db) p in
    let (_, _, _, left) = fork_session-ok now uuid source target db e in
    subst (λ d. Ended d session_id run_id t) (sym left) h

perform-Ended :
    (op : Operation) (db : Database) (session_id run_id : String) (t : TerminalRun)
    → Ended db session_id run_id t
    → Ended (perform op db).1 session_id run_id t
perform-Ended op db session_id run_id t h = elim (Option-cases (perform op db).0) [
  | inl e ↦ performed-Ended op db session_id run_id t e h
  | inr (x, e) ↦ subst (λ d. Ended d session_id run_id t) (sym (perform_atomic op db e)) h
]

pub perform_all-Ended :
    (ops : List Operation) (db : Database) (session_id run_id : String) (t : TerminalRun)
    → Ended db session_id run_id t
    → Ended (perform_all ops db) session_id run_id t
unfolding perform_all
perform_all-Ended [] db session_id run_id t h = h
perform_all-Ended (op ∷ ops) db session_id run_id t h =
    perform_all-Ended ops (perform op db).1 session_id run_id t
      (perform-Ended op db session_id run_id t h)

refused :
    (now : ℕ) (uuid : ℕ → String) (session_id run_id : String) (outcome : RunOutcome)
    (items : List ConversationItem) (db : Database) (t : TerminalRun)
    → Ended db session_id run_id t
    → finish_run now uuid session_id run_id outcome items db ≡ (err (run_already_ended run_id), db)
unfolding finish_run get_run_row translate_store_errors immediate_transaction
refused now uuid session_id run_id outcome items db t h = rw h

-- Once a run has a terminal record, then after any operations `get_run` returns that same record, and
-- `finish_run` raises `RunAlreadyEndedError` for the run and changes nothing.
pub ended_for_ever :
    (ops : List Operation) (db : Database) (session_id run_id : String) (t : TerminalRun) (now : ℕ)
    (uuid : ℕ → String) (outcome : RunOutcome) (items : List ConversationItem)
    → select_run db session_id run_id ≡ some (terminal t)
    → (get_run session_id run_id (perform_all ops db) ≡ (ok (terminal t), perform_all ops db))
      × (finish_run now uuid session_id run_id outcome items (perform_all ops db)
          ≡ (err (run_already_ended run_id), perform_all ops db))
unfolding get_run get_run_row translate_store_errors
ended_for_ever ops db session_id run_id t now uuid outcome items h =
    let kept = perform_all-Ended ops db session_id run_id t h in
    (rw kept refl, refused now uuid session_id run_id outcome items _ t kept)
