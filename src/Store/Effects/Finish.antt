-- ===== src/Store/Effects/Finish.antt =====
-- `finish_run` and `abort_active_run`, when they succeed.
use tile.Prelude.{ℕ, max, String, ◌≡◌, some, List, ok, err, ap, sym, ◌∙◌, Result}
use tile.Types.Conversation.{ConversationItem}
use tile.Outcome.{RunOutcome}
use tile.Store.Models.{SessionRecord, ActiveRun, TerminalRun, active, terminal_run_record}
use tile.Store.Action.{Action, Failure, ◌>>◌, pure, continue-ok, operation-ok}
use tile.Store.Tables.{Database, select_session, select_run, next_history_position}
use tile.Store.Rows.{
  get_run_row, finalize_active_run, delta_rows, insert_history_delta, touch_session,
}
use tile.Store.Sqlite.{finish_run, finish_run_block}
use tile.Store.History.Inserts.{with_rows}
use tile.Store.Effects.{
  with_finished, with_touched, found-then, still_active-then, finalize-ok, insert_history_delta-ok,
  touch-ok,
}

abbrev pub result_or : Result Failure TerminalRun → TerminalRun → TerminalRun
result_or (ok r) other = r
result_or (err f) other = other

-- The database after a run has ended with the given delta rows, and its session was touched.
abbrev pub ended_database :
    (ℕ → String) → TerminalRun → SessionRecord → List ConversationItem → Database → Database
ended_database uuid ended current items db =
    let finished = with_finished ended db in
    with_touched ended.session_id (max current.updated_at ended.ended_at) (
      with_rows finished
        (delta_rows uuid ended (next_history_position finished ended.session_id) 0 items))

abbrev pub close_run :
    (ℕ → String) → List ConversationItem → TerminalRun → Action Database TerminalRun
close_run uuid items ended = do
  finalize_active_run ended
  insert_history_delta uuid ended items
  touch_session ended
  pure ended

pub close-ok :
    (uuid : ℕ → String) (items : List ConversationItem) (ended : TerminalRun) (db : Database)
    {record' : TerminalRun} {db' : Database}
    → close_run uuid items ended db ≡ (ok record', db')
    → (record' ≡ ended)
      × ((current : SessionRecord) × (select_session db ended.session_id ≡ some current)
          × (db' ≡ ended_database uuid ended current items db))
unfolding select_session
close-ok uuid items ended db h =
    let (u1, s1, first, rest1) = continue-ok (finalize_active_run ended db) _ h in
    let (u2, s2, second, rest2) = continue-ok (insert_history_delta uuid ended items s1) _ rest1 in
    let (u3, s3, third, whole) = continue-ok (touch_session ended s2) _ rest2 in
    let e1 : s1 ≡ with_finished ended db = finalize-ok ended db first in
    let e2 : s2
        ≡ with_rows (with_finished ended db) (
            delta_rows uuid ended (next_history_position (with_finished ended db) ended.session_id)
              0 items) =
      insert_history_delta-ok uuid ended items s1 second
      ∙ ap
          (λ d.
            with_rows d (delta_rows uuid ended (next_history_position d ended.session_id) 0 items))
          e1 in
    let (current, selected, e3) = touch-ok ended s2 third in
    (
      ap (λ r. result_or r.0 ended) (sym whole),
      (
        current,
        sym (ap (λ d. select_session d ended.session_id) e2) ∙ selected,
        ap (λ r. r.1) (sym whole)
            ∙ e3
            ∙ ap (λ d. with_touched ended.session_id (max current.updated_at ended.ended_at) d) e2,
      ),
    )

-- A run that `finish_run` ends was active. The database afterwards is the one before, with the run's
-- row finished, the delta's rows added and the session touched.
pub finish_run-ok :
    (now : ℕ) (uuid : ℕ → String) (session_id run_id : String) (outcome : RunOutcome)
    (items : List ConversationItem) (db : Database) {record' : TerminalRun} {db' : Database}
    → finish_run now uuid session_id run_id outcome items db ≡ (ok record', db')
    → (run : ActiveRun) × (select_run db session_id run_id ≡ some (active run))
      × (record' ≡ terminal_run_record now run outcome)
      × ((current : SessionRecord) × (select_session db record'.session_id ≡ some current)
          × (db' ≡ ended_database uuid record' current items db))
unfolding finish_run get_run_row
finish_run-ok now uuid session_id run_id outcome items db h =
    let block =
      operation-ok "finish_run" (finish_run_block now uuid session_id run_id outcome items) db h in
    let (row, selected, rest1) = found-then db (select_run db session_id run_id) _ _ block in
    let (run, is_active, rest2) = still_active-then db run_id row _ rest1 in
    let (named, rest) = close-ok uuid items (terminal_run_record now run outcome) db rest2 in
    (run, selected ∙ ap some is_active, named, rw named rest)
