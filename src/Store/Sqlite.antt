-- ===== src/Store/Sqlite.antt =====
-- The public methods of `SQLiteStore` in tile/store/sqlite.py. `now` is the time that the clock returns in
-- the call, and `uuid k` the k-th id that `uuid4` returns in it.
use tile.Prelude.{
  ℕ, String, Bool, true, false, Option, none, some, List, str_eq, leb, filter, Result, ok, err,
}
use Prim.Native.String.{compare}
use Prim.Native.Nat.{Ordering}
use tile.Types.Conversation.{ConversationItem}
use tile.Outcome.{RunOutcome, aborted, StoreError, run_already_ended, session_already_exists}
use tile.Store.Models.{
  SessionRecord, ActiveRun, TerminalRun, RunRecord, active, terminal, HistoryItem, StartedRun,
  new_session_record, new_active_run_record, terminal_run_record, session_of, started_at_of,
}
use tile.Store.Action.{
  Failure, domain, integrity, Action, pure, raise, immediate_transaction, translate_store_errors,
  ◌>>=◌, ◌>>◌,
}
use tile.Store.Tables.{Database, order_by, insert_session_row}
use tile.Store.Rows.{
  get_session_row, require_session, reject_existing_session, active_run_for_session,
  reject_active_run, insert_run, get_run_row, finalize_active_run, insert_history_delta,
  touch_session, copy_history_items, history_for_session,
}

-- The `except sqlite3.IntegrityError` of `create_session`.
abbrev pub created :
    String → Result Failure SessionRecord × Database → Result Failure SessionRecord × Database
created id (ok r, db) = (ok r, db)
created id (err integrity, db) = (err (domain (session_already_exists id)), db)
created id (err (domain e), db) = (err (domain e), db)

unfoldable pub create_session_block : ℕ → String → Action Database SessionRecord
create_session_block now session_id = do
  insert_session_row (new_session_record now session_id)
  pure (new_session_record now session_id)

unfoldable pub create_session : ℕ → String → Database → Result StoreError SessionRecord × Database
unfolding create_session_block
create_session now session_id =
    translate_store_errors "create_session"
      (λ db. created session_id (immediate_transaction (create_session_block now session_id) db))

unfoldable pub get_session : String → Database → Result StoreError SessionRecord × Database
get_session session_id = translate_store_errors "get_session" (get_session_row session_id)

abbrev not_after : Ordering → Ordering → Bool
not_after Ordering.lt _ = true
not_after Ordering.gt _ = false
not_after Ordering.eq Ordering.gt = false
not_after Ordering.eq _ = true

-- ORDER BY created_at, id; the texts of two timestamps compare as the times do.
unfoldable pub list_sessions : Database → Result StoreError (List SessionRecord) × Database
list_sessions = translate_store_errors "list_sessions" λ db. (
  ok (
      order_by
        (λ a b. not_after (Prim.Native.Nat.compare a.created_at b.created_at) (compare a.id b.id))
        db.sessions),
  db,
)

unfoldable pub start_run_block :
    ℕ → String → String → String → String → String → Action Database StartedRun
start_run_block now session_id run_id prompt model provider = do
  require_session session_id
  running ← active_run_for_session session_id
  reject_active_run running
  committed_history ← history_for_session session_id
  let run = new_active_run_record now run_id session_id prompt model provider
  insert_run run
  pure (record { run = run; committed_history = committed_history })

unfoldable pub start_run :
    ℕ
    → String
    → String
    → String
    → String
    → String
    → Database
    → Result StoreError StartedRun × Database
unfolding start_run_block
start_run now session_id run_id prompt model provider =
    translate_store_errors "start_run"
      (immediate_transaction (start_run_block now session_id run_id prompt model provider))

-- `isinstance(run, ActiveRun)`, or the error of a run that has ended.
abbrev pub still_active : String → RunRecord → Action Database ActiveRun
still_active run_id (active run) = pure run
still_active run_id (terminal run) = raise (domain (run_already_ended run_id))

unfoldable pub finish_run_block :
    ℕ
    → (ℕ → String)
    → String
    → String
    → RunOutcome
    → List ConversationItem
    → Action Database TerminalRun
finish_run_block now uuid session_id run_id outcome history_delta = do
  found_run ← get_run_row session_id run_id
  run ← still_active run_id found_run
  let ended = terminal_run_record now run outcome
  finalize_active_run ended
  insert_history_delta uuid ended history_delta
  touch_session ended
  pure ended

unfoldable pub finish_run :
    ℕ
    → (ℕ → String)
    → String
    → String
    → RunOutcome
    → List ConversationItem
    → Database
    → Result StoreError TerminalRun × Database
unfolding finish_run_block
finish_run now uuid session_id run_id outcome history_delta =
    translate_store_errors "finish_run"
      (immediate_transaction (finish_run_block now uuid session_id run_id outcome history_delta))

abbrev pub abort_found : ℕ → Option ActiveRun → Action Database (Option TerminalRun)
abort_found now none = pure none
abort_found now (some run) = do
  let ended = terminal_run_record now run aborted
  finalize_active_run ended
  touch_session ended
  pure (some ended)

unfoldable pub abort_active_run_block : ℕ → String → Action Database (Option TerminalRun)
abort_active_run_block now session_id = do
  require_session session_id
  running ← active_run_for_session session_id
  abort_found now running

unfoldable pub abort_active_run :
    ℕ → String → Database → Result StoreError (Option TerminalRun) × Database
unfolding abort_active_run_block
abort_active_run now session_id =
    translate_store_errors "abort_active_run"
      (immediate_transaction (abort_active_run_block now session_id))

unfoldable pub get_history : String → Database → Result StoreError (List HistoryItem) × Database
get_history session_id =
    translate_store_errors "get_history"
      (do require_session session_id; history_for_session session_id)

unfoldable pub get_run : String → String → Database → Result StoreError RunRecord × Database
get_run session_id run_id = translate_store_errors "get_run" (get_run_row session_id run_id)

unfoldable pub list_runs : String → Database → Result StoreError (List RunRecord) × Database
list_runs session_id = translate_store_errors "list_runs" (do
  require_session session_id
  λ db. (
    ok (
        order_by (λ a b. leb (started_at_of a) (started_at_of b))
          (filter (λ run. str_eq (session_of run) session_id) db.runs)),
    db,
  ))

unfoldable pub fork_session_block :
    ℕ → (ℕ → String) → String → String → Action Database SessionRecord
fork_session_block now uuid source target = do
  require_session source
  reject_existing_session target
  insert_session_row (new_session_record now target)
  source_items ← history_for_session source
  copy_history_items uuid source_items target
  pure (new_session_record now target)

unfoldable pub fork_session :
    ℕ → (ℕ → String) → String → String → Database → Result StoreError SessionRecord × Database
unfolding fork_session_block
fork_session now uuid source target =
    translate_store_errors "fork_session"
      (immediate_transaction (fork_session_block now uuid source target))
