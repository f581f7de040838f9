-- ===== src/Store/Rows.antt =====
-- The private methods of `SQLiteStore` in tile/store/sqlite.py, which the operations of its interface
-- are made of. `uuid k` is the k-th id that `uuid4` returns in a call.
use tile.Prelude.{
  ℕ, suc, ◌+◌, max, String, Option, none, some, List, [], ◌∷◌, map, any, if◌then◌else◌, Result, ok,
  err,
}
use tile.Types.Conversation.{ConversationItem}
use tile.Outcome.{
  StoreError, active_run, run_already_ended, session_already_exists, session_not_found,
  run_already_exists, run_not_found,
}
use tile.Store.Models.{SessionRecord, ActiveRun, TerminalRun, RunRecord, active, HistoryItem}
use tile.Store.Action.{Failure, domain, Action, pure, raise, ◌>>=◌, ◌>>◌}
use tile.Store.Tables.{
  Database, select_session, select_active_run, select_run, run_exists, select_history,
  next_history_position, insert_run_row, insert_history_row, is_finished_by, finish_row, touch_row,
}

abbrev pub found {ℓ} : {A : Type ℓ} → Option A → StoreError → Action Database A
found none e = raise (domain e)
found (some a) e = pure a

unfoldable pub get_session_row : String → Action Database SessionRecord
get_session_row session_id db =
    found (select_session db session_id) (session_not_found session_id) db

abbrev pub require {ℓ} : {A : Type ℓ} → Option A → StoreError → Action Database (Unit {0})
require none e = raise (domain e)
require (some a) e = pure tt

unfoldable pub require_session : String → Action Database (Unit {0})
require_session session_id db =
    require (select_session db session_id) (session_not_found session_id) db

abbrev pub reject {ℓ} : {A : Type ℓ} → Option A → StoreError → Action Database (Unit {0})
reject none e = pure tt
reject (some a) e = raise (domain e)

unfoldable pub reject_existing_session : String → Action Database (Unit {0})
reject_existing_session session_id db =
    reject (select_session db session_id) (session_already_exists session_id) db

-- `active_run_from_row` accepts the row, since the query selects active rows only.
abbrev pub active_row : Option RunRecord → Option ActiveRun
active_row (some (active run)) = some run
active_row _ = none

unfoldable pub active_run_for_session : String → Action Database (Option ActiveRun)
active_run_for_session session_id db = (ok (active_row (select_active_run db session_id)), db)

unfoldable pub reject_active_run : Option ActiveRun → Action Database (Unit {0})
reject_active_run none = pure tt
reject_active_run (some run) = raise (domain (active_run run.session_id))

-- The `except` clause of `_insert_run`.
abbrev pub insert_failed :
    String → Result Failure (Unit {0}) × Database → Result Failure (Unit {0}) × Database
insert_failed id (ok u, db) = (ok u, db)
insert_failed id (err e, db) =
    (err (if run_exists db id then domain (run_already_exists id) else e), db)

unfoldable pub insert_run : ActiveRun → Action Database (Unit {0})
insert_run run db = insert_failed run.id (insert_run_row run db)

unfoldable pub get_run_row : String → String → Action Database RunRecord
get_run_row session_id run_id db =
    found (select_run db session_id run_id) (run_not_found run_id session_id) db

unfoldable pub finalize_active_run : TerminalRun → Action Database (Unit {0})
finalize_active_run run db =
    if any (is_finished_by run) db.runs
    then (ok tt, record db { runs = map (finish_row run) db.runs })
    else (err (domain (run_already_ended run.id)), db)

unfoldable pub insert_history_rows : List HistoryItem → Action Database (Unit {0})
insert_history_rows [] = pure tt
insert_history_rows (row ∷ rows) = do insert_history_row row; insert_history_rows rows

unfoldable pub delta_rows :
    (ℕ → String) → TerminalRun → ℕ → ℕ → List ConversationItem → List HistoryItem
delta_rows uuid run first offset [] = []
delta_rows uuid run first offset (item ∷ items) =
    record {
      id = uuid offset;
      session_id = run.session_id;
      run_id = run.id;
      position = first + offset;
      item = item;
      created_at = run.ended_at;
    }
    ∷ delta_rows uuid run first (suc offset) items

unfoldable pub insert_history_delta :
    (ℕ → String) → TerminalRun → List ConversationItem → Action Database (Unit {0})
unfolding delta_rows insert_history_rows
insert_history_delta uuid run [] db = (ok tt, db)
insert_history_delta uuid run (item ∷ items) db =
    insert_history_rows
      (delta_rows uuid run (next_history_position db run.session_id) 0 (item ∷ items)) db

unfoldable pub set_updated_at : String → ℕ → Action Database (Unit {0})
set_updated_at id time db = (ok tt, record db { sessions = map (touch_row id time) db.sessions })

unfoldable pub touch_session : TerminalRun → Action Database (Unit {0})
unfolding get_session_row set_updated_at
touch_session run = do
  current ← get_session_row run.session_id
  set_updated_at run.session_id (max current.updated_at run.ended_at)

unfoldable pub copy_rows : (ℕ → String) → String → ℕ → List HistoryItem → List HistoryItem
copy_rows uuid target offset [] = []
copy_rows uuid target offset (row ∷ rows) =
    record {
      id = uuid offset;
      session_id = target;
      run_id = row.run_id;
      position = row.position;
      item = row.item;
      created_at = row.created_at;
    }
    ∷ copy_rows uuid target (suc offset) rows

unfoldable pub copy_history_items :
    (ℕ → String) → List HistoryItem → String → Action Database (Unit {0})
unfolding copy_rows insert_history_rows
copy_history_items uuid items target = insert_history_rows (copy_rows uuid target 0 items)

unfoldable pub history_for_session : String → Action Database (List HistoryItem)
history_for_session session_id db = (ok (select_history db session_id), db)
