-- ===== src/Examples/Storage.antt =====
-- The Store of tile/store/sqlite.py on small databases.
use tile.Prelude.{
  true, if◌then◌else◌, ◌==◌, arith, eq_iff, ℕ, String, ◌≡◌, ◌≢◌, refl, List, [], ◌∷◌, ◌++◌, map,
  some, ok, err,
}
use tile.Types.Conversation.{ConversationItem, user}
use tile.Outcome.{aborted, run_already_ended, session_not_found}
use tile.Store.Models.{
  SessionRecord, ActiveRun, TerminalRun, active, terminal, terminal_run_record, new_session_record,
  new_active_run_record,
}
use tile.Store.Action.{translate_store_errors, immediate_transaction}
use tile.Store.Tables.{
  select_active_run, insert_run_row, session_exists, Database, empty, select_run, select_history,
  select_session, insert_session_row, insert_history_row,
}
use tile.Store.Rows.{
  active_run_for_session, reject_active_run, insert_run, require_session, reject_existing_session,
  get_run_row, finalize_active_run, insert_history_delta, touch_session, history_for_session,
  copy_history_items,
}
use tile.Store.Sqlite.{create_session, finish_run, fork_session, get_run, start_run}
use tile.Store.Consistency.{IsConsistent}
use tile.Store.Operations.{Operation, perform, perform_all, create, start, finish}
use tile.Store.Operations.Consistent.{perform_all-IsConsistent}
use tile.Store.Operations.Isolation.{active_run-isolated}
use tile.Store.Operations.Atomic.{perform_atomic}
use tile.Store.Operations.Fencing.{ended_for_ever}
use tile.Store.Operations.Admission.{admission, start_run-admission}
use tile.Store.History.Finish.{finish_run_history}
use tile.Store.History.Fork.{fork_session_history}

abbrev pub ids : ℕ → String
ids k = if k == 0 then "a" else if k == 1 then "b" else if k == 2 then "c" else "d"

abbrev session : SessionRecord
session = record { id = "s"; created_at = 1; updated_at = 1 }

abbrev pub running : ActiveRun
running = record {
  id = "r";
  session_id = "s";
  prompt = "hi";
  started_at = 2;
  model = "m";
  provider = "p";
}

abbrev pub ended : TerminalRun
ended = record {
  id = "r";
  session_id = "s";
  prompt = "hi";
  started_at = 2;
  ended_at = 5;
  model = "m";
  provider = "p";
  outcome = aborted;
}

abbrev pub busy : Database
busy = record { sessions = session ∷ []; runs = active running ∷ []; history_items = [] }

abbrev pub idle : Database
idle = record { sessions = session ∷ []; runs = terminal ended ∷ []; history_items = [] }

abbrev greeting : List ConversationItem
greeting = user (record { content = "hi" }) ∷ []

empty-IsConsistent : IsConsistent empty
empty-IsConsistent = record {
  sessions_distinct = tt;
  runs_distinct = tt;
  one_active = tt;
  session_times = tt;
  run_times = tt;
  history_owned = tt;
  history_distinct = tt;
  history_order = λ id. refl;
}

pub busy-IsConsistent : IsConsistent busy
busy-IsConsistent = record {
  sessions_distinct = (refl, tt);
  runs_distinct = (refl, tt);
  one_active = (refl, tt);
  session_times = (omega arith, tt);
  run_times = (tt, tt);
  history_owned = tt;
  history_distinct = tt;
  history_order = λ id. refl;
}

pub idle-IsConsistent : IsConsistent idle
idle-IsConsistent = record {
  sessions_distinct = (refl, tt);
  runs_distinct = (refl, tt);
  one_active = tt;
  session_times = (omega arith, tt);
  run_times = (omega arith, tt);
  history_owned = tt;
  history_distinct = tt;
  history_order = λ id. refl;
}

abbrev pub others : List Operation
others = create 4 "t" ∷ start 4 "t" "u" "hey" "m" "p" ∷ []

selected_busy : select_run busy "s" "r" ≡ some (active running)
unfolding select_run
selected_busy = refl

still_selected : select_run (perform_all others busy) "s" "r" ≡ some (active running)
unfolding select_run perform_all perform create_session start_run translate_store_errors
    immediate_transaction require_session select_session insert_session_row new_session_record
    active_run_for_session reject_active_run select_active_run history_for_session insert_run
    insert_run_row new_active_run_record select_history
still_selected = refl

known_session : session_exists busy "s" ≡ true
unfolding session_exists
known_session = refl

active_run-isolated_example : select_history (perform_all others busy) "s" ≡ select_history busy "s"
active_run-isolated_example =
    active_run-isolated others "s" "r" running running busy busy-IsConsistent known_session
      selected_busy still_selected

abbrev some_operations : List Operation
some_operations =
    create 1 "s" ∷ start 2 "s" "r" "hi" "m" "p" ∷ finish 5 ids "s" "r" aborted greeting ∷ []

perform_all-IsConsistent_example : IsConsistent (perform_all some_operations empty)
perform_all-IsConsistent_example = perform_all-IsConsistent some_operations empty empty-IsConsistent

finished_busy :
    finish_run 5 ids "s" "r" aborted greeting busy
    ≡ (ok ended, (finish_run 5 ids "s" "r" aborted greeting busy).1)
unfolding finish_run translate_store_errors immediate_transaction get_run_row select_run
    finalize_active_run terminal_run_record insert_history_delta insert_history_row touch_session
    select_session
finished_busy = refl

source_differs : ◌≢◌ {A = String} "s" "t"
source_differs h = let same = (eq_iff "s" "t").1 h in absurd (cc)

finish_run_history_example :
    (map (λ row. row.item) (select_history (finish_run 5 ids "s" "r" aborted greeting busy).1 "s")
      ≡ map (λ row. row.item) (select_history busy "s") ++ greeting)
    × (select_history (finish_run 5 ids "s" "r" aborted greeting busy).1 "t"
        ≡ select_history busy "t")
finish_run_history_example =
    finish_run_history 5 ids "s" "r" aborted greeting busy "t" busy-IsConsistent finished_busy
      source_differs

-- A session with a history of one item.
abbrev talked : Database
talked = perform_all (finish 3 ids "s" "r" aborted greeting ∷ []) busy

talked-IsConsistent : IsConsistent talked
talked-IsConsistent =
    perform_all-IsConsistent (finish 3 ids "s" "r" aborted greeting ∷ []) busy busy-IsConsistent

abbrev fork_ids : ℕ → String
fork_ids k = "f"

forked_talked : fork_session 7 fork_ids "s" "t" talked ≡ (
  ok (record { id = "t"; created_at = 7; updated_at = 7 }),
  (fork_session 7 fork_ids "s" "t" talked).1,
)
unfolding tile.Store.Tables.select_history tile.Store.Operations.perform_all
    tile.Store.Operations.perform tile.Store.Sqlite.finish_run
    tile.Store.Action.translate_store_errors tile.Store.Action.immediate_transaction
    tile.Store.Rows.get_run_row tile.Store.Tables.select_run tile.Store.Sqlite.start_run
    tile.Store.Rows.require_session tile.Store.Tables.select_session
    tile.Store.Sqlite.create_session tile.Store.Tables.insert_session_row
    tile.Store.Models.new_session_record tile.Store.Rows.active_run_for_session
    tile.Store.Rows.reject_active_run tile.Store.Tables.select_active_run
    tile.Store.Rows.history_for_session tile.Store.Models.new_active_run_record
    tile.Store.Models.terminal_run_record tile.Store.Rows.delta_rows
    tile.Store.Rows.finalize_active_run tile.Store.Rows.get_session_row
    tile.Store.Rows.insert_history_delta tile.Store.Rows.insert_history_rows
    tile.Store.Rows.insert_run tile.Store.Rows.set_updated_at tile.Store.Rows.touch_session
    tile.Store.Sqlite.create_session_block tile.Store.Sqlite.finish_run_block
    tile.Store.Sqlite.start_run_block tile.Store.Tables.insert_by
    tile.Store.Tables.insert_history_row tile.Store.Tables.insert_run_row
    tile.Store.Tables.next_history_position tile.Store.Tables.order_by
    tile.Store.Tables.past_positions tile.Store.Tables.run_exists tile.Store.Tables.session_exists
    tile.Store.Sqlite.fork_session tile.Store.Sqlite.fork_session_block
    tile.Store.Rows.reject_existing_session tile.Store.Rows.copy_history_items
    tile.Store.Rows.copy_rows
forked_talked = refl

-- The history that the fork copies is not empty.
talked_history : map (λ h. h.item) (select_history talked "s") ≡ greeting
unfolding tile.Store.Tables.select_history tile.Store.Operations.perform_all
    tile.Store.Operations.perform tile.Store.Sqlite.finish_run
    tile.Store.Action.translate_store_errors tile.Store.Action.immediate_transaction
    tile.Store.Rows.get_run_row tile.Store.Tables.select_run tile.Store.Sqlite.start_run
    tile.Store.Rows.require_session tile.Store.Tables.select_session
    tile.Store.Sqlite.create_session tile.Store.Tables.insert_session_row
    tile.Store.Models.new_session_record tile.Store.Rows.active_run_for_session
    tile.Store.Rows.reject_active_run tile.Store.Tables.select_active_run
    tile.Store.Rows.history_for_session tile.Store.Models.new_active_run_record
    tile.Store.Models.terminal_run_record tile.Store.Rows.delta_rows
    tile.Store.Rows.finalize_active_run tile.Store.Rows.get_session_row
    tile.Store.Rows.insert_history_delta tile.Store.Rows.insert_history_rows
    tile.Store.Rows.insert_run tile.Store.Rows.set_updated_at tile.Store.Rows.touch_session
    tile.Store.Sqlite.create_session_block tile.Store.Sqlite.finish_run_block
    tile.Store.Sqlite.start_run_block tile.Store.Tables.insert_by
    tile.Store.Tables.insert_history_row tile.Store.Tables.insert_run_row
    tile.Store.Tables.next_history_position tile.Store.Tables.order_by
    tile.Store.Tables.past_positions tile.Store.Tables.run_exists tile.Store.Tables.session_exists
    tile.Store.Sqlite.fork_session tile.Store.Sqlite.fork_session_block
    tile.Store.Rows.reject_existing_session tile.Store.Rows.copy_history_items
    tile.Store.Rows.copy_rows
talked_history = refl

target_differs : ◌≢◌ {A = String} "t" "s"
target_differs h = let same = (eq_iff "t" "s").1 h in absurd (cc)

fork_session_history_example :
    (map {B = String × ℕ × ConversationItem}
        (λ h. (h.run_id, h.position, h.item))
        (select_history (fork_session 7 fork_ids "s" "t" talked).1 "t")
      ≡ map {B = String × ℕ × ConversationItem}
          (λ h. (h.run_id, h.position, h.item))
          (select_history talked "s"))
    × (select_history (fork_session 7 fork_ids "s" "t" talked).1 "s" ≡ select_history talked "s")
fork_session_history_example =
    fork_session_history 7 fork_ids "s" "t" "s" talked talked-IsConsistent forked_talked
      target_differs

selected_idle : select_run idle "s" "r" ≡ some (terminal ended)
unfolding select_run
selected_idle = refl

ended_for_ever_example :
    (get_run "s" "r" (perform_all some_operations idle)
      ≡ (ok (terminal ended), perform_all some_operations idle))
    × (finish_run 9 ids "s" "r" aborted greeting (perform_all some_operations idle)
        ≡ (err (run_already_ended "r"), perform_all some_operations idle))
ended_for_ever_example =
    ended_for_ever some_operations idle "s" "r" ended 9 ids aborted greeting selected_idle

raised_on_empty : (perform (start 2 "s" "r" "hi" "m" "p") empty).0 ≡ some (session_not_found "s")
unfolding perform start_run translate_store_errors immediate_transaction require_session
    select_session
raised_on_empty = refl

perform_atomic_example : (perform (start 2 "s" "r" "hi" "m" "p") empty).1 ≡ empty
perform_atomic_example = perform_atomic (start 2 "s" "r" "hi" "m" "p") empty raised_on_empty

start_run-admission_example :
    start_run 3 "s" "q" "go" "m" "p" busy
    ≡ admission
        (record {
          run = new_active_run_record 3 "q" "s" "go" "m" "p";
          committed_history = select_history busy "s";
        })
        busy
start_run-admission_example = start_run-admission 3 "s" "q" "go" "m" "p" busy
