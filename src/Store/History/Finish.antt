-- ===== src/Store/History/Finish.antt =====
-- A finished run's delta becomes the end of its session's history.
use native.Mathlib.Nat.{add-zero}
use mathlib.Core.Path.{ap₂}
use tile.Prelude.{
  Bool-cases, inl, inr, ◌≢◌, ℕ, String, ◌≡◌, refl, ap, sym, ◌∙◌, false, some, List, ◌++◌, map,
  map-append, str_eq, eq_iff, eq_refl, ok, arith, append-nil, filter-append, find_first-holds,
  length, count_up,
}
use tile.Types.Conversation.{ConversationItem}
use tile.Outcome.{RunOutcome}
use tile.Store.Models.{
  terminal_run_record, HistoryItem, TerminalRun, active, ActiveRun, SessionRecord,
}
use tile.Store.Tables.{Database, rows_of, select_history, select_run, next_history_position}
use tile.Store.Rows.{delta_rows}
use tile.Store.Sqlite.{finish_run}
use tile.Store.Consistency.{IsConsistent, InOrder}
use tile.Store.Consistency.Order.{order_sorted, past_positions_lem, InOrder-append}
use tile.Store.History.Inserts.{items-delta_rows, positions-delta_rows, rows_of-delta_rows}
use tile.Store.Effects.Finish.{finish_run-ok, ended_database}

pub select_history_lem :
    (db : Database) (session_id : String)
    → InOrder (rows_of session_id db.history_items)
    → select_history db session_id ≡ rows_of session_id db.history_items
unfolding select_history
select_history_lem db session_id h = order_sorted (rows_of session_id db.history_items) h

pub next_history_position_lem :
    (db : Database) (session_id : String)
    → InOrder (rows_of session_id db.history_items)
    → next_history_position db session_id ≡ length (rows_of session_id db.history_items)
unfolding next_history_position
next_history_position_lem db session_id h =
    past_positions_lem (rows_of session_id db.history_items) h

module _ (uuid : ℕ → String) (run : TerminalRun) (db : Database)
    (items : List ConversationItem) where
  -- The rows that a delta adds.
  abbrev pub added : List HistoryItem
  added = delta_rows uuid run (next_history_position db run.session_id) 0 items

  pub rows_of-added_self :
      (session_id : String)
      → run.session_id ≡ session_id
      → rows_of session_id (db.history_items ++ added)
        ≡ rows_of session_id db.history_items ++ added
  rows_of-added_self session_id e =
      filter-append _ db.history_items added
      ∙ ap (λ l. rows_of session_id db.history_items ++ l)
          (rows_of-delta_rows uuid run _ session_id 0 items ∙ rw (e, eq_refl) refl)

  pub rows_of-added_other :
      (session_id : String)
      → str_eq run.session_id session_id ≡ false
      → rows_of session_id (db.history_items ++ added) ≡ rows_of session_id db.history_items
  rows_of-added_other session_id e =
      filter-append _ db.history_items added
      ∙ ap (λ l. rows_of session_id db.history_items ++ l)
          (rows_of-delta_rows uuid run _ session_id 0 items ∙ rw e refl)
      ∙ append-nil _

  pub InOrder-added :
      (session_id : String)
      → ((id : String) → InOrder (rows_of id db.history_items))
      → InOrder (rows_of session_id (db.history_items ++ added))
  InOrder-added session_id h = elim (Bool-cases (str_eq run.session_id session_id)) [
    | inl e ↦
        let same = (eq_iff run.session_id session_id).0 e in
        rw (rows_of-added_self session_id same) (
          InOrder-append (rows_of session_id db.history_items) added (h session_id)
            (goes_on session_id same))
    | inr e ↦ rw (rows_of-added_other session_id e) (h session_id)
  ]
    where
      goes_on :
          (id : String)
          → run.session_id ≡ id
          → map (λ row. row.position) added
            ≡ count_up (length (rows_of id db.history_items)) (length added)
      goes_on id same =
          positions-delta_rows uuid run _ 0 items
          ∙ ap (λ n. count_up n (length added))
              (add-zero _
                ∙ next_history_position_lem db run.session_id (h run.session_id)
                ∙ ap (λ s. length (rows_of s db.history_items)) same)

pub select_run-ids :
    (db : Database) (session_id run_id : String) (run : ActiveRun)
    → select_run db session_id run_id ≡ some (active run)
    → (run.session_id ≡ session_id) × (run.id ≡ run_id)
unfolding select_run
select_run-ids db session_id run_id run h = ground (
  arith,
  find_first-holds _ db.runs (active run) h,
  eq_iff run.session_id session_id,
  eq_iff run.id run_id,
)

history-ended :
    (uuid : ℕ → String) (ended : TerminalRun) (current : SessionRecord)
    (items : List ConversationItem) (db : Database)
    → (ended_database uuid ended current items db).history_items
      ≡ db.history_items ++ added uuid ended db items
unfolding next_history_position
history-ended uuid ended current items db = refl

-- The history of a session in the database that `finish_run` leaves.
pub select_history-ended :
    (uuid : ℕ → String) (ended : TerminalRun) (current : SessionRecord)
    (items : List ConversationItem) (db : Database) (session_id : String)
    → IsConsistent db
    → select_history (ended_database uuid ended current items db) session_id
      ≡ rows_of session_id (db.history_items ++ added uuid ended db items)
select_history-ended uuid ended current items db session_id c =
    let stored = history-ended uuid ended current items db in
    select_history_lem _ session_id
      (rw stored (InOrder-added uuid ended db items session_id c.history_order))
    ∙ ap (rows_of session_id) stored

pub finish_run-appends :
    (now : ℕ) (uuid : ℕ → String) (session_id run_id : String) (outcome : RunOutcome)
    (items : List ConversationItem) (db : Database) {run : TerminalRun} {db' : Database}
    → IsConsistent db
    → finish_run now uuid session_id run_id outcome items db ≡ (ok run, db')
    → map (λ row. row.item) (select_history db' session_id)
      ≡ map (λ row. row.item) (select_history db session_id) ++ items
unfolding terminal_run_record
finish_run-appends now uuid session_id run_id outcome items db {run} c h =
    let (before, selected, named, (current, _, left)) =
      finish_run-ok now uuid session_id run_id outcome items db h in
    let own : run.session_id ≡ session_id =
      ap (λ r. r.session_id) named ∙ (select_run-ids db session_id run_id before selected).0 in
    ap (map _) (
      ap (λ d. select_history d session_id) left
      ∙ select_history-ended uuid run current items db session_id c
      ∙ rows_of-added_self uuid run db items session_id own)
    ∙ map-append _ _ (added uuid run db items)
    ∙ ap₂ (λ a b. a ++ b)
        (ap (map _) (sym (select_history_lem db session_id (c.history_order session_id))))
        (items-delta_rows uuid run _ 0 items)

-- When a run of a consistent database is finished, its session's committed history grows by exactly
-- the delta's items, in order, and the history of any other session stays as it was.
pub finish_run_history :
    (now : ℕ) (uuid : ℕ → String) (session_id run_id : String) (outcome : RunOutcome)
    (items : List ConversationItem) (db : Database) (other : String) {run : TerminalRun}
    {db' : Database}
    → IsConsistent db
    → finish_run now uuid session_id run_id outcome items db ≡ (ok run, db')
    → session_id ≢ other
    → (map (λ row. row.item) (select_history db' session_id)
        ≡ map (λ row. row.item) (select_history db session_id) ++ items)
      × (select_history db' other ≡ select_history db other)
unfolding terminal_run_record
finish_run_history now uuid session_id run_id outcome items db other {run} c h differs =
    let (before, selected, named, (current, _, left)) =
      finish_run-ok now uuid session_id run_id outcome items db h in
    let own : run.session_id ≡ session_id =
      ap (λ r. r.session_id) named ∙ (select_run-ids db session_id run_id before selected).0 in
    (
      finish_run-appends now uuid session_id run_id outcome items db c h,
      ap (λ d. select_history d other) left
          ∙ select_history-ended uuid run current items db other c
          ∙ rows_of-added_other uuid run db items other
              (ground (arith, eq_iff run.session_id other))
          ∙ sym (select_history_lem db other (c.history_order other)),
    )
