-- ===== src/Store/Consistency.antt =====
-- What holds of the database between two operations.
pub mod Order
pub mod Ids
pub mod Rows
pub mod Operations
use tile.Prelude.{
  ℕ, ◌≤◌, String, ◌≡◌, true, List, [], ◌∷◌, map, any, str_eq, length, All, Distinct, count_up,
}
use tile.Store.Models.{
  SessionRecord, RunRecord, active, terminal, HistoryItem, run_id_of, session_of,
}
use tile.Store.Tables.{Database, rows_of}

-- The sessions of the active runs, one for each run.
abbrev pub busy_sessions : List RunRecord → List String
busy_sessions [] = []
busy_sessions (active run ∷ runs) = run.session_id ∷ busy_sessions runs
busy_sessions (terminal run ∷ runs) = busy_sessions runs

abbrev pub session_ids : List SessionRecord → List String
session_ids = map (λ s. s.id)

abbrev pub positions : List HistoryItem → List ℕ
positions = map (λ row. row.position)

-- The rows stand in the order of their positions, and the positions are 0, 1, ….
abbrev pub InOrder : List HistoryItem → Type 0
InOrder rows = positions rows ≡ count_up 0 (length rows)

-- No two rows of the history have the same id.
abbrev pub RowsDistinct : Database → Type 0
RowsDistinct db = Distinct (map (λ row. row.id) db.history_items)

abbrev pub RunTimes : RunRecord → Type 0
RunTimes (active run) = Unit
RunTimes (terminal run) = run.started_at ≤ run.ended_at

pub record IsConsistent (db : Database) : Type 0 where
  pub sessions_distinct : Distinct (session_ids db.sessions)
  pub runs_distinct : Distinct (map run_id_of db.runs)
  pub one_active : Distinct (busy_sessions db.runs)
  pub session_times : All (λ s. s.created_at ≤ s.updated_at) db.sessions
  pub run_times : All RunTimes db.runs
  pub history_distinct : RowsDistinct db
  pub history_owned :
      All (λ row. any (λ s. str_eq s.id row.session_id) db.sessions ≡ true) db.history_items
  pub history_order : (session_id : String) → InOrder (rows_of session_id db.history_items)
