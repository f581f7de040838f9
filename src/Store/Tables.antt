-- ===== src/Store/Tables.antt =====
-- The tables of tile/store/schema.py, and the statements that tile/store/sqlite.py executes on them.
-- A row holds the record that it encodes. `INSERT` checks the constraints of the schema: primary
-- keys, the unique index of a session's active run, unique positions, and foreign keys.
use tile.Prelude.{
  ℕ, ◌+◌, max, String, Bool, true, false, ◌&&◌, not, Option, List, [], ◌∷◌, ◌++◌, str_eq, ◌==◌, leb,
  filter, any, find_first, if◌then◌else◌, ok, err,
}
use tile.Store.Models.{
  SessionRecord, ActiveRun, TerminalRun, RunRecord, active, terminal, HistoryItem, run_id_of,
  session_of,
}
use tile.Store.Action.{Action, integrity}

pub record Database : Type 0 where
  pub sessions : List SessionRecord
  pub runs : List RunRecord
  pub history_items : List HistoryItem

abbrev pub empty : Database
empty = record { sessions = []; runs = []; history_items = [] }

-- SELECT … FROM sessions WHERE id = ?
unfoldable pub select_session : Database → String → Option SessionRecord
select_session db id = find_first (λ s. str_eq s.id id) db.sessions

abbrev pub is_active : RunRecord → Bool
is_active (active r) = true
is_active (terminal r) = false

abbrev pub is_active_of : String → RunRecord → Bool
is_active_of session_id run = str_eq (session_of run) session_id && is_active run

-- SELECT … FROM runs WHERE session_id = ? AND status = 'active'
unfoldable pub select_active_run : Database → String → Option RunRecord
select_active_run db session_id = find_first (is_active_of session_id) db.runs

-- SELECT … FROM runs WHERE session_id = ? AND id = ?
unfoldable pub select_run : Database → String → String → Option RunRecord
select_run db session_id run_id =
    find_first (λ run. str_eq (session_of run) session_id && str_eq (run_id_of run) run_id) db.runs

-- SELECT 1 FROM runs WHERE id = ?
unfoldable pub run_exists : Database → String → Bool
run_exists db run_id = any (λ run. str_eq (run_id_of run) run_id) db.runs

unfoldable pub session_exists : Database → String → Bool
session_exists db id = any (λ s. str_eq s.id id) db.sessions

abbrev pub rows_of : String → List HistoryItem → List HistoryItem
rows_of session_id = filter (λ row. str_eq row.session_id session_id)

-- ORDER BY, as a stable insertion sort.
unfoldable pub insert_by {ℓ} : {A : Type ℓ} → (A → A → Bool) → A → List A → List A
insert_by before a [] = a ∷ []
insert_by before a (b ∷ bs) =
    let rest = insert_by before a bs in if before a b then a ∷ (b ∷ bs) else b ∷ rest

unfoldable pub order_by {ℓ} : {A : Type ℓ} → (A → A → Bool) → List A → List A
unfolding insert_by
order_by before [] = []
order_by before (a ∷ as') = insert_by before a (order_by before as')

-- SELECT … FROM history_items WHERE session_id = ? ORDER BY position
unfoldable pub select_history : Database → String → List HistoryItem
unfolding order_by
select_history db session_id =
    order_by (λ a b. leb a.position b.position) (rows_of session_id db.history_items)

-- SELECT COALESCE(MAX(position), -1) + 1 FROM history_items WHERE session_id = ?
unfoldable pub past_positions : List HistoryItem → ℕ
past_positions [] = 0
past_positions (row ∷ rows) = max (row.position + 1) (past_positions rows)

unfoldable pub next_history_position : Database → String → ℕ
unfolding past_positions
next_history_position db session_id = past_positions (rows_of session_id db.history_items)

abbrev pub write {ℓ} : {S : Type ℓ} → Bool → S → Action S (Unit {0})
write allowed after before = if allowed then (ok tt, after) else (err integrity, before)

-- INSERT INTO sessions
unfoldable pub insert_session_row : SessionRecord → Action Database (Unit {0})
unfolding session_exists
insert_session_row row db =
    write (not (session_exists db row.id)) (record db { sessions = db.sessions ++ row ∷ [] }) db

-- INSERT INTO runs, of an active run
unfoldable pub insert_run_row : ActiveRun → Action Database (Unit {0})
unfolding run_exists session_exists
insert_run_row row db =
    write
      (not (run_exists db row.id)
        && session_exists db row.session_id
        && not (any (is_active_of row.session_id) db.runs))
      (record db { runs = db.runs ++ active row ∷ [] }) db

-- INSERT INTO history_items
abbrev pub history_row_fits : Database → HistoryItem → Bool
history_row_fits db row =
    not (any (λ r. str_eq r.id row.id) db.history_items)
    && not (
        any (λ r. str_eq r.session_id row.session_id && r.position == row.position)
          db.history_items)
    && session_exists db row.session_id
    && run_exists db row.run_id

unfoldable pub insert_history_row : HistoryItem → Action Database (Unit {0})
unfolding run_exists session_exists
insert_history_row row db =
    write (history_row_fits db row) (record db { history_items = db.history_items ++ row ∷ [] }) db

-- UPDATE runs SET status = ?, ended_at = ?, outcome_json = ?
-- WHERE id = ? AND session_id = ? AND status = 'active'
abbrev pub finished_row : TerminalRun → ActiveRun → TerminalRun
finished_row record' run = record {
  id = run.id;
  session_id = run.session_id;
  prompt = run.prompt;
  started_at = run.started_at;
  ended_at = record'.ended_at;
  model = run.model;
  provider = run.provider;
  outcome = record'.outcome;
}

abbrev pub is_finished_by : TerminalRun → RunRecord → Bool
is_finished_by record' (terminal run) = false
is_finished_by record' (active run) =
    str_eq run.id record'.id && str_eq run.session_id record'.session_id

abbrev pub finish_row : TerminalRun → RunRecord → RunRecord
finish_row record' (terminal run) = terminal run
finish_row record' (active run) =
    if str_eq run.id record'.id && str_eq run.session_id record'.session_id
    then terminal (finished_row record' run)
    else active run

-- UPDATE sessions SET updated_at = ? WHERE id = ?
abbrev pub touch_row : String → ℕ → SessionRecord → SessionRecord
touch_row id time row = if str_eq row.id id then record row { updated_at = time } else row
