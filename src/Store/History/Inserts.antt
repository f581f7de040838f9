-- ===== src/Store/History/Inserts.antt =====
-- Inserted rows: what a batch of inserts leaves, and the rows that a run's delta becomes.
use tile.Prelude.{
  ℕ, suc, ◌+◌, String, ◌≡◌, refl, ap, sym, ◌∙◌, List, [], ◌∷◌, ◌++◌, map, arith, str_eq, length,
  count_up, append_assoc, append-nil, if◌then◌else◌, ok, Bool-cases, inl, inr,
}
use native.Mathlib.Nat.{add-suc}
use tile.Store.Action.{continue-ok}
use tile.Types.Conversation.{ConversationItem}
use tile.Store.Models.{HistoryItem, TerminalRun}
use tile.Store.Tables.{Database, rows_of, insert_history_row, history_row_fits}
use tile.Store.Rows.{insert_history_rows, delta_rows}

abbrev pub with_rows : Database → List HistoryItem → Database
with_rows db rows = record db { history_items = db.history_items ++ rows }

insert_history_row_ok :
    (row : HistoryItem) (db : Database)
    → (insert_history_row row db).0 ≡ ok tt
    → insert_history_row row db ≡ (ok tt, with_rows db (row ∷ []))
unfolding insert_history_row
insert_history_row_ok row db h = elim (Bool-cases (history_row_fits db row)) [
  | inl e ↦ rw e
  | inr e ↦ ground arith
]

with_rows-with_rows :
    (db : Database) (xs ys : List HistoryItem)
    → with_rows (with_rows db xs) ys ≡ with_rows db (xs ++ ys)
with_rows-with_rows db xs ys = ap (λ l. record db { history_items = l }) (append_assoc _ xs ys)

-- A batch that is accepted has added its rows, in order, at the end of the table, and nothing else.
pub insert_history_rows_ok :
    (rows : List HistoryItem) (db : Database) {db' : Database}
    → insert_history_rows rows db ≡ (ok tt, db')
    → db' ≡ with_rows db rows
unfolding insert_history_rows
insert_history_rows_ok [] db h = ap (λ r. r.1) (sym h) ∙ simp append-nil
insert_history_rows_ok (row ∷ rows) db h =
    let (u, next, first, rest) = continue-ok (insert_history_row row db) _ h in
    let inserted : next ≡ with_rows db (row ∷ []) =
      sym (ap (λ r. r.1) first)
      ∙ ap (λ r. r.1) (insert_history_row_ok row db (ap (λ r. r.0) first)) in
    insert_history_rows_ok rows next rest
    ∙ ap (λ d. with_rows d rows) inserted
    ∙ with_rows-with_rows db (row ∷ []) rows

module _ (uuid : ℕ → String) (run : TerminalRun) (first : ℕ) where
  pub items-delta_rows :
      (k : ℕ) (items : List ConversationItem)
      → map (λ row. row.item) (delta_rows uuid run first k items) ≡ items
  unfolding delta_rows
  items-delta_rows k [] = refl
  items-delta_rows k (item ∷ items) = ap (λ l. item ∷ l) (items-delta_rows (suc k) items)

  pub positions-delta_rows :
      (k : ℕ) (items : List ConversationItem)
      → map (λ row. row.position) (delta_rows uuid run first k items)
        ≡ count_up (first + k) (length (delta_rows uuid run first k items))
  unfolding delta_rows
  positions-delta_rows k [] = refl
  positions-delta_rows k (item ∷ items) =
      ap (λ l. (first + k) ∷ l) (rw (← add-suc first k) (positions-delta_rows (suc k) items))

  pub rows_of-delta_rows :
      (session_id : String) (k : ℕ) (items : List ConversationItem)
      → rows_of session_id (delta_rows uuid run first k items)
        ≡ (if str_eq run.session_id session_id then delta_rows uuid run first k items else [])
  unfolding delta_rows
  rows_of-delta_rows session_id k [] = ground arith
  rows_of-delta_rows session_id k (item ∷ items) =
      ground (arith, rows_of-delta_rows session_id (suc k) items)
