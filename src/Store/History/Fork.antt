-- ===== src/Store/History/Fork.antt =====
-- A fork starts with the source's committed history.
use mathlib.Core.Bool.{false≢true}
use mathlib.Core.Path.{subst, ap₂}
use tile.Prelude.{
  ℕ, suc, String, ◌≡◌, ◌≢◌, refl, ap, sym, ◌∙◌, true, false, List, [], ◌∷◌, ◌++◌, map, str_eq,
  eq_iff, eq_refl, any, All, arith, ok, length, count_up, append-nil, filter-append, if◌then◌else◌,
  Bool-cases, inl, inr,
}
use tile.Types.Conversation.{ConversationItem}
use tile.Store.Models.{SessionRecord, HistoryItem}
use tile.Store.Tables.{Database, rows_of, select_history, session_exists}
use tile.Store.Rows.{copy_rows}
use tile.Store.Sqlite.{fork_session}
use tile.Store.Consistency.{IsConsistent, InOrder, positions}
use tile.Store.History.Inserts.{with_rows}
use tile.Store.History.Finish.{select_history_lem}
use tile.Store.Effects.Start.{with_session}
use tile.Store.Effects.Fork.{fork_session-ok}

module _ (uuid : ℕ → String) (target : String) where
  positions-copy_rows :
      (k : ℕ) (rows : List HistoryItem) → positions (copy_rows uuid target k rows) ≡ positions rows
  unfolding copy_rows
  positions-copy_rows k [] = refl
  positions-copy_rows k (row ∷ rows) = ap (λ l. row.position ∷ l) (positions-copy_rows (suc k) rows)

  length-copy_rows :
      (k : ℕ) (rows : List HistoryItem) → length (copy_rows uuid target k rows) ≡ length rows
  unfolding copy_rows
  length-copy_rows k [] = refl
  length-copy_rows k (row ∷ rows) = ap suc (length-copy_rows (suc k) rows)

  items-copy_rows :
      (k : ℕ) (rows : List HistoryItem)
      → map (λ row. (row.run_id, row.position, row.item)) (copy_rows uuid target k rows)
        ≡ map {B = String × ℕ × ConversationItem} (λ row. (row.run_id, row.position, row.item)) rows
  unfolding copy_rows
  items-copy_rows k [] = refl
  items-copy_rows k (row ∷ rows) =
      ap (λ l. (row.run_id, row.position, row.item) ∷ l) (items-copy_rows (suc k) rows)

  rows_of-copy_rows :
      (session_id : String) (k : ℕ) (rows : List HistoryItem)
      → rows_of session_id (copy_rows uuid target k rows)
        ≡ (if str_eq target session_id then copy_rows uuid target k rows else [])
  unfolding copy_rows
  rows_of-copy_rows session_id k [] = ground arith
  rows_of-copy_rows session_id k (row ∷ rows) =
      ground (arith, rows_of-copy_rows session_id (suc k) rows)

  pub owned-copy_rows :
      (sessions : List SessionRecord) (k : ℕ) (rows : List HistoryItem)
      → any (λ s. str_eq s.id target) sessions ≡ true
      → All
          (λ h. any (λ s. str_eq s.id h.session_id) sessions ≡ true)
          (copy_rows uuid target k rows)
  unfolding copy_rows
  owned-copy_rows sessions k [] e = tt
  owned-copy_rows sessions k (row ∷ rows) e = (e, owned-copy_rows sessions (suc k) rows e)

-- A session that is not in its table has no history rows.
rows_of-unknown :
    (sessions : List SessionRecord) (session_id : String) (rows : List HistoryItem)
    → any (λ s. str_eq s.id session_id) sessions ≡ false
    → All (λ h. any (λ s. str_eq s.id h.session_id) sessions ≡ true) rows
    → rows_of session_id rows ≡ []
rows_of-unknown sessions session_id [] e o = refl
rows_of-unknown sessions session_id (row ∷ rows) e o =
    elim (Bool-cases (str_eq row.session_id session_id)) [
      | inl t ↦ absurd (
          false≢true (
            sym e
            ∙ ap (λ id. any (λ s. str_eq s.id id) sessions)
                (sym ((eq_iff row.session_id session_id).0 t))
            ∙ o.0))
      | inr f ↦ rw f (rows_of-unknown sessions session_id rows e o.1)
    ]

module _ (uuid : ℕ → String) (source target : String) (db : Database) (c : IsConsistent db)
    (unknown : session_exists db target ≡ false) where
  -- The rows that a fork copies.
  abbrev pub copied : SessionRecord → List HistoryItem
  copied row = copy_rows uuid target 0 (select_history (with_session row db) source)

  pub rows_of-forked_self :
      (row : SessionRecord) → rows_of target (db.history_items ++ copied row) ≡ copied row
  unfolding session_exists
  rows_of-forked_self row =
      filter-append _ db.history_items (copied row)
      ∙ ap₂ (λ a b. a ++ b)
          (rows_of-unknown db.sessions target db.history_items unknown c.history_owned)
          (rows_of-copy_rows uuid target target 0 _ ∙ rw eq_refl refl)

  pub rows_of-forked_other :
      (row : SessionRecord) (session_id : String)
      → str_eq target session_id ≡ false
      → rows_of session_id (db.history_items ++ copied row) ≡ rows_of session_id db.history_items
  rows_of-forked_other row session_id e =
      filter-append _ db.history_items (copied row)
      ∙ ap (λ l. rows_of session_id db.history_items ++ l)
          (rows_of-copy_rows uuid target session_id 0 _ ∙ rw e refl)
      ∙ append-nil _

  pub select_history-source :
      (row : SessionRecord)
      → select_history (with_session row db) source ≡ rows_of source db.history_items
  select_history-source row =
      select_history_lem (with_session row db) source (c.history_order source)

  pub InOrder-forked :
      (row : SessionRecord) (session_id : String)
      → InOrder (rows_of session_id (db.history_items ++ copied row))
  InOrder-forked row session_id = elim (Bool-cases (str_eq target session_id)) [
    | inl e ↦
        subst (λ id. InOrder (rows_of id (db.history_items ++ copied row)))
          ((eq_iff target session_id).0 e)
          (rw (rows_of-forked_self row) (
            positions-copy_rows uuid target 0 _
            ∙ ap positions (select_history-source row)
            ∙ c.history_order source
            ∙ ap (count_up 0)
                (sym (length-copy_rows uuid target 0 _ ∙ ap length (select_history-source row)))))
    | inr e ↦ rw (rows_of-forked_other row session_id e) (c.history_order session_id)
  ]

-- A fork of a session of a consistent database has the source's items at the same positions and with
-- the same run ids, and any session but the target keeps its history.
pub fork_session_history :
    (now : ℕ) (uuid : ℕ → String) (source target other : String) (db : Database)
    {row : SessionRecord} {db' : Database}
    → IsConsistent db
    → fork_session now uuid source target db ≡ (ok row, db')
    → target ≢ other
    → (map {B = String × ℕ × ConversationItem}
          (λ h. (h.run_id, h.position, h.item))
          (select_history db' target)
        ≡ map {B = String × ℕ × ConversationItem}
            (λ h. (h.run_id, h.position, h.item))
            (select_history db source))
      × (select_history db' other ≡ select_history db other)
fork_session_history now uuid source target other db {row} {db'} c h differs =
    let (_, unknown, _, left) = fork_session-ok now uuid source target db h in
    let after = λ (id : String).
      ap (λ d. select_history d id) left
      ∙ select_history_lem
          (with_rows (with_session row db) (copied uuid source target db c unknown row)) id
          (InOrder-forked uuid source target db c unknown row id) in
    (
      ap (map _) (after target ∙ rows_of-forked_self uuid source target db c unknown row)
          ∙ items-copy_rows uuid target 0 _
          ∙ ap (map _) (
              select_history-source uuid source target db c unknown row
              ∙ sym (select_history_lem db source (c.history_order source))),
      after other
          ∙ rows_of-forked_other uuid source target db c unknown row other
              (ground (arith, eq_iff target other))
          ∙ sym (select_history_lem db other (c.history_order other)),
    )
