-- ===== src/Store/Effects/Fork.antt =====
-- `fork_session`, when it succeeds.
use tile.Prelude.{ℕ, String, ◌≡◌, ap, sym, ◌∙◌, true, false, ok}
use tile.Store.Models.{SessionRecord, new_session_record}
use tile.Store.Action.{continue-ok, operation-ok, returned}
use tile.Store.Tables.{Database, select_session, select_history, session_exists, insert_session_row}
use tile.Store.Rows.{reject_existing_session, history_for_session, copy_history_items, copy_rows}
use tile.Store.Sqlite.{fork_session, fork_session_block}
use tile.Store.History.Inserts.{with_rows, insert_history_rows_ok}
use tile.Store.Effects.{reject-then}
use tile.Store.Effects.Start.{require_session-then, with_session, insert_session-ok}

-- `fork_session` adds a session with a new id, and a copy of the source's history rows.
pub fork_session-ok :
    (now : ℕ) (uuid : ℕ → String) (source target : String) (db : Database) {row : SessionRecord}
    {db' : Database}
    → fork_session now uuid source target db ≡ (ok row, db')
    → (session_exists db source ≡ true)
      × (session_exists db target ≡ false)
      × (row ≡ new_session_record now target)
      × (db'
          ≡ with_rows
              (with_session row db)
              (copy_rows uuid target 0 (select_history (with_session row db) source)))
unfolding fork_session reject_existing_session history_for_session copy_history_items
    new_session_record
fork_session-ok now uuid source target db h =
    let block = operation-ok "fork_session" (fork_session_block now uuid source target) db h in
    let (exists, rest1) = require_session-then source db _ block in
    let (_, rest2) = reject-then db (select_session db target) _ _ rest1 in
    let (u1, s1, first, rest3) =
      continue-ok (insert_session_row (new_session_record now target) db) _ rest2 in
    let (fresh, e1) = insert_session-ok (new_session_record now target) db first in
    let (u2, s2, second, rest4) =
      continue-ok (copy_history_items uuid (select_history s1 source) target s1) _ rest3 in
    let (named, same) = returned rest4 in
    let e2 = insert_history_rows_ok _ s1 second in
    (
      exists,
      fresh,
      sym named,
      sym same
          ∙ e2
          ∙ ap (λ d. with_rows d (copy_rows uuid target 0 (select_history d source)))
              (e1 ∙ ap (λ r. with_session r db) named),
    )
