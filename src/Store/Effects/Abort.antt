-- ===== src/Store/Effects/Abort.antt =====
-- `abort_active_run`, when it succeeds.
use tile.Prelude.{ℕ, max, String, ◌≡◌, refl, ap, sym, ◌∙◌, Option, none, some, ok, true}
use mathlib.Core.Path.{subst}
use tile.Outcome.{aborted}
use tile.Store.Models.{SessionRecord, ActiveRun, TerminalRun, terminal_run_record}
use tile.Store.Action.{continue-ok, operation-ok, returned}
use tile.Store.Tables.{Database, select_session, select_active_run, session_exists}
use tile.Store.Rows.{finalize_active_run, touch_session, active_run_for_session, active_row}
use tile.Store.Sqlite.{abort_active_run, abort_active_run_block, abort_found}
use tile.Store.Effects.{with_finished, with_touched, finalize-ok, touch-ok}
use tile.Store.Effects.Start.{require_session-then}

-- The database after a run has ended with no delta, and its session was touched.
abbrev pub aborted_database : TerminalRun → SessionRecord → Database → Database
aborted_database ended current db =
    with_touched ended.session_id (max current.updated_at ended.ended_at) (with_finished ended db)

-- What `abort_active_run` has done, by its result.
abbrev pub Aborted : ℕ → String → Database → Option TerminalRun → Database → Type 0
Aborted now session_id db none db' =
    (active_row (select_active_run db session_id) ≡ none) × (db' ≡ db)
Aborted now session_id db (some ended) db' =
    (run : ActiveRun) × (active_row (select_active_run db session_id) ≡ some run)
    × (ended ≡ terminal_run_record now run aborted)
    × ((current : SessionRecord) × (select_session db ended.session_id ≡ some current)
        × (db' ≡ aborted_database ended current db))

abort_found-ok :
    (now : ℕ) (session_id : String) (running : Option ActiveRun) (db : Database)
    {result : Option TerminalRun} {db' : Database}
    → active_row (select_active_run db session_id) ≡ running
    → abort_found now running db ≡ (ok result, db')
    → Aborted now session_id db result db'
unfolding select_session terminal_run_record
abort_found-ok now session_id none db {result} {db'} e h =
    let (named, same) = returned h in
    subst (λ r. Aborted now session_id db r db') named (e, sym same)
abort_found-ok now session_id (some run) db {result} {db'} e h =
    let ended = terminal_run_record now run aborted in
    let (u1, s1, first, rest1) = continue-ok (finalize_active_run ended db) _ h in
    let (u2, s2, second, rest2) = continue-ok (touch_session ended s1) _ rest1 in
    let (named, same) = returned rest2 in
    let e1 : s1 ≡ with_finished ended db = finalize-ok ended db first in
    let (current, selected, e2) = touch-ok ended s1 second in
    subst (λ r. Aborted now session_id db r db') named
      (
        run,
        e,
        refl,
        (
          current,
          sym (ap (λ d. select_session d run.session_id) e1) ∙ selected,
          sym same
              ∙ e2
              ∙ ap (with_touched ended.session_id (max current.updated_at ended.ended_at)) e1,
        ),
      )

-- `abort_active_run` ends the active run of an existing session as aborted, or changes nothing where
-- the session has none.
pub abort_active_run-ok :
    (now : ℕ) (session_id : String) (db : Database) {result : Option TerminalRun} {db' : Database}
    → abort_active_run now session_id db ≡ (ok result, db')
    → (session_exists db session_id ≡ true) × Aborted now session_id db result db'
unfolding abort_active_run active_run_for_session
abort_active_run-ok now session_id db h =
    let block = operation-ok "abort_active_run" (abort_active_run_block now session_id) db h in
    let (exists, rest) = require_session-then session_id db _ block in
    (exists, abort_found-ok now session_id _ db refl rest)
