-- ===== src/Store/Consistency/Operations.antt =====
-- The operations that succeed keep the database consistent.
use tile.Prelude.{
  any-append, ◌||◌, eq_refl, ℕ, suc, ◌≤◌, String, ◌≡◌, refl, sym, ◌∙◌, true, false, Option, none,
  some, List, [], ◌∷◌, ◌++◌, str_eq, any, All, arith, ok, find_first-any,
}
use mathlib.Core.Path.{subst}
use tile.Types.Conversation.{ConversationItem}
use tile.Outcome.{RunOutcome, aborted}
use tile.Store.Models.{
  SessionRecord, ActiveRun, TerminalRun, active, terminal, RunRecord, terminal_run_record,
  new_session_record,
}
use tile.Store.Tables.{Database, select_session, select_run, select_active_run, session_exists}
use tile.Store.Rows.{delta_rows, active_row}
use tile.Store.Sqlite.{finish_run, fork_session}
use tile.Store.Consistency.{IsConsistent, RowsDistinct}
use tile.Store.Consistency.Ids.{finish_run-Keeps, fork_session-Keeps}
use tile.Store.Consistency.Rows.{
  with_session-IsConsistent, with_finished-IsConsistent, with_touched-IsConsistent,
  with_rows-IsConsistent,
}
use tile.Store.Effects.{with_finished}
use tile.Store.Effects.Start.{with_session}
use tile.Store.Effects.Finish.{finish_run-ok, ended_database}
use tile.Store.Effects.Abort.{Aborted}
use tile.Store.Effects.Fork.{fork_session-ok}
use tile.Store.History.Fork.{owned-copy_rows, InOrder-forked}
use tile.Store.History.Finish.{added, InOrder-added}

owned-delta :
    (uuid : ℕ → String) (run : TerminalRun) (first k : ℕ) (items : List ConversationItem)
    (db : Database)
    → session_exists db run.session_id ≡ true
    → All
        (λ h. any (λ s. str_eq s.id h.session_id) db.sessions ≡ true)
        (delta_rows uuid run first k items)
unfolding delta_rows session_exists
owned-delta uuid run first k [] db e = tt
owned-delta uuid run first k (item ∷ items) db e =
    (e, owned-delta uuid run first (suc k) items db e)

selected-exists :
    (db : Database) (id : String) (current : SessionRecord)
    → select_session db id ≡ some current
    → session_exists db id ≡ true
unfolding select_session session_exists
selected-exists db id current h = find_first-any _ db.sessions current h

ended_database-IsConsistent :
    (uuid : ℕ → String) (ended : TerminalRun) (current : SessionRecord)
    (items : List ConversationItem) (db : Database)
    → select_session db ended.session_id ≡ some current
    → RowsDistinct (ended_database uuid ended current items db)
    → IsConsistent (with_finished ended db)
    → IsConsistent (ended_database uuid ended current items db)
unfolding select_session
ended_database-IsConsistent uuid ended current items db selected distinct c =
    with_touched-IsConsistent ended.session_id _ current _ selected (omega arith) (
      with_rows-IsConsistent (added uuid ended (with_finished ended db) items)
        (with_finished ended db)
        (owned-delta uuid ended _ 0 items (with_finished ended db)
          (selected-exists (with_finished ended db) ended.session_id current selected))
        (λ id. InOrder-added uuid ended (with_finished ended db) items id c.history_order) distinct
        c)

pub finish_run-IsConsistent :
    (now : ℕ) (uuid : ℕ → String) (session_id run_id : String) (outcome : RunOutcome)
    (items : List ConversationItem) (db : Database) {record' : TerminalRun} {db' : Database}
    → IsConsistent db
    → finish_run now uuid session_id run_id outcome items db ≡ (ok record', db')
    → IsConsistent db'
unfolding select_run terminal_run_record
finish_run-IsConsistent now uuid session_id run_id outcome items db c h =
    let (run, selected, named, (current, is_current, left)) =
      finish_run-ok now uuid session_id run_id outcome items db h in
    subst IsConsistent (sym left) (
      ended_database-IsConsistent uuid _ current items db is_current
        (subst RowsDistinct left (
          subst (λ r. RowsDistinct (r.1)) h
            (finish_run-Keeps now uuid session_id run_id outcome items db c.history_distinct)))
        (subst (λ r. IsConsistent (with_finished r db)) (sym named)
          (with_finished-IsConsistent (terminal_run_record now run outcome) run _ db selected refl
            (omega arith) c)))

pub active_row-some :
    (o : Option RunRecord) {run : ActiveRun} → active_row o ≡ some run → o ≡ some (active run)
active_row-some none h = absurd (cc)
active_row-some (some (active r)) h = cc
active_row-some (some (terminal r)) h = absurd (cc)

pub Aborted-IsConsistent :
    (now : ℕ) (session_id : String) (db : Database) (result : Option TerminalRun) (db' : Database)
    → IsConsistent db
    → Aborted now session_id db result db'
    → IsConsistent db'
unfolding select_active_run select_session terminal_run_record
Aborted-IsConsistent now session_id db none db' c a = subst IsConsistent (sym a.1) c
Aborted-IsConsistent now session_id db (some ended) db' c
      (run, running, named, (current, is_current, left)) =
    subst IsConsistent (sym left) (
      with_touched-IsConsistent ended.session_id _ current _ (is_current) (omega arith) (
        subst (λ r. IsConsistent (with_finished r db)) (sym named)
          (with_finished-IsConsistent (terminal_run_record now run aborted) run _ db
            (active_row-some _ running) refl (omega arith) c)))

pub forked-IsConsistent :
    (now : ℕ) (uuid : ℕ → String) (source target : String) (db : Database) {row : SessionRecord}
    {db' : Database}
    → IsConsistent db
    → fork_session now uuid source target db ≡ (ok row, db')
    → IsConsistent db'
unfolding new_session_record session_exists
forked-IsConsistent now uuid source target db {row} c h =
    let (_, unknown, named, left) = fork_session-ok now uuid source target db h in
    let joined =
      with_session-IsConsistent row db
        (subst (λ r. session_exists db r.id ≡ false) (sym named) unknown)
        (subst (λ r. r.created_at ≤ r.updated_at) (sym named) (omega arith)) c in
    subst IsConsistent (sym left) (
      with_rows-IsConsistent _ (with_session row db)
        (owned-copy_rows uuid target (db.sessions ++ row ∷ []) 0 _ (
          any-append _ db.sessions (row ∷ [])
          ∙ subst
              (λ r.
                (any (λ s. str_eq s.id target) db.sessions
                  || any (λ s. str_eq s.id target) (r ∷ []))
                ≡ true)
              (sym named) (ground (arith, eq_refl target))))
        (InOrder-forked uuid source target db c unknown row)
        (subst RowsDistinct left (
          subst (λ r. RowsDistinct (r.1)) h
            (fork_session-Keeps now uuid source target db c.history_distinct)))
        joined)
