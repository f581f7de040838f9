-- ===== src/Store/Effects.antt =====
-- What a successful operation has done to the tables, in one equation for each operation.
pub mod Records
pub mod Finish
pub mod Start
pub mod Abort
pub mod Fork
use tile.Prelude.{
  Result, append-nil, ℕ, max, String, ◌≡◌, refl, Option, none, some, List, [], ◌∷◌, map, ok, err,
  ap, sym, ◌∙◌, any, Bool, true, false, if◌then◌else◌,
}
use tile.Types.Conversation.{ConversationItem}
use tile.Outcome.{run_already_ended, StoreError}
use tile.Store.Models.{SessionRecord, ActiveRun, TerminalRun, RunRecord, active, terminal}
use tile.Store.Action.{Action, continue, Failure, domain}
use tile.Store.Tables.{
  Database, select_session, select_run, next_history_position, is_finished_by, finish_row,
  touch_row,
}
use tile.Store.Rows.{
  require, reject, reject_active_run, found, get_session_row, get_run_row, finalize_active_run,
  delta_rows, insert_history_delta, touch_session, set_updated_at,
}
use tile.Store.Sqlite.{still_active}
use tile.Store.History.Inserts.{with_rows, insert_history_rows_ok}

-- Inversions of the steps that only read: the rest of the chain runs on the same database.
module _ {ℓ} {A B : Type ℓ} (db : Database) {b : B} {db' : Database} where
  pub found-then :
      (o : Option A) (e : StoreError) (f : A → Action Database B)
      → continue (found o e db) f ≡ (ok b, db')
      → (a : A) × (o ≡ some a) × (f a db ≡ (ok b, db'))
  found-then none e f h = absurd (cc)
  found-then (some a) e f h = (a, refl, h)

  pub require-then :
      (o : Option A) (e : StoreError) (f : Unit {0} → Action Database B)
      → continue (require o e db) f ≡ (ok b, db')
      → ((a : A) × (o ≡ some a)) × (f tt db ≡ (ok b, db'))
  require-then none e f h = absurd (cc)
  require-then (some a) e f h = ((a, refl), h)

  pub reject-then :
      (o : Option A) (e : StoreError) (f : Unit {0} → Action Database B)
      → continue (reject o e db) f ≡ (ok b, db')
      → (o ≡ none) × (f tt db ≡ (ok b, db'))
  reject-then none e f h = (refl, h)
  reject-then (some a) e f h = absurd (cc)

module _ {ℓ} {B : Type ℓ} (db : Database) {b : B} {db' : Database} where
  pub still_active-then :
      (run_id : String) (row : RunRecord) (f : ActiveRun → Action Database B)
      → continue (still_active run_id row db) f ≡ (ok b, db')
      → (run : ActiveRun) × (row ≡ active run) × (f run db ≡ (ok b, db'))
  still_active-then run_id (active run) f h = (run, refl, h)
  still_active-then run_id (terminal run) f h = absurd (cc)

  pub reject_active-then :
      (running : Option ActiveRun) (f : Unit {0} → Action Database B)
      → continue (reject_active_run running db) f ≡ (ok b, db')
      → (running ≡ none) × (f tt db ≡ (ok b, db'))
  unfolding reject_active_run
  reject_active-then none f h = (refl, h)
  reject_active-then (some run) f h = absurd (cc)

pub allowed-ok :
    (allowed : Bool) (e : Failure) (after before : Database) {db' : Database}
    → ◌≡◌ {A = Result Failure (Unit {0}) × Database}
        (if allowed then (ok tt, after) else (err e, before))
        (ok tt, db')
    → db' ≡ after
allowed-ok true e after before h = ap (λ r. r.1) (sym h)
allowed-ok false e after before h = absurd (cc)

abbrev pub with_finished : TerminalRun → Database → Database
with_finished run db = record db { runs = map (finish_row run) db.runs }

pub finalize-ok :
    (run : TerminalRun) (db : Database) {db' : Database}
    → finalize_active_run run db ≡ (ok tt, db')
    → db' ≡ with_finished run db
unfolding finalize_active_run
finalize-ok run db h =
    allowed-ok (any (is_finished_by run) db.runs) (domain (run_already_ended run.id))
      (with_finished run db) db h

abbrev pub with_touched : String → ℕ → Database → Database
with_touched id time db = record db { sessions = map (touch_row id time) db.sessions }

pub touch-ok :
    (run : TerminalRun) (db : Database) {db' : Database}
    → touch_session run db ≡ (ok tt, db')
    → (current : SessionRecord) × (select_session db run.session_id ≡ some current)
      × (db' ≡ with_touched run.session_id (max current.updated_at run.ended_at) db)
unfolding touch_session
touch-ok run db h =
    let (current, selected, rest) = found-then db (select_session db run.session_id) _ _ h in
    (current, selected, ap (λ r. r.1) (sym rest))

pub insert_history_delta-ok :
    (uuid : ℕ → String) (run : TerminalRun) (items : List ConversationItem) (db : Database)
    {db' : Database}
    → insert_history_delta uuid run items db ≡ (ok tt, db')
    → db' ≡ with_rows db (delta_rows uuid run (next_history_position db run.session_id) 0 items)
unfolding insert_history_delta
insert_history_delta-ok uuid run [] db h = ap (λ r. r.1) (sym h) ∙ simp append-nil
insert_history_delta-ok uuid run (item ∷ items) db h = insert_history_rows_ok _ db h
