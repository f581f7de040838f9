-- ===== src/Store/Effects/Start.antt =====
-- `create_session` and `start_run`, when they succeed.
use tile.Prelude.{
  Option-cases, find_first-any, inl, inr, ℕ, String, ◌≡◌, refl, ap, sym, ◌∙◌, Bool, true, false, [],
  ◌∷◌, ◌++◌, any, arith, ok, err, Result,
}
use tile.Store.Models.{
  SessionRecord, ActiveRun, active, StartedRun, new_session_record, new_active_run_record,
}
use tile.Store.Effects.{reject_active-then}
use tile.Store.Action.{
  settle-ok, translated-ok, returned, continue, Failure, Action, domain, integrity, continue-ok,
  operation-ok, translate_store_errors, immediate_transaction,
}
use tile.Store.Tables.{
  write, Database, select_session, select_active_run, select_history, session_exists, run_exists,
  insert_session_row, insert_run_row, is_active_of,
}
use tile.Store.Rows.{
  history_for_session, require_session, active_run_for_session, active_row, insert_run,
  insert_failed,
}
use tile.Store.Sqlite.{create_session, start_run, start_run_block, created}

abbrev pub with_session : SessionRecord → Database → Database
with_session row db = record db { sessions = db.sessions ++ row ∷ [] }

abbrev pub with_run : ActiveRun → Database → Database
with_run row db = record db { runs = db.runs ++ active row ∷ [] }

write-ok :
    (allowed : Bool) (after before : Database) {db' : Database}
    → write allowed after before ≡ (ok tt, db')
    → (allowed ≡ true) × (db' ≡ after)
write-ok true after before h = (refl, ap (λ r. r.1) (sym h))
write-ok false after before h = absurd (cc)

pub insert_session-ok :
    (row : SessionRecord) (db : Database) {db' : Database}
    → insert_session_row row db ≡ (ok tt, db')
    → (session_exists db row.id ≡ false) × (db' ≡ with_session row db)
unfolding insert_session_row
insert_session-ok row db h =
    let (allowed, left) = write-ok _ _ _ h in (ground (arith, allowed), left)

pub require_session-then {ℓ} :
    {B : Type ℓ} (session_id : String) (db : Database) (f : Unit {0} → Action Database B) {b : B}
    {db' : Database}
    → continue (require_session session_id db) f ≡ (ok b, db')
    → (session_exists db session_id ≡ true) × (f tt db ≡ (ok b, db'))
unfolding require_session session_exists select_session
require_session-then session_id db f h = elim (Option-cases (select_session db session_id)) [
  | inl e ↦ absurd (cc (rw (e) at h))
  | inr (row, e) ↦ (find_first-any _ db.sessions row e, rw e at h)
]

insert_failed-ok :
    (id : String) (r : Result Failure (Unit {0}) × Database) {db' : Database}
    → insert_failed id r ≡ (ok tt, db')
    → r ≡ (ok tt, db')
insert_failed-ok id (ok u, db) h = h
insert_failed-ok id (err e, db) h = absurd (cc)

pub insert_run-ok :
    (row : ActiveRun) (db : Database) {db' : Database}
    → insert_run row db ≡ (ok tt, db')
    → (run_exists db row.id ≡ false)
      × (session_exists db row.session_id ≡ true)
      × (any (is_active_of row.session_id) db.runs ≡ false)
      × (db' ≡ with_run row db)
unfolding insert_run insert_run_row
insert_run-ok row db h =
    let (allowed, left) = write-ok _ _ _ (insert_failed-ok row.id _ h) in
    (ground (arith, allowed), ground (arith, allowed), ground (arith, allowed), left)

created-ok :
    (id : String) (r : Result Failure SessionRecord × Database) {row : SessionRecord}
    {db' : Database}
    → created id r ≡ (ok row, db')
    → r ≡ (ok row, db')
created-ok id (ok r, db) h = h
created-ok id (err integrity, db) h = absurd (cc)
created-ok id (err (domain e), db) h = absurd (cc)

-- `create_session` adds a session with a new id, and nothing else.
pub create_session-ok :
    (now : ℕ) (session_id : String) (db : Database) {row : SessionRecord} {db' : Database}
    → create_session now session_id db ≡ (ok row, db')
    → (session_exists db session_id ≡ false)
      × (row ≡ new_session_record now session_id)
      × (db' ≡ with_session row db)
unfolding create_session translate_store_errors immediate_transaction new_session_record
create_session-ok now session_id db {row} {db'} h =
    let block = settle-ok db _ (created-ok session_id _ (translated-ok "create_session" _ h)) in
    let (u, next, inserted, rest) =
      continue-ok (insert_session_row (new_session_record now session_id) db) _ block in
    let (fresh, left) = insert_session-ok (new_session_record now session_id) db inserted in
    let (named, same) = returned rest in
    (fresh, sym named, sym same ∙ left ∙ ap (λ r. with_session r db) named)

-- `start_run` adds an active run with a new id to a session that has none, and returns the
-- session's committed history.
pub start_run-ok :
    (now : ℕ) (session_id run_id prompt model provider : String) (db : Database)
    {started : StartedRun} {db' : Database}
    → start_run now session_id run_id prompt model provider db ≡ (ok started, db')
    → (session_exists db session_id ≡ true)
      × (run_exists db run_id ≡ false)
      × (any (is_active_of session_id) db.runs ≡ false)
      × (started ≡ record {
        run = new_active_run_record now run_id session_id prompt model provider;
        committed_history = select_history db session_id;
      })
      × (db' ≡ with_run started.run db)
unfolding start_run active_run_for_session history_for_session new_active_run_record
start_run-ok now session_id run_id prompt model provider db {started} {db'} h =
    let block =
      operation-ok "start_run" (start_run_block now session_id run_id prompt model provider) db h in
    let run = new_active_run_record now run_id session_id prompt model provider in
    let (exists, rest1) = require_session-then session_id db _ block in
    let (none_active, rest2) =
      reject_active-then db (active_row (select_active_run db session_id)) _ rest1 in
    let (u, next, inserted, rest3) = continue-ok (insert_run run db) _ rest2 in
    let (fresh, _, free, left) = insert_run-ok run db inserted in
    let (named, same) = returned rest3 in
    (exists, fresh, free, sym named, sym same ∙ left ∙ ap (λ r. with_run r.run db) named)
