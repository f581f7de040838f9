-- ===== src/Store/Operations/Atomic.antt =====
-- Every operation is all or nothing.
use tile.Prelude.{none, String, ◌≡◌, refl, ◌∙◌, some, Result, ok, err}
use tile.Outcome.{StoreError}
use tile.Store.Models.{SessionRecord}
use tile.Store.Action.{
  Failure, domain, integrity, operation-err, translated-err, settle-err, translate_store_errors,
  immediate_transaction,
}
use tile.Store.Tables.{Database}
use tile.Store.Sqlite.{
  create_session, created, create_session_block, start_run_block, finish_run_block,
  abort_active_run_block, fork_session_block, start_run, finish_run, abort_active_run, fork_session,
}
use tile.Store.Operations.{Operation, perform, create, start, finish, abort, fork, summary}

pub summary-ok {ℓ} :
    {A : Type ℓ} (r : Result StoreError A × Database)
    → (summary r).0 ≡ none
    → (a : A) × (r ≡ (ok a, (summary r).1))
summary-ok (ok a, db) h = (a, refl)
summary-ok (err x, db) h = absurd (cc)

summary-err {ℓ} :
    {A : Type ℓ} (r : Result StoreError A × Database) {e : StoreError}
    → (summary r).0 ≡ some e
    → (r.0 ≡ err e) × ((summary r).1 ≡ r.1)
summary-err (ok a, db) h = absurd (cc)
summary-err (err x, db) h = (cc, refl)

created-err :
    (id : String) (r : Result Failure SessionRecord × Database) {e : Failure}
    → (created id r).0 ≡ err e
    → ((f : Failure) × (r.0 ≡ err f)) × ((created id r).1 ≡ r.1)
created-err id (ok a, db) h = absurd (cc)
created-err id (err integrity, db) h = ((integrity, refl), refl)
created-err id (err (domain e), db) h = ((domain e, refl), refl)

-- Where an operation raises, the database is as it was before the call.
pub perform_atomic :
    (op : Operation) (db : Database) {e : StoreError}
    → (perform op db).0 ≡ some e
    → (perform op db).1 ≡ db
unfolding perform create_session start_run finish_run abort_active_run fork_session
    translate_store_errors immediate_transaction
perform_atomic (create now id) db h =
    let (failed, same) = summary-err (create_session now id db) h in
    let ((f, wrapped), kept) = translated-err "create_session" _ failed in
    let ((g, inner), kept') = created-err id _ wrapped in
    same ∙ kept ∙ kept' ∙ settle-err db (create_session_block now id db) inner
perform_atomic (start now id run prompt model provider) db h =
    let (failed, same) = summary-err (start_run now id run prompt model provider db) h in
    same ∙ operation-err "start_run" (start_run_block now id run prompt model provider) db failed
perform_atomic (finish now uuid id run outcome items) db h =
    let (failed, same) = summary-err (finish_run now uuid id run outcome items db) h in
    same ∙ operation-err "finish_run" (finish_run_block now uuid id run outcome items) db failed
perform_atomic (abort now id) db h =
    let (failed, same) = summary-err (abort_active_run now id db) h in
    same ∙ operation-err "abort_active_run" (abort_active_run_block now id) db failed
perform_atomic (fork now uuid source target) db h =
    let (failed, same) = summary-err (fork_session now uuid source target db) h in
    same ∙ operation-err "fork_session" (fork_session_block now uuid source target) db failed
