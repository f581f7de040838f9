-- ===== src/Store/Operations/Consistent.antt =====
-- Every operation keeps the database consistent, so every database that operations lead to is.
use tile.Prelude.{◌≡◌, refl, sym, Option-cases, inl, inr, none, List, [], ◌∷◌, arith}
use mathlib.Core.Path.{subst}
use tile.Store.Models.{new_session_record, new_active_run_record}
use tile.Store.Tables.{Database, empty}
use tile.Store.Sqlite.{create_session, start_run, finish_run, abort_active_run, fork_session}
use tile.Store.Consistency.{IsConsistent}
use tile.Store.Consistency.Rows.{with_session-IsConsistent, with_run-IsConsistent}
use tile.Store.Consistency.Operations.{
  finish_run-IsConsistent, Aborted-IsConsistent, forked-IsConsistent,
}
use tile.Store.Effects.Start.{with_session, with_run, create_session-ok, start_run-ok}
use tile.Store.Effects.Abort.{abort_active_run-ok}
use tile.Store.Operations.{Operation, perform, perform_all, create, start, finish, abort, fork}
use tile.Store.Operations.Atomic.{summary-ok, perform_atomic}

pub empty-IsConsistent : IsConsistent empty
empty-IsConsistent = record {
  sessions_distinct = tt;
  runs_distinct = tt;
  one_active = tt;
  session_times = tt;
  run_times = tt;
  history_owned = tt;
  history_distinct = tt;
  history_order = λ id. refl;
}

performed-IsConsistent :
    (op : Operation) (db : Database)
    → IsConsistent db
    → (perform op db).0 ≡ none
    → IsConsistent (perform op db).1
unfolding perform new_session_record new_active_run_record
performed-IsConsistent (create now id) db c h =
    let (row, e) = summary-ok (create_session now id db) h in
    let (fresh, named, left) = create_session-ok now id db e in
    subst IsConsistent (sym left) (
      subst (λ r. IsConsistent (with_session r db)) (sym named)
        (with_session-IsConsistent _ db fresh (omega arith) c))
performed-IsConsistent (start now id run prompt model provider) db c h =
    let (started, e) = summary-ok (start_run now id run prompt model provider db) h in
    let (_, fresh, free, named, left) = start_run-ok now id run prompt model provider db e in
    subst IsConsistent (sym left) (
      subst (λ s. IsConsistent (with_run s.run db)) (sym named)
        (with_run-IsConsistent _ db fresh free c))
performed-IsConsistent (finish now uuid id run outcome items) db c h =
    let (ended, e) = summary-ok (finish_run now uuid id run outcome items db) h in
    finish_run-IsConsistent now uuid id run outcome items db c e
performed-IsConsistent (abort now id) db c h =
    let (result, e) = summary-ok (abort_active_run now id db) h in
    Aborted-IsConsistent now id db result _ c (abort_active_run-ok now id db e).1
performed-IsConsistent (fork now uuid source target) db c h =
    let (row, e) = summary-ok (fork_session now uuid source target db) h in
    forked-IsConsistent now uuid source target db c e

pub perform-IsConsistent :
    (op : Operation) (db : Database) → IsConsistent db → IsConsistent (perform op db).1
perform-IsConsistent op db c = elim (Option-cases (perform op db).0) [
  | inl e ↦ performed-IsConsistent op db c e
  | inr (x, e) ↦ subst IsConsistent (sym (perform_atomic op db e)) c
]

-- From a consistent database every sequence of operations, some of which may raise, leads to a
-- consistent one: the ids of sessions, of runs and of history rows are unique, a session has at most one
-- active run, no record ends before it begins, and the positions of a session's history are 0, 1, … in
-- order.
pub perform_all-IsConsistent :
    (ops : List Operation) (db : Database) → IsConsistent db → IsConsistent (perform_all ops db)
unfolding perform_all
perform_all-IsConsistent [] db c = c
perform_all-IsConsistent (op ∷ ops) db c =
    perform_all-IsConsistent ops (perform op db).1 (perform-IsConsistent op db c)
