-- ===== src/Store/Operations/Admission.antt =====
-- When `start_run` accepts a run, and what it raises otherwise.
use tile.Prelude.{
  ℕ, String, ◌≡◌, refl, Bool, true, false, not, Bool-cases, inl, inr, none, some, List, [], ◌∷◌,
  str_eq, eq_iff, any, find_first, arith, ok, err, Result, if◌then◌else◌,
}
use tile.Outcome.{StoreError, session_not_found, active_run, run_already_exists}
use tile.Store.Models.{ActiveRun, RunRecord, active, terminal, StartedRun, new_active_run_record}
use tile.Store.Action.{translate_store_errors, immediate_transaction}
use tile.Store.Tables.{
  Database, session_exists, run_exists, is_active_of, select_session, select_active_run,
  select_history, insert_run_row,
}
use tile.Store.Rows.{
  require_session, active_run_for_session, reject_active_run, history_for_session, insert_run,
}
use tile.Store.Sqlite.{start_run}
use tile.Store.Effects.Start.{with_run}

-- The decision table of `start_run`.
abbrev pub admission : StartedRun → Database → Result StoreError StartedRun × Database
admission started db =
    let run = started.run in
    if not (session_exists db run.session_id)
    then (err (session_not_found run.session_id), db)
    else if any (is_active_of run.session_id) db.runs
    then (err (active_run run.session_id), db)
    else if run_exists db run.id
    then (err (run_already_exists run.id), db)
    else (ok started, with_run run db)

found-active :
    (session_id : String) (runs : List RunRecord)
    → any (is_active_of session_id) runs ≡ true
    → (run : ActiveRun) × (find_first (is_active_of session_id) runs ≡ some (active run))
      × (run.session_id ≡ session_id)
found-active session_id [] h = absurd (cc)
found-active session_id (active r ∷ runs) h = elim (Bool-cases (str_eq r.session_id session_id)) [
  | inl e ↦ (r, rw e refl, (eq_iff r.session_id session_id).0 e)
  | inr e ↦
      let (run, found, own) = found-active session_id runs (rw e at h) in (run, rw e found, own)
]
found-active session_id (terminal r ∷ runs) h = elim (Bool-cases (str_eq r.session_id session_id)) [
  | inl e ↦
      let (run, found, own) = found-active session_id runs (rw e at h) in (run, rw e found, own)
  | inr e ↦
      let (run, found, own) = found-active session_id runs (rw e at h) in (run, rw e found, own)
]

found-none {ℓ} :
    {A : Type ℓ} (p : A → Bool) (xs : List A) → any p xs ≡ false → find_first p xs ≡ none
found-none p [] h = refl
found-none p (x ∷ xs) h = ground (arith, found-none p xs)

found-some {ℓ} :
    {A : Type ℓ} (p : A → Bool) (xs : List A)
    → any p xs ≡ true
    → (a : A) × (find_first p xs ≡ some a)
found-some p [] h = absurd (cc)
found-some p (x ∷ xs) h = elim (Bool-cases (p x)) [
  | inl e ↦ (x, rw e refl)
  | inr e ↦ let (a, found) = found-some p xs (rw e at h) in (a, rw e found)
]

-- `start_run` accepts a run exactly where its session exists and has no active run and the run id is
-- new; else it raises the error of the first condition that fails, in that order, and changes
-- nothing. No constraint of the schema raises a persistence error.
pub start_run-admission :
    (now : ℕ) (session_id run_id prompt model provider : String) (db : Database)
    → start_run now session_id run_id prompt model provider db
      ≡ admission
          (record {
            run = new_active_run_record now run_id session_id prompt model provider;
            committed_history = select_history db session_id;
          })
          db
unfolding start_run translate_store_errors immediate_transaction require_session
    active_run_for_session reject_active_run history_for_session insert_run insert_run_row
    select_session select_active_run session_exists new_active_run_record
start_run-admission now session_id run_id prompt model provider db =
    elim (Bool-cases (any (λ s. str_eq s.id session_id) db.sessions)) [
      | inr e ↦ rw (e, found-none _ db.sessions e) refl
      | inl e ↦
          let (session, known) = found-some _ db.sessions e in
          elim (Bool-cases (any (is_active_of session_id) db.runs)) [
            | inl busy ↦
                let (run, found, own) = found-active session_id db.runs busy in
                rw (e, known, busy, found, own) refl
            | inr free ↦ elim (Bool-cases (run_exists db run_id)) [
              | inl old ↦ rw (e, known, free, found-none _ db.runs free, old) (rw old refl)
              | inr new ↦ rw (e, known, free, found-none _ db.runs free, new) (rw (e, free) refl)
            ]
          ]
    ]
