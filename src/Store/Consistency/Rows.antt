-- ===== src/Store/Consistency/Rows.antt =====
-- Each change of a row or a table keeps the database consistent.
use tile.Prelude.{
  find_first-holds, inr, inl, some, eq_iff, Bool-cases, Bool, Distinct, ℕ, find_first, All-map,
  All-zip, unique_match, ◌≤◌, String, ◌≡◌, refl, ap, sym, ◌∙◌, true, false, ◌||◌, List, [], ◌∷◌,
  ◌++◌, map, map-append, str_eq, any, any-append, All, All-append, Distinct-concat, holds_id, arith,
}
use tile.Store.Models.{
  TerminalRun, started_at_of, SessionRecord, ActiveRun, RunRecord, active, terminal, HistoryItem,
  run_id_of,
}
use tile.Store.Tables.{
  select_session, is_finished_by, finish_row, touch_row, Database, session_exists, run_exists,
  is_active_of,
}
use tile.Store.Consistency.{
  rows_of, InOrder, RowsDistinct, RunTimes, session_ids, IsConsistent, busy_sessions,
}
use native.Mathlib.Nat.{le_trans}
use tile.Store.History.Inserts.{with_rows}
use tile.Store.Effects.{with_touched, with_finished}
use tile.Store.Effects.Start.{with_session, with_run}

any-map {ℓ} :
    {A : Type ℓ} (f : A → String) (id : String) (xs : List A)
    → any (λ x. str_eq (f x) id) xs ≡ holds_id (map f xs) id
any-map f id [] = refl
any-map f id (x ∷ xs) = ap (λ b. str_eq (f x) id || b) (any-map f id xs)

busy-append :
    (xs ys : List RunRecord) → busy_sessions (xs ++ ys) ≡ busy_sessions xs ++ busy_sessions ys
busy-append [] ys = refl
busy-append (active r ∷ xs) ys = ap (λ l. r.session_id ∷ l) (busy-append xs ys)
busy-append (terminal r ∷ xs) ys = busy-append xs ys

busy-any :
    (session_id : String) (runs : List RunRecord)
    → any (is_active_of session_id) runs ≡ holds_id (busy_sessions runs) session_id
busy-any session_id [] = refl
busy-any session_id (active r ∷ runs) = ground (arith, busy-any session_id runs)
busy-any session_id (terminal r ∷ runs) = ground (arith, busy-any session_id runs)

-- Rows stay owned where a session is added or touched.
owned-session :
    (row : SessionRecord) (sessions : List SessionRecord) (rows : List HistoryItem)
    → All (λ h. any (λ s. str_eq s.id h.session_id) sessions ≡ true) rows
    → All (λ h. any (λ s. str_eq s.id h.session_id) (sessions ++ row ∷ []) ≡ true) rows
owned-session row sessions [] o = tt
owned-session row sessions (h ∷ rows) o =
    (any-append _ sessions (row ∷ []) ∙ ground (arith, o.0), owned-session row sessions rows o.1)

pub with_session-IsConsistent :
    (row : SessionRecord) (db : Database)
    → session_exists db row.id ≡ false
    → row.created_at ≤ row.updated_at
    → IsConsistent db
    → IsConsistent (with_session row db)
unfolding session_exists
with_session-IsConsistent row db fresh times c = record {
  sessions_distinct =
      rw (map-append (λ s. s.id) db.sessions (row ∷ []))
        (Distinct-concat _ row.id c.sessions_distinct (sym (any-map _ row.id db.sessions) ∙ fresh));
  runs_distinct = c.runs_distinct;
  one_active = c.one_active;
  session_times = All-append _ db.sessions (row ∷ []) c.session_times (times, tt);
  run_times = c.run_times;
  history_owned = owned-session row db.sessions db.history_items c.history_owned;
  history_distinct = c.history_distinct;
  history_order = c.history_order;
}

pub with_run-IsConsistent :
    (row : ActiveRun) (db : Database)
    → run_exists db row.id ≡ false
    → any (is_active_of row.session_id) db.runs ≡ false
    → IsConsistent db
    → IsConsistent (with_run row db)
unfolding run_exists
with_run-IsConsistent row db fresh free c = record {
  sessions_distinct = c.sessions_distinct;
  runs_distinct =
      rw (map-append run_id_of db.runs (active row ∷ []))
        (Distinct-concat _ row.id c.runs_distinct (sym (any-map run_id_of row.id db.runs) ∙ fresh));
  one_active = rw (busy-append db.runs (active row ∷ [])) (
      Distinct-concat _ row.session_id c.one_active (sym (busy-any row.session_id db.runs) ∙ free));
  session_times = c.session_times;
  run_times = All-append _ db.runs (active row ∷ []) c.run_times (tt, tt);
  history_owned = c.history_owned;
  history_distinct = c.history_distinct;
  history_order = c.history_order;
}

ids-finish :
    (ended : TerminalRun) (runs : List RunRecord)
    → map run_id_of (map (finish_row ended) runs) ≡ map run_id_of runs
ids-finish ended [] = refl
ids-finish ended (active r ∷ runs) = ground (arith, ids-finish ended runs)
ids-finish ended (terminal r ∷ runs) = ap (λ l. r.id ∷ l) (ids-finish ended runs)

-- A session that has no active run has none after a run has ended.
busy-finish :
    (ended : TerminalRun) (session_id : String) (runs : List RunRecord)
    → holds_id (busy_sessions runs) session_id ≡ false
    → holds_id (busy_sessions (map (finish_row ended) runs)) session_id ≡ false
busy-finish ended session_id [] h = refl
busy-finish ended session_id (active r ∷ runs) h =
    ground (arith, h, busy-finish ended session_id runs)
busy-finish ended session_id (terminal r ∷ runs) h = busy-finish ended session_id runs h

Distinct-finish :
    (ended : TerminalRun) (runs : List RunRecord)
    → Distinct (busy_sessions runs)
    → Distinct (busy_sessions (map (finish_row ended) runs))
Distinct-finish ended [] d = tt
Distinct-finish ended (terminal r ∷ runs) d = Distinct-finish ended runs d
Distinct-finish ended (active r ∷ runs) d = elim (Bool-cases (is_finished_by ended (active r))) [
  | inl e ↦ rw e (Distinct-finish ended runs d.1)
  | inr e ↦ rw e (busy-finish ended r.session_id runs d.0, Distinct-finish ended runs d.1)
]

times-finish :
    (ended : TerminalRun) (run : ActiveRun) (row : RunRecord)
    → run.started_at ≤ ended.ended_at
    → (is_finished_by ended row ≡ true → row ≡ active run) × RunTimes row
    → RunTimes (finish_row ended row)
times-finish ended run (terminal r) t h = h.1
times-finish ended run (active r) t h = elim (Bool-cases (is_finished_by ended (active r))) [
  | inl e ↦ rw e (rw (ap started_at_of (h.0 e)) t)
  | inr e ↦ rw e tt
]

finished_id :
    (ended : TerminalRun) (row : RunRecord)
    → is_finished_by ended row ≡ true
    → run_id_of row ≡ ended.id
finished_id ended (active r) h = ground (arith, h, eq_iff r.id ended.id)
finished_id ended (terminal r) h = absurd (cc)

pub with_finished-IsConsistent :
    (ended : TerminalRun) (run : ActiveRun) (q : RunRecord → Bool) (db : Database)
    → find_first q db.runs ≡ some (active run)
    → run.id ≡ ended.id
    → run.started_at ≤ ended.ended_at
    → IsConsistent db
    → IsConsistent (with_finished ended db)
with_finished-IsConsistent ended run q db selected same times c = record {
  sessions_distinct = c.sessions_distinct;
  runs_distinct = rw (ids-finish ended db.runs) c.runs_distinct;
  one_active = Distinct-finish ended db.runs c.one_active;
  session_times = c.session_times;
  run_times =
      All-map _ RunTimes (finish_row ended) db.runs (λ row. times-finish ended run row times)
        (All-zip _ RunTimes db.runs
          (unique_match run_id_of (is_finished_by ended) ended.id (finished_id ended) q db.runs
            (active run) c.runs_distinct selected same)
          c.run_times);
  history_owned = c.history_owned;
  history_distinct = c.history_distinct;
  history_order = c.history_order;
}

ids-touch :
    (id : String) (time : ℕ) (sessions : List SessionRecord)
    → session_ids (map (touch_row id time) sessions) ≡ session_ids sessions
ids-touch id time [] = refl
ids-touch id time (s ∷ sessions) = ground (arith, ids-touch id time sessions)

pub owned-touch :
    (id : String) (time : ℕ) (sessions : List SessionRecord) (session_id : String)
    → any (λ s. str_eq s.id session_id) (map (touch_row id time) sessions)
      ≡ any (λ s. str_eq s.id session_id) sessions
owned-touch id time [] session_id = refl
owned-touch id time (s ∷ sessions) session_id =
    ground (arith, owned-touch id time sessions session_id)

times-touch :
    (id : String) (time : ℕ) (current row : SessionRecord)
    → current.updated_at ≤ time
    → (str_eq row.id id ≡ true → row ≡ current) × (row.created_at ≤ row.updated_at)
    → (touch_row id time row).created_at ≤ (touch_row id time row).updated_at
times-touch id time current row t h = elim (Bool-cases (str_eq row.id id)) [
  | inl e ↦ rw e (le_trans h.1 (rw (ap (λ s. s.updated_at) (h.0 e)) t))
  | inr e ↦ rw e h.1
]

owned-All-touch :
    (id : String) (time : ℕ) (sessions : List SessionRecord) (rows : List HistoryItem)
    → All (λ h. any (λ s. str_eq s.id h.session_id) sessions ≡ true) rows
    → All (λ h. any (λ s. str_eq s.id h.session_id) (map (touch_row id time) sessions) ≡ true) rows
owned-All-touch id time sessions [] o = tt
owned-All-touch id time sessions (h ∷ rows) o =
    (owned-touch id time sessions h.session_id ∙ o.0, owned-All-touch id time sessions rows o.1)

pub with_touched-IsConsistent :
    (id : String) (time : ℕ) (current : SessionRecord) (db : Database)
    → select_session db id ≡ some current
    → current.updated_at ≤ time
    → IsConsistent db
    → IsConsistent (with_touched id time db)
unfolding select_session
with_touched-IsConsistent id time current db selected later c = record {
  sessions_distinct = rw (ids-touch id time db.sessions) c.sessions_distinct;
  runs_distinct = c.runs_distinct;
  one_active = c.one_active;
  session_times =
      All-map _ _ (touch_row id time) db.sessions (λ row. times-touch id time current row later)
        (All-zip _ _ db.sessions
          (unique_match (λ s. s.id) (λ s. str_eq s.id id) id (λ s. (eq_iff s.id id).0) _ db.sessions
            current c.sessions_distinct selected
            ((eq_iff current.id id).0
              (find_first-holds (λ s. str_eq s.id id) db.sessions current selected)))
          c.session_times);
  run_times = c.run_times;
  history_owned = owned-All-touch id time db.sessions db.history_items c.history_owned;
  history_distinct = c.history_distinct;
  history_order = c.history_order;
}

pub with_rows-IsConsistent :
    (rows : List HistoryItem) (db : Database)
    → All (λ h. any (λ s. str_eq s.id h.session_id) db.sessions ≡ true) rows
    → ((session_id : String) → InOrder (rows_of session_id (db.history_items ++ rows)))
    → RowsDistinct (with_rows db rows)
    → IsConsistent db
    → IsConsistent (with_rows db rows)
with_rows-IsConsistent rows db owned order distinct c = record {
  sessions_distinct = c.sessions_distinct;
  runs_distinct = c.runs_distinct;
  one_active = c.one_active;
  session_times = c.session_times;
  run_times = c.run_times;
  history_owned = All-append _ db.history_items rows c.history_owned owned;
  history_distinct = distinct;
  history_order = order;
}
