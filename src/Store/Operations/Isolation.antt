-- ===== src/Store/Operations/Isolation.antt =====
-- While a run is active, nobody changes the history of its session.
use mathlib.Core.Path.{subst}
use tile.Prelude.{
  ℕ, String, ◌≡◌, refl, sym, ◌∙◌, ap, true, ◌&&◌, ◌⊎◌, Bool-cases, Option-cases, inl, inr, Option,
  none, some, List, [], ◌∷◌, map, any-append, str_eq, eq_iff, find_first, find_first-append,
  holds_id, Distinct, arith, ok,
}
use tile.Types.Conversation.{ConversationItem}
use tile.Outcome.{RunOutcome}
use tile.Store.Models.{RunRecord, ActiveRun, TerminalRun, active, terminal}
use tile.Store.Tables.{
  Database, select_run, select_history, session_exists, finish_row, finished_row,
}
use tile.Store.Sqlite.{create_session, start_run, finish_run, abort_active_run, fork_session}
use tile.Store.Consistency.{IsConsistent, busy_sessions}
use tile.Store.Consistency.Rows.{owned-touch}
use tile.Store.Effects.Start.{create_session-ok, start_run-ok}
use tile.Store.Effects.Finish.{finish_run-ok}
use tile.Store.Effects.Records.{matches, select_run-finished}
use tile.Store.Effects.Abort.{abort_active_run-ok, Aborted}
use tile.Store.Effects.Fork.{fork_session-ok}
use tile.Store.History.Finish.{finish_run_history, select_run-ids}
use tile.Store.History.Fork.{fork_session_history}
use tile.Store.Operations.{Operation, perform, perform_all, create, start, finish, abort, fork}
use tile.Store.Operations.Atomic.{perform_atomic, summary-ok}
use tile.Store.Operations.Consistent.{perform-IsConsistent}
use tile.Store.Operations.Fencing.{perform_all-Ended}

busy-holds :
    (session_id run_id : String) (runs : List RunRecord) (a : ActiveRun)
    → find_first (matches session_id run_id) runs ≡ some (active a)
    → holds_id (busy_sessions runs) session_id ≡ true
busy-holds session_id run_id [] a h = absurd (cc)
busy-holds session_id run_id (terminal r ∷ runs) a h =
    ground (arith, h, busy-holds session_id run_id runs a)
busy-holds session_id run_id (active r ∷ runs) a h =
    ground (arith, h, busy-holds session_id run_id runs a, eq_iff r.session_id session_id)

two_active :
    (session_id i j : String) (runs : List RunRecord) (a b : ActiveRun)
    → Distinct (busy_sessions runs)
    → find_first (matches session_id i) runs ≡ some (active a)
    → find_first (matches session_id j) runs ≡ some (active b)
    → a ≡ b
two_active session_id i j [] a b d h k = absurd (cc)
two_active session_id i j (terminal r ∷ runs) a b d h k =
    ground (arith, h, k, two_active session_id i j runs a b d)
two_active session_id i j (active r ∷ runs) a b d h k = ground (
  arith,
  h,
  k,
  d.0,
  two_active session_id i j runs a b d.1,
  busy-holds session_id i runs a,
  busy-holds session_id j runs b,
  eq_iff r.session_id session_id,
)

abbrev ActiveOrEnded : String → String → ActiveRun → List RunRecord → Type 0
ActiveOrEnded session_id run_id r runs =
    (find_first (matches session_id run_id) runs ≡ some (active r))
    ⊎ ((t : TerminalRun) × (find_first (matches session_id run_id) runs ≡ some (terminal t)))

finish_rows-found :
    (ended : TerminalRun) (session_id run_id : String) (r : ActiveRun) (runs : List RunRecord)
    → find_first (matches session_id run_id) runs ≡ some (active r)
    → ActiveOrEnded session_id run_id r (map (finish_row ended) runs)
finish_rows-found ended session_id run_id r [] h = absurd (cc)
finish_rows-found ended session_id run_id r (terminal x ∷ runs) h =
    elim (finish_rows-found ended session_id run_id r runs (ground (arith, h))) [
      | inl e ↦ inl (ground (arith, h, e))
      | inr (t, e) ↦ inr (t, ground (arith, h, e))
    ]
finish_rows-found ended session_id run_id r (active x ∷ runs) h =
    elim (Bool-cases (matches session_id run_id (active x))) [
      | inl m ↦ elim (Bool-cases (str_eq x.id ended.id && str_eq x.session_id ended.session_id)) [
        | inl e ↦ inr (finished_row ended x, ground (arith, m, e))
        | inr e ↦ inl (ground (arith, m, e, h))
      ]
      | inr m ↦ elim (finish_rows-found ended session_id run_id r runs (ground (arith, m, h))) [
        | inl e ↦ inl (ground (arith, m, e))
        | inr (t, e) ↦ inr (t, ground (arith, m, e))
      ]
    ]

-- What an operation has done to an active run and to its session.
abbrev Step : String → String → ActiveRun → Database → Database → Type 0
Step session_id run_id r db db' =
    (session_exists db' session_id ≡ true)
    × (((t : TerminalRun) × (select_run db' session_id run_id ≡ some (terminal t)))
        ⊎ ((select_run db' session_id run_id ≡ some (active r))
            × (select_history db' session_id ≡ select_history db session_id)))

abbrev Selected : Database → String → String → ActiveRun → Type 0
Selected db session_id run_id r = select_run db session_id run_id ≡ some (active r)

same-Step :
    (session_id run_id : String) (r : ActiveRun) (db : Database)
    → session_exists db session_id ≡ true
    → Selected db session_id run_id r
    → Step session_id run_id r db db
same-Step session_id run_id r db x h = (x, inr (h, refl))

finished-Step :
    (now : ℕ) (uuid : ℕ → String) (id run session_id run_id : String) (outcome : RunOutcome)
    (items : List ConversationItem) (r : ActiveRun) (db : Database) {ended : TerminalRun}
    {db' : Database}
    → IsConsistent db
    → session_exists db session_id ≡ true
    → Selected db session_id run_id r
    → finish_run now uuid id run outcome items db ≡ (ok ended, db')
    → Step session_id run_id r db db'
unfolding select_run session_exists
finished-Step now uuid id run session_id run_id outcome items r db {ended} {db'} c x h e =
    let (before, selected, named, (current, _, left)) =
      finish_run-ok now uuid id run outcome items db e in
    (
      ap (λ d. session_exists d session_id) left ∙ owned-touch _ _ db.sessions session_id ∙ x,
      elim (Bool-cases (str_eq id session_id)) [
        | inl same ↦
            let one : before ≡ r =
              two_active session_id run run_id db.runs before r c.one_active
                (subst (λ i. select_run db i run ≡ some (active before))
                  ((eq_iff id session_id).0 same) selected)
                h in
            inl (
              ended,
              ap (λ i. select_run db' i run_id) (sym ((eq_iff id session_id).0 same))
                  ∙ subst (λ j. select_run db' id j ≡ some (terminal ended))
                      (sym (select_run-ids db id run before selected).1
                        ∙ ap (λ q. q.id) one
                        ∙ (select_run-ids db session_id run_id r h).1)
                      (select_run-finished now uuid id run outcome items db e),
            )
        | inr differ ↦ elim (finish_rows-found ended session_id run_id r db.runs h) [
          | inl kept ↦ inr (
            ap (λ d. select_run d session_id run_id) left ∙ kept,
            (finish_run_history now uuid id run outcome items db session_id c e
                (ground (arith, differ, eq_iff id session_id))).1,
          )
          | inr (t, gone) ↦ inl (t, ap (λ d. select_run d session_id run_id) left ∙ gone)
        ]
      ],
    )

Aborted-Step :
    (now : ℕ) (id session_id run_id : String) (r : ActiveRun) (db : Database)
    (result : Option TerminalRun) (db' : Database)
    → session_exists db session_id ≡ true
    → Selected db session_id run_id r
    → Aborted now id db result db'
    → Step session_id run_id r db db'
unfolding select_run session_exists select_history
Aborted-Step now id session_id run_id r db none db' x h a =
    subst (Step session_id run_id r db) (sym a.1) (same-Step session_id run_id r db x h)
Aborted-Step now id session_id run_id r db (some ended) db' x h (run, _, _, (current, _, left)) =
    subst (Step session_id run_id r db) (sym left) (
      owned-touch _ _ db.sessions session_id ∙ x,
      elim (finish_rows-found ended session_id run_id r db.runs h) [
        | inl kept ↦ inr (kept, refl)
        | inr (t, gone) ↦ inl (t, gone)
      ],
    )

performed-Step :
    (op : Operation) (session_id run_id : String) (r : ActiveRun) (db : Database)
    → IsConsistent db
    → session_exists db session_id ≡ true
    → Selected db session_id run_id r
    → (perform op db).0 ≡ none
    → Step session_id run_id r db (perform op db).1
unfolding perform select_run session_exists select_history
performed-Step (create now id) session_id run_id r db c x h p =
    let (row, e) = summary-ok (create_session now id db) p in
    let (_, _, left) = create_session-ok now id db e in
    subst (Step session_id run_id r db) (sym left) (rw any-append (rw x refl), inr (h, refl))
performed-Step (start now id run prompt model provider) session_id run_id r db c x h p =
    let (started, e) = summary-ok (start_run now id run prompt model provider db) p in
    let (_, _, _, _, left) = start_run-ok now id run prompt model provider db e in
    subst (Step session_id run_id r db) (sym left)
      (x, inr (find_first-append _ db.runs _ (active r) h, refl))
performed-Step (finish now uuid id run outcome items) session_id run_id r db c x h p =
    let (ended, e) = summary-ok (finish_run now uuid id run outcome items db) p in
    finished-Step now uuid id run session_id run_id outcome items r db c x h e
performed-Step (abort now id) session_id run_id r db c x h p =
    let (result, e) = summary-ok (abort_active_run now id db) p in
    Aborted-Step now id session_id run_id r db result _ x h (abort_active_run-ok now id db e).1
performed-Step (fork now uuid source target) session_id run_id r db c x h p =
    let (row, e) = summary-ok (fork_session now uuid source target db) p in
    let (_, unknown, _, left) = fork_session-ok now uuid source target db e in
    (
      ap (λ d. session_exists d session_id) left ∙ any-append _ db.sessions _ ∙ rw x refl,
      inr (
        ap (λ d. select_run d session_id run_id) left ∙ h,
        (fork_session_history now uuid source target session_id db c e
            λ same. let clash = sym unknown ∙ ap (session_exists db) same ∙ x in absurd (cc)).1,
      ),
    )

perform-Step :
    (op : Operation) (session_id run_id : String) (r : ActiveRun) (db : Database)
    → IsConsistent db
    → session_exists db session_id ≡ true
    → Selected db session_id run_id r
    → Step session_id run_id r db (perform op db).1
perform-Step op session_id run_id r db c x h = elim (Option-cases (perform op db).0) [
  | inl e ↦ performed-Step op session_id run_id r db c x h e
  | inr (_, e) ↦
      subst (Step session_id run_id r db) (sym (perform_atomic op db e))
        (same-Step session_id run_id r db x h)
]

-- While a run of a consistent database is active, nobody changes the history of its session: if it is
-- active before and after some operations, whatever they are, then the session's committed history is
-- the same before and after.
pub active_run-isolated :
    (ops : List Operation) (session_id run_id : String) (run later : ActiveRun) (db : Database)
    → IsConsistent db
    → session_exists db session_id ≡ true
    → select_run db session_id run_id ≡ some (active run)
    → select_run (perform_all ops db) session_id run_id ≡ some (active later)
    → select_history (perform_all ops db) session_id ≡ select_history db session_id
unfolding perform_all
active_run-isolated [] session_id run_id run later db c x h k = refl
active_run-isolated (op ∷ ops) session_id run_id run later db c x h k =
    let (x', step) = perform-Step op session_id run_id run db c x h in
    elim step [
      | inl (t, gone) ↦
          let end = perform_all-Ended ops (perform op db).1 session_id run_id t gone in absurd (cc)
      | inr (still, same) ↦
          active_run-isolated ops session_id run_id run later (perform op db).1
            (perform-IsConsistent op db c) x' still k
          ∙ same
    ]
