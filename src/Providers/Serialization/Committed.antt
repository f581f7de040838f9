-- ===== src/Providers/Serialization/Committed.antt =====
-- The requests of runs on what the program has committed.
use mathlib.Core.Path.{subst}
use tile.Prelude.{
  ℕ, String, ◌≡◌, refl, sym, ap, subst, ◌∙◌, inl, inr, true, Option, none, some, List, [], ◌∷◌, map,
  arith, Bool-cases, Option-cases, All, ok, str_eq, eq_iff,
}
use tile.Types.Conversation.{ConversationItem}
use tile.Events.{AgentEvent}
use tile.Outcome.{RunOutcome}
use tile.Store.Models.{HistoryItem, TerminalRun}
use tile.Store.Tables.{Database, empty, select_history, session_exists}
use tile.Store.Sqlite.{create_session, start_run, finish_run, abort_active_run, fork_session}
use tile.Store.Consistency.{IsConsistent}
use tile.Store.Effects.Start.{create_session-ok, start_run-ok}
use tile.Store.Effects.Abort.{abort_active_run-ok, Aborted}
use tile.Store.Effects.Fork.{fork_session-ok}
use tile.Store.History.Finish.{finish_run-appends, finish_run_history}
use tile.Store.History.Fork.{fork_session_history}
use tile.Store.Operations.{Operation, perform, perform_all, create, start, finish, abort, fork}
use tile.Store.Operations.Atomic.{perform_atomic, summary-ok}
use tile.Store.Operations.Consistent.{empty-IsConsistent, perform-IsConsistent}
use tile.Runtime.History.{RunHistory, heal, mem_id}
use tile.Runtime.History as History
use tile.Runtime.History.Healing.{heal-answered}
use tile.Runtime.History.Projection.{observe_all, run-Extends}
use tile.Providers.Serialization.{Codec, InputItem, serialize_history_items}
use tile.Providers.Serialization.Answered.{
  AllAnswered, AllAnswered-append, call_ids, output_ids, history-answered,
}

-- The committed history of a session, as `Session.get_history` and a new run receive it.
abbrev pub committed_items : Database → String → List ConversationItem
committed_items db session_id = map (λ row. row.item) (select_history db session_id)

-- A run is finished with its healed delta, as `RunExecution` finishes it; other operations are free.
abbrev pub FinishesHealed : Operation → Type 0
FinishesHealed (finish now uuid session_id run_id outcome items) =
    (h : RunHistory) × (items ≡ (heal h).delta)
FinishesHealed (create now id) = Unit
FinishesHealed (start now id run prompt model provider) = Unit
FinishesHealed (abort now id) = Unit
FinishesHealed (fork now uuid source target) = Unit

abbrev Answers : Database → Type 0
Answers db = (session_id : String) → AllAnswered (committed_items db session_id)

finished-Answers :
    (now : ℕ) (uuid : ℕ → String) (id run : String) (outcome : RunOutcome) (h : RunHistory)
    (db : Database) {ended : TerminalRun} {db' : Database}
    → IsConsistent db
    → Answers db
    → finish_run now uuid id run outcome (heal h).delta db ≡ (ok ended, db')
    → Answers db'
finished-Answers now uuid id run outcome h db {ended} {db'} c a e session_id =
    elim (Bool-cases (str_eq id session_id)) [
      | inl same ↦
          subst (λ i. AllAnswered (committed_items db' i)) ((eq_iff id session_id).0 same)
            (subst AllAnswered
              (sym (finish_run-appends now uuid id run outcome (heal h).delta db c e))
              (AllAnswered-append (committed_items db id) (heal h).delta (a id) (heal-answered h)))
      | inr differ ↦
          subst (λ rows. AllAnswered (map (λ row. row.item) rows))
            (sym
              (finish_run_history now uuid id run outcome (heal h).delta db session_id c e
                (ground (arith, differ, eq_iff id session_id))).1)
            (a session_id)
    ]

items-triples :
    (rows : List HistoryItem)
    → map
        (λ t. t.2)
        (map {B = String × ℕ × ConversationItem} (λ row. (row.run_id, row.position, row.item)) rows)
      ≡ map (λ row. row.item) rows
items-triples [] = refl
items-triples (row ∷ rows) = ap (λ l. row.item ∷ l) (items-triples rows)

forked-Answers :
    (now : ℕ) (uuid : ℕ → String) (source target : String) (db : Database) {row : _}
    {db' : Database}
    → IsConsistent db
    → Answers db
    → fork_session now uuid source target db ≡ (ok row, db')
    → Answers db'
forked-Answers now uuid source target db {row} {db'} c a e session_id =
    let (known, unknown, _, _) = fork_session-ok now uuid source target db e in
    let differs = λ (same : target ≡ source).
      let clash = sym unknown ∙ ap (session_exists db) same ∙ known in absurd (cc) in
    elim (Bool-cases (str_eq target session_id)) [
      | inl same ↦
          subst (λ i. AllAnswered (committed_items db' i)) ((eq_iff target session_id).0 same)
            (subst AllAnswered
              (sym (items-triples (select_history db source))
                ∙ ap (map (λ t. t.2))
                    (sym (fork_session_history now uuid source target source db c e differs).0)
                ∙ items-triples (select_history db' target))
              (a source))
      | inr differ ↦
          subst (λ rows. AllAnswered (map (λ row. row.item) rows))
            (sym
              (fork_session_history now uuid source target session_id db c e
                (ground (arith, differ, eq_iff target session_id))).1)
            (a session_id)
    ]

Aborted-Answers :
    (now : ℕ) (id : String) (db : Database) (result : Option TerminalRun) (db' : Database)
    → Answers db
    → Aborted now id db result db'
    → Answers db'
unfolding select_history
Aborted-Answers now id db none db' a (_, same) = subst Answers (sym same) a
Aborted-Answers now id db (some ended) db' a (_, _, _, (_, _, left)) = subst Answers (sym left) a

performed-Answers :
    (op : Operation) (db : Database)
    → IsConsistent db
    → Answers db
    → FinishesHealed op
    → (perform op db).0 ≡ none
    → Answers (perform op db).1
unfolding perform select_history
performed-Answers (create now id) db c a f h =
    let (row, e) = summary-ok (create_session now id db) h in
    let (_, _, left) = create_session-ok now id db e in subst Answers (sym left) a
performed-Answers (start now id run prompt model provider) db c a f h =
    let (started, e) = summary-ok (start_run now id run prompt model provider db) h in
    let (_, _, _, _, left) = start_run-ok now id run prompt model provider db e in
    subst Answers (sym left) a
performed-Answers (finish now uuid id run outcome items) db c a (history, healed) h =
    let (ended, e) = summary-ok (finish_run now uuid id run outcome items db) h in
    let after = (finish_run now uuid id run outcome items db).1 in
    finished-Answers now uuid id run outcome history db {ended = ended} {db' = after} c a
      (subst (λ l. finish_run now uuid id run outcome l db ≡ (ok ended, after)) healed e)
performed-Answers (abort now id) db c a f h =
    let (result, e) = summary-ok (abort_active_run now id db) h in
    Aborted-Answers now id db result _ a (abort_active_run-ok now id db e).1
performed-Answers (fork now uuid source target) db c a f h =
    let (row, e) = summary-ok (fork_session now uuid source target db) h in
    forked-Answers now uuid source target db c a e

perform_all-Answers :
    (ops : List Operation) (db : Database)
    → IsConsistent db
    → Answers db
    → All FinishesHealed ops
    → Answers (perform_all ops db)
unfolding perform_all
perform_all-Answers [] db c a f = a
perform_all-Answers (op ∷ ops) db c a f =
    perform_all-Answers ops (perform op db).1 (perform-IsConsistent op db c)
      (elim (Option-cases (perform op db).0) [
        | inl e ↦ performed-Answers op db c a (f.0) e
        | inr (_, e) ↦ subst Answers (sym (perform_atomic op db e)) a
      ])
      (f.1)

empty-Answers : Answers empty
unfolding select_history tile.Store.Tables.order_by History.requested
empty-Answers session_id = tt

-- Any operations have led from an empty database to the present one, where runs were finished with their
-- healed deltas. Then in the request for the healed working history of a run on any session, whatever
-- the run has observed, every function call has its output.
pub serialize_history_items-heal :
    (codec : Codec) (ops : List Operation) (session_id prompt : String) (events : List AgentEvent)
    (items : List InputItem)
    → All FinishesHealed ops
    → serialize_history_items codec
        (heal (
          observe_all
            (History.start (committed_items (perform_all ops empty) session_id) prompt)
            events)).working
      ≡ ok items
    → All (λ id. mem_id id (output_ids items) ≡ true) (call_ids items)
serialize_history_items-heal codec ops session_id prompt events items f h =
    let committed = committed_items (perform_all ops empty) session_id in
    let healed = heal (observe_all (History.start committed prompt) events) in
    history-answered codec healed.working items
      (subst AllAnswered (sym (run-Extends committed prompt events)) (
        AllAnswered-append committed healed.delta
          (perform_all-Answers ops empty empty-IsConsistent empty-Answers f session_id)
          (heal-answered (observe_all (History.start committed prompt) events))))
      h
