-- ===== src/Store/Consistency/Ids.antt =====
-- No operation lets two rows of the history have the same id.
use tile.Prelude.{
  holds_id, Distinct-concat, ℕ, String, ◌≡◌, refl, sym, ap, ◌∙◌, inl, inr, true, false, ◌||◌,
  Option, none, some, List, [], ◌∷◌, map, map-append, arith, Bool-cases, Result, ok, err, str_eq,
  any,
}
use tile.Types.Conversation.{ConversationItem}
use tile.Outcome.{RunOutcome, StoreError, session_not_found, run_not_found, session_already_exists}
use tile.Store.Models.{SessionRecord, TerminalRun, RunRecord, active, terminal, HistoryItem}
use tile.Store.Action.{
  Action, Failure, domain, integrity, pure, continue, ◌>>=◌, immediate_transaction,
  translate_store_errors,
}
use tile.Store.Tables.{
  Database, insert_session_row, insert_history_row, history_row_fits, select_run, select_session,
  next_history_position,
}
use tile.Store.Rows.{
  found, get_session_row, require, require_session, reject, reject_existing_session, get_run_row,
  finalize_active_run, insert_history_rows, delta_rows, insert_history_delta, touch_session,
  set_updated_at, copy_rows, copy_history_items, history_for_session,
}
use tile.Store.Sqlite.{still_active, finish_run, finish_run_block, fork_session, fork_session_block}
use tile.Store.Consistency.{RowsDistinct}

-- Whatever it returns or raises, it leaves the ids distinct.
record Keeps {A : Type 0} (m : Action Database A) : Type 0 where
  kept : (db : Database) → RowsDistinct db → RowsDistinct (m db).1

module _ {A : Type 0} where
  pure-Keeps : (a : A) → Keeps (pure a)
  pure-Keeps a = record { kept = λ db d. d }

  continue-Keeps :
      {B : Type 0} (r : Result Failure A × Database) (f : A → Action Database B)
      → RowsDistinct (r.1)
      → ((a : A) → Keeps (f a))
      → RowsDistinct (continue r f).1
  continue-Keeps (ok a, db) f d k = (k a).kept db d
  continue-Keeps (err e, db) f d k = d

  bind-Keeps :
      {B : Type 0} (m : Action Database A) (f : A → Action Database B)
      → Keeps m
      → ((a : A) → Keeps (f a))
      → Keeps (m >>= f)
  bind-Keeps m f h k = record { kept = λ db d. continue-Keeps (m db) f (h.kept db d) k }

  settled-Keeps :
      (operation : String) (before : Database) (r : Result Failure A × Database)
      → RowsDistinct before
      → RowsDistinct (r.1)
      → RowsDistinct
          (translate_store_errors operation (λ s. immediate_transaction (λ _. r) s) before).1
  unfolding translate_store_errors immediate_transaction
  settled-Keeps operation before (ok a, after) d h = h
  settled-Keeps operation before (err (domain e), after) d h = d
  settled-Keeps operation before (err integrity, after) d h = d

  operation-Keeps :
      (operation : String) (block : Action Database A) (db : Database)
      → Keeps block
      → RowsDistinct db
      → RowsDistinct (translate_store_errors operation (immediate_transaction block) db).1
  unfolding translate_store_errors immediate_transaction
  operation-Keeps operation block db k d = settled-Keeps operation db (block db) d (k.kept db d)

  found-Keeps : (o : Option A) (e : StoreError) → Keeps (found o e)
  found-Keeps none e = record { kept = λ db d. d }
  found-Keeps (some a) e = record { kept = λ db d. d }

  require-Keeps : (o : Option A) (e : StoreError) → Keeps (require o e)
  require-Keeps none e = record { kept = λ db d. d }
  require-Keeps (some a) e = record { kept = λ db d. d }

  reject-Keeps : (o : Option A) (e : StoreError) → Keeps (reject o e)
  reject-Keeps none e = record { kept = λ db d. d }
  reject-Keeps (some a) e = record { kept = λ db d. d }

get_session_row-Keeps : (session_id : String) → Keeps (get_session_row session_id)
unfolding get_session_row
get_session_row-Keeps session_id = record {
  kept = λ db. (found-Keeps (select_session db session_id) (session_not_found session_id)).kept db;
}

get_run_row-Keeps : (session_id run_id : String) → Keeps (get_run_row session_id run_id)
unfolding get_run_row
get_run_row-Keeps session_id run_id = record {
  kept = λ db.
      (found-Keeps (select_run db session_id run_id) (run_not_found run_id session_id)).kept db;
}

require_session-Keeps : (session_id : String) → Keeps (require_session session_id)
unfolding require_session
require_session-Keeps session_id = record {
  kept =
      λ db. (require-Keeps (select_session db session_id) (session_not_found session_id)).kept db;
}

reject_existing_session-Keeps : (session_id : String) → Keeps (reject_existing_session session_id)
unfolding reject_existing_session
reject_existing_session-Keeps session_id = record {
  kept = λ db.
      (reject-Keeps (select_session db session_id) (session_already_exists session_id)).kept db;
}

history_for_session-Keeps : (session_id : String) → Keeps (history_for_session session_id)
unfolding history_for_session
history_for_session-Keeps session_id = record { kept = λ db d. d }

still_active-Keeps : (run_id : String) (row : RunRecord) → Keeps (still_active run_id row)
still_active-Keeps run_id (active run) = record { kept = λ db d. d }
still_active-Keeps run_id (terminal run) = record { kept = λ db d. d }

any_ids :
    (id : String) (rows : List HistoryItem)
    → any (λ r. str_eq r.id id) rows ≡ holds_id (map (λ r. r.id) rows) id
any_ids id [] = refl
any_ids id (r ∷ rows) = ap (λ b. str_eq r.id id || b) (any_ids id rows)

-- The id of a row that fits is new.
fits-fresh :
    (row : HistoryItem) (db : Database)
    → history_row_fits db row ≡ true
    → holds_id (map (λ r. r.id) db.history_items) row.id ≡ false
fits-fresh row db h = sym (any_ids row.id db.history_items) ∙ ground (arith, h)

insert_history_row-Keeps : (row : HistoryItem) → Keeps (insert_history_row row)
unfolding insert_history_row
insert_history_row-Keeps row = record {
  kept = λ db d. elim (Bool-cases (history_row_fits db row)) [
    | inl e ↦
        rw (e, map-append (λ r. r.id) db.history_items (row ∷ []))
          (Distinct-concat _ row.id d (fits-fresh row db e))
    | inr e ↦ rw e d
  ];
}

insert_history_rows-Keeps : (rows : List HistoryItem) → Keeps (insert_history_rows rows)
unfolding insert_history_rows
insert_history_rows-Keeps [] = pure-Keeps tt
insert_history_rows-Keeps (row ∷ rows) =
    bind-Keeps _ _ (insert_history_row-Keeps row) λ _. insert_history_rows-Keeps rows

insert_history_delta-Keeps :
    (uuid : ℕ → String) (run : TerminalRun) (items : List ConversationItem)
    → Keeps (insert_history_delta uuid run items)
unfolding insert_history_delta
insert_history_delta-Keeps uuid run [] = record { kept = λ db d. d }
insert_history_delta-Keeps uuid run (item ∷ items) = record {
  kept = λ db.
      (insert_history_rows-Keeps
          (delta_rows uuid run (next_history_position db run.session_id) 0 (item ∷ items))).kept
        db;
}

finalize_active_run-Keeps : (run : TerminalRun) → Keeps (finalize_active_run run)
unfolding finalize_active_run
finalize_active_run-Keeps run = record { kept = λ db d. ground (arith, d) }

touch_session-Keeps : (run : TerminalRun) → Keeps (touch_session run)
unfolding touch_session set_updated_at
touch_session-Keeps run =
    bind-Keeps _ _ (get_session_row-Keeps run.session_id) λ current. record { kept = λ db d. d }

insert_session_row-Keeps : (row : SessionRecord) → Keeps (insert_session_row row)
unfolding insert_session_row
insert_session_row-Keeps row = record { kept = λ db d. ground (arith, d) }

copy_history_items-Keeps :
    (uuid : ℕ → String) (items : List HistoryItem) (target : String)
    → Keeps (copy_history_items uuid items target)
unfolding copy_history_items
copy_history_items-Keeps uuid items target =
    insert_history_rows-Keeps (copy_rows uuid target 0 items)

pub finish_run-Keeps :
    (now : ℕ) (uuid : ℕ → String) (session_id run_id : String) (outcome : RunOutcome)
    (items : List ConversationItem) (db : Database)
    → RowsDistinct db
    → RowsDistinct (finish_run now uuid session_id run_id outcome items db).1
unfolding finish_run finish_run_block
finish_run-Keeps now uuid session_id run_id outcome items db =
    operation-Keeps "finish_run" (finish_run_block now uuid session_id run_id outcome items) db (
      bind-Keeps _ _ (get_run_row-Keeps session_id run_id) λ row.
        bind-Keeps _ _ (still_active-Keeps run_id row) λ run.
          bind-Keeps _ _ (finalize_active_run-Keeps _) λ _.
            bind-Keeps _ _ (insert_history_delta-Keeps uuid _ items)
              λ _. bind-Keeps _ _ (touch_session-Keeps _) λ _. pure-Keeps _)

pub fork_session-Keeps :
    (now : ℕ) (uuid : ℕ → String) (source target : String) (db : Database)
    → RowsDistinct db
    → RowsDistinct (fork_session now uuid source target db).1
unfolding fork_session fork_session_block
fork_session-Keeps now uuid source target db =
    operation-Keeps "fork_session" (fork_session_block now uuid source target) db (
      bind-Keeps _ _ (require_session-Keeps source) λ _.
        bind-Keeps _ _ (reject_existing_session-Keeps target) λ _.
          bind-Keeps _ _ (insert_session_row-Keeps _) λ _.
            bind-Keeps _ _ (history_for_session-Keeps source) λ items.
              bind-Keeps _ _ (copy_history_items-Keeps uuid items target) λ _. pure-Keeps _)
