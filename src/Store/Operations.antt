-- ===== src/Store/Operations.antt =====
-- The writing operations of the `Store` protocol of tile/store/base.py as data, and sequences of them.
pub mod Atomic
pub mod Consistent
pub mod Fencing
pub mod Admission
pub mod Isolation
use tile.Prelude.{ℕ, String, Option, none, some, List, [], ◌∷◌, Result, ok, err}
use tile.Types.Conversation.{ConversationItem}
use tile.Outcome.{RunOutcome, StoreError}
use tile.Store.Tables.{Database}
use tile.Store.Sqlite.{create_session, start_run, finish_run, abort_active_run, fork_session}

-- The operations that write, as data. `now` and `uuid` are what the clock and `uuid4` return.
pub data Operation : Type 0 where
  create : ℕ → String → Operation
  start : ℕ → String → String → String → String → String → Operation
  finish : ℕ → (ℕ → String) → String → String → RunOutcome → List ConversationItem → Operation
  abort : ℕ → String → Operation
  fork : ℕ → (ℕ → String) → String → String → Operation

abbrev pub error_of {ℓ} : {A : Type ℓ} → Result StoreError A → Option StoreError
error_of (ok a) = none
error_of (err e) = some e

abbrev pub summary {ℓ} :
    {A : Type ℓ} → Result StoreError A × Database → Option StoreError × Database
summary (r, db) = (error_of r, db)

-- The error that an operation raises, if any, and the database that it leaves.
unfoldable pub perform : Operation → Database → Option StoreError × Database
perform (create now id) db = summary (create_session now id db)
perform (start now id run prompt model provider) db =
    summary (start_run now id run prompt model provider db)
perform (finish now uuid id run outcome items) db =
    summary (finish_run now uuid id run outcome items db)
perform (abort now id) db = summary (abort_active_run now id db)
perform (fork now uuid source target) db = summary (fork_session now uuid source target db)

-- A sequence of operations, each on the database that the one before it left.
unfoldable pub perform_all : List Operation → Database → Database
unfolding perform
perform_all [] db = db
perform_all (op ∷ ops) db = perform_all ops (perform op db).1
