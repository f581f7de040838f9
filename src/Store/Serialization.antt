-- ===== src/Store/Serialization.antt =====
-- tile/store/serialization.py: records as rows of columns. The ISO format of a timestamp, pydantic's JSON
-- of outcomes and items, and `repr` are parameters.
pub mod RoundTrip
use Prim.Native.String.{◌++◌ as text_append}
use tile.Prelude.{
  ℕ, zero, suc, ◌+◌, ◌-◌, ◌*◌, ◌/◌, ◌%◌, ◌≤◌, ◌<◌, String, ◌≡◌, refl, sym, ap, subst, ◌∙◌, ◌≢◌, ◌↔◌,
  ◌⊎◌, inl, inr, Bool, true, false, not, ◌&&◌, ◌||◌, Option, none, some, List, [], ◌∷◌, ◌++◌, map,
  reverse, append-nil, append_assoc, map-append, arith, ltb, leb, ◌==◌, if◌then◌else◌, Bool-cases,
  Option-cases, ltb-false, lt→leb-false, leb-false, length-reverse, ltb→lt, lt→ltb, leb→le, le→leb,
  ==_iff, decimal, length, get_elem?, take, drop, filter, All, All-append, length-append,
  take-append-drop, length-take, length-drop, take-append, drop-append, Result, ok, err, ◌>>=◌,
  ◌>>◌, value_or, and_true, ==_true, ==_false, ==→≡, ==→≢, take-take_append, drop-take_append,
  take-drop-take, All-weaken, All-map, find_first, cons-head, cons-tail, min, max, bind_ok, ok_inj,
  take-append_left, take-next, get_elem?-some, get_elem?-none, str_eq, eq_refl, eq_iff, join, any,
  any-append, List-cases, reverse-cons, reverse-append, reverse-reverse, unwrap_or,
}
use tile.Types.Conversation.{ConversationItem, user, assistant, tool_result}
use tile.Outcome.{RunOutcome}
use tile.Store.Models.{
  SessionRecord, ActiveRun, TerminalRun, RunRecord, HistoryItem, active, terminal,
  TerminalRunStatus, completed_status, failed_status, aborted_status, terminal_status_for,
}

pub record SessionRow : Type 0 where
  pub id : String
  pub created_at : String
  pub updated_at : String

pub record RunRow : Type 0 where
  pub id : String
  pub session_id : String
  pub prompt : String
  pub status : String
  pub started_at : String
  pub ended_at : Option String
  pub model : String
  pub provider : String
  pub outcome_json : Option String

pub record HistoryRow : Type 0 where
  pub id : String
  pub session_id : String
  pub run_id : String
  pub position : ℕ
  pub role : String
  pub payload_json : String
  pub created_at : String

pub record TerminalRunValues : Type 0 where
  pub status : String
  pub ended_at : String
  pub outcome_json : String
  pub id : String
  pub session_id : String

-- `ValueError`, pydantic's errors included, and `InvalidHistoryError`.
pub data RowError : Type 0 where
  value_error : String → RowError
  invalid_history : String → RowError

pub record Codec : Type 0 where
  pub isoformat : ℕ → String
  pub fromisoformat : String → Result RowError ℕ
  pub dump_outcome : RunOutcome → String
  pub load_outcome : String → Result RowError RunOutcome
  pub dump_conversation_item : ConversationItem → String
  pub load_conversation_item : String → Result RowError ConversationItem
  pub repr : String → String

unfoldable pub status_text : TerminalRunStatus → String
status_text completed_status = "completed"
status_text failed_status = "failed"
status_text aborted_status = "aborted"

-- `item.role`
unfoldable pub role_of : ConversationItem → String
role_of (user message) = "user"
role_of (assistant turn) = "assistant"
role_of (tool_result turn) = "tool_result"

-- `SessionRecord._validate_timestamps`; pydantic raises its error as a `ValueError`.
unfoldable pub validate_timestamps : SessionRecord → Result RowError SessionRecord
validate_timestamps r =
    if ltb r.updated_at r.created_at
    then err (value_error "A session cannot be updated before it is created.")
    else ok r

-- `TerminalRun._validate_lifecycle`
unfoldable pub validate_lifecycle : TerminalRun → Result RowError TerminalRun
validate_lifecycle r =
    if ltb r.ended_at r.started_at
    then err (value_error "A run cannot end before it starts.")
    else ok r

module _ (codec : Codec) where
  unfoldable pub session_values : SessionRecord → SessionRow
  session_values r = record {
    id = r.id;
    created_at = codec.isoformat r.created_at;
    updated_at = codec.isoformat r.updated_at;
  }

  unfoldable pub session_from_row : SessionRow → Result RowError SessionRecord
  session_from_row row = do
    created_at ← codec.fromisoformat row.created_at
    updated_at ← codec.fromisoformat row.updated_at
    validate_timestamps (record { id = row.id; created_at = created_at; updated_at = updated_at })

  unfoldable pub run_values : ActiveRun → RunRow
  run_values r = record {
    id = r.id;
    session_id = r.session_id;
    prompt = r.prompt;
    status = "active";
    started_at = codec.isoformat r.started_at;
    ended_at = none;
    model = r.model;
    provider = r.provider;
    outcome_json = none;
  }

  unfoldable pub terminal_run_values : TerminalRun → TerminalRunValues
  terminal_run_values r = record {
    status = status_text (terminal_status_for r.outcome);
    ended_at = codec.isoformat r.ended_at;
    outcome_json = codec.dump_outcome r.outcome;
    id = r.id;
    session_id = r.session_id;
  }

  unfoldable pub active_columns : RunRow → Option String → Option String → Result RowError RunRecord
  active_columns row none none = codec.fromisoformat row.started_at >>= λ started_at. ok (
      active (record {
        id = row.id;
        session_id = row.session_id;
        prompt = row.prompt;
        started_at = started_at;
        model = row.model;
        provider = row.provider;
      }))
  active_columns row _ _ = err (
      value_error
        (text_append "Active run row " (text_append (codec.repr row.id) " carries terminal data.")))

  unfoldable pub active_run_from_row : RunRow → Result RowError RunRecord
  active_run_from_row row =
      if not (str_eq row.status "active")
      then err
          (value_error (text_append "Run row " (text_append (codec.repr row.id) " is not active.")))
      else active_columns row row.ended_at row.outcome_json

  -- The status column must be the one that the outcome implies.
  unfoldable pub checked_status : String → TerminalRun → Result RowError RunRecord
  checked_status status r =
      let implied = status_text (terminal_status_for r.outcome) in
      if not (str_eq implied status)
      then err (
          value_error (
            text_append "Stored run status " (
              text_append (codec.repr status) (
                text_append " contradicts the stored outcome, which implies "
                  (text_append (codec.repr implied) ".")))))
      else ok (terminal r)

  unfoldable pub terminal_columns :
      RunRow → Option String → Option String → Result RowError RunRecord
  terminal_columns row (some ended_at) (some outcome_json) = do
    started_at ← codec.fromisoformat row.started_at
    ended ← codec.fromisoformat ended_at
    outcome ← codec.load_outcome outcome_json
    run ← validate_lifecycle (record {
      id = row.id;
      session_id = row.session_id;
      prompt = row.prompt;
      started_at = started_at;
      ended_at = ended;
      model = row.model;
      provider = row.provider;
      outcome = outcome;
    })
    checked_status row.status run
  terminal_columns row _ _ = err (
      value_error (
        text_append "Terminal run row "
          (text_append (codec.repr row.id) " is missing terminal data.")))

  unfoldable pub run_from_row : RunRow → Result RowError RunRecord
  run_from_row row =
      if str_eq row.status "active"
      then active_run_from_row row
      else terminal_columns row row.ended_at row.outcome_json

  unfoldable pub history_values : String → ConversationItem → String → String → ℕ → ℕ → HistoryRow
  history_values uuid item run_id session_id position created_at = record {
    id = uuid;
    session_id = session_id;
    run_id = run_id;
    position = position;
    role = role_of item;
    payload_json = codec.dump_conversation_item item;
    created_at = codec.isoformat created_at;
  }

  unfoldable pub checked_role : HistoryRow → ConversationItem → Result RowError ConversationItem
  checked_role row item =
      if not (str_eq (role_of item) row.role)
      then err (
          invalid_history (
            text_append "Stored history role " (
              text_append (codec.repr row.role) (
                text_append " contradicts payload role "
                  (text_append (codec.repr (role_of item)) ".")))))
      else ok item

  unfoldable pub history_from_row : HistoryRow → Result RowError HistoryItem
  history_from_row row = do
    payload ← codec.load_conversation_item row.payload_json
    item ← checked_role row payload
    created_at ← codec.fromisoformat row.created_at
    ok (record {
      id = row.id;
      session_id = row.session_id;
      run_id = row.run_id;
      position = row.position;
      item = item;
      created_at = created_at;
    })
