-- ===== src/Store/Models.antt =====
-- tile/store/models.py: persistent records. A timestamp is a number of microseconds, in UTC; `now`
-- is what the clock returned.
use tile.Prelude.{ℕ, String, max, List}
use tile.Types.Conversation.{ConversationItem}
use tile.Outcome.{RunOutcome, completed, failed, aborted}

pub record SessionRecord : Type 0 where
  pub id : String
  pub created_at : ℕ
  pub updated_at : ℕ

pub record ActiveRun : Type 0 where
  pub id : String
  pub session_id : String
  pub prompt : String
  pub started_at : ℕ
  pub model : String
  pub provider : String

pub record TerminalRun : Type 0 where
  pub id : String
  pub session_id : String
  pub prompt : String
  pub started_at : ℕ
  pub ended_at : ℕ
  pub model : String
  pub provider : String
  pub outcome : RunOutcome

pub data RunRecord : Type 0 where
  active : ActiveRun → RunRecord
  terminal : TerminalRun → RunRecord

pub record HistoryItem : Type 0 where
  pub id : String
  pub session_id : String
  pub run_id : String
  pub position : ℕ
  pub item : ConversationItem
  pub created_at : ℕ

pub record StartedRun : Type 0 where
  pub run : ActiveRun
  pub committed_history : List HistoryItem

pub data TerminalRunStatus : Type 0 where
  completed_status failed_status aborted_status : TerminalRunStatus

unfoldable pub terminal_status_for : RunOutcome → TerminalRunStatus
terminal_status_for (completed v) = completed_status
terminal_status_for (failed c) = failed_status
terminal_status_for aborted = aborted_status

unfoldable pub new_session_record : ℕ → String → SessionRecord
new_session_record now session_id = record { id = session_id; created_at = now; updated_at = now }

unfoldable pub new_active_run_record : ℕ → String → String → String → String → String → ActiveRun
new_active_run_record now run_id session_id prompt model provider = record {
  id = run_id;
  session_id = session_id;
  prompt = prompt;
  started_at = now;
  model = model;
  provider = provider;
}

unfoldable pub terminal_run_record : ℕ → ActiveRun → RunOutcome → TerminalRun
terminal_run_record now run outcome = record {
  id = run.id;
  session_id = run.session_id;
  prompt = run.prompt;
  started_at = run.started_at;
  ended_at = max now run.started_at;
  model = run.model;
  provider = run.provider;
  outcome = outcome;
}

abbrev pub run_id_of : RunRecord → String
run_id_of (active r) = r.id
run_id_of (terminal r) = r.id

abbrev pub session_of : RunRecord → String
session_of (active r) = r.session_id
session_of (terminal r) = r.session_id

abbrev pub started_at_of : RunRecord → ℕ
started_at_of (active r) = r.started_at
started_at_of (terminal r) = r.started_at
