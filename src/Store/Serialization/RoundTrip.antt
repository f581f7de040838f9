-- ===== src/Store/Serialization/RoundTrip.antt =====
-- Rows are read as the records that they were written from.
use tile.Prelude.{
  ◌≤◌, String, ◌≡◌, refl, sym, ap, subst, ◌∙◌, ◌≢◌, inl, inr, true, false, Option, none, some,
  arith, Bool-cases, ok, bind_ok, ok_inj, str_eq, eq_refl, eq_iff,
}
use tile.Store.Models.{
  ActiveRun, TerminalRun, RunRecord, HistoryItem, active, terminal, TerminalRunStatus,
  terminal_status_for, completed_status, failed_status, aborted_status,
}
use tile.Store.Consistency.{RunTimes}
use tile.Store.Serialization.{
  Codec, RunRow, TerminalRunValues, run_values, terminal_run_values, run_from_row,
  active_run_from_row, active_columns, terminal_columns, checked_status, status_text,
  history_values, history_from_row, validate_lifecycle, checked_role, role_of,
}

-- What the conditional `UPDATE` makes of the row of the active run.
abbrev pub updated_row : RunRow → TerminalRunValues → RunRow
updated_row row values = record row {
  status = values.status;
  ended_at = some values.ended_at;
  outcome_json = some values.outcome_json;
}

abbrev pub active_part : TerminalRun → ActiveRun
active_part r = record {
  id = r.id;
  session_id = r.session_id;
  prompt = r.prompt;
  started_at = r.started_at;
  model = r.model;
  provider = r.provider;
}

-- The row that the store holds for a run.
abbrev pub row_of : Codec → RunRecord → RunRow
row_of codec (active r) = run_values codec r
row_of codec (terminal r) =
    updated_row (run_values codec (active_part r)) (terminal_run_values codec r)

-- The status of a record, as the text of its column.
abbrev pub status_of : RunRecord → String
status_of (active r) = "active"
status_of (terminal r) = status_text (terminal_status_for r.outcome)

-- The codec reads what it has written of a record.
abbrev pub ReadsRun : Codec → RunRecord → Type 0
ReadsRun codec (active r) = codec.fromisoformat (codec.isoformat r.started_at) ≡ ok r.started_at
ReadsRun codec (terminal r) =
    (codec.fromisoformat (codec.isoformat r.started_at) ≡ ok r.started_at)
    × (codec.fromisoformat (codec.isoformat r.ended_at) ≡ ok r.ended_at)
    × (codec.load_outcome (codec.dump_outcome r.outcome) ≡ ok r.outcome)

-- The status of a run that has ended is not the one of an active run.
status_text-ended : (status : TerminalRunStatus) → str_eq (status_text status) "active" ≡ false
unfolding status_text
status_text-ended completed_status = refl
status_text-ended failed_status = refl
status_text-ended aborted_status = refl

-- A run that does not end before it starts is valid.
validate_lifecycle-ok : (r : TerminalRun) → r.started_at ≤ r.ended_at → validate_lifecycle r ≡ ok r
unfolding validate_lifecycle
validate_lifecycle-ok r h = ground (arith, h)

-- The columns of a run, active or ended, are read as the record that they were written from. The run
-- must not end before it starts, as in a consistent database, and the codec must read what it has written.
pub run_from_row-row_of :
    (codec : Codec) (r : RunRecord)
    → RunTimes r
    → ReadsRun codec r
    → run_from_row codec (row_of codec r) ≡ ok r
unfolding run_from_row run_values active_run_from_row active_columns terminal_columns
    terminal_run_values checked_status
run_from_row-row_of codec (active r) times h = rw h refl
run_from_row-row_of codec (terminal r) times h =
    rw
      (
        status_text-ended (terminal_status_for r.outcome),
        h.0,
        h.1,
        h.2,
        validate_lifecycle-ok r times,
        eq_refl (status_text (terminal_status_for r.outcome)),
      )
      refl

-- The columns of a committed item are read as the envelope of that item.
pub history_from_row-history_values :
    (codec : Codec) (r : HistoryItem)
    → codec.load_conversation_item (codec.dump_conversation_item r.item) ≡ ok r.item
    → codec.fromisoformat (codec.isoformat r.created_at) ≡ ok r.created_at
    → history_from_row codec
        (history_values codec r.id r.item r.run_id r.session_id r.position r.created_at)
      ≡ ok r
unfolding history_from_row history_values checked_role
history_from_row-history_values codec r h k = rw (h, eq_refl (role_of r.item), k) refl

module _ (codec : Codec) where
  active_columns-ok :
      (row : RunRow) (ended_at outcome_json : Option String) (r : RunRecord)
      → active_columns codec row ended_at outcome_json ≡ ok r
      → status_of r ≡ "active"
  unfolding active_columns
  active_columns-ok row none none r h =
      let started = bind_ok (codec.fromisoformat row.started_at) _ r h in
      subst (λ (x : RunRecord). status_of x ≡ "active") (ok_inj _ r (started.2)) refl
  active_columns-ok row none (some outcome_json) r h = absurd (cc)
  active_columns-ok row (some ended_at) outcome_json r h = absurd (cc)

  checked_status-refused :
      (status : String) (t : TerminalRun) (r : RunRecord)
      → str_eq (status_text (terminal_status_for t.outcome)) status ≡ false
      → checked_status codec status t ≢ ok r
  unfolding checked_status
  checked_status-refused status t r h = rw h (λ e. absurd (cc))

  checked_status-accepted :
      (status : String) (t : TerminalRun)
      → str_eq (status_text (terminal_status_for t.outcome)) status ≡ true
      → checked_status codec status t ≡ ok (terminal t)
  unfolding checked_status
  checked_status-accepted status t h = rw h refl

  checked_status-ok :
      (status : String) (t : TerminalRun) (r : RunRecord)
      → checked_status codec status t ≡ ok r
      → status ≡ status_of r
  checked_status-ok status t r h =
      elim (Bool-cases (str_eq (status_text (terminal_status_for t.outcome)) status)) [
        | inl e ↦
            sym ((eq_iff (status_text (terminal_status_for t.outcome)) status).0 e)
            ∙ ap status_of (ok_inj (terminal t) r (sym (checked_status-accepted status t e) ∙ h))
        | inr e ↦ absurd (checked_status-refused status t r e h)
      ]

  terminal_columns-ok :
      (row : RunRow) (ended_at outcome_json : Option String) (r : RunRecord)
      → terminal_columns codec row ended_at outcome_json ≡ ok r
      → row.status ≡ status_of r
  unfolding terminal_columns
  terminal_columns-ok row none outcome_json r h = absurd (cc)
  terminal_columns-ok row (some ended_at) none r h = absurd (cc)
  terminal_columns-ok row (some ended_at) (some outcome_json) r h =
      let started = bind_ok (codec.fromisoformat row.started_at) _ r h in
      let ended = bind_ok (codec.fromisoformat ended_at) _ r (started.2) in
      let outcome = bind_ok (codec.load_outcome outcome_json) _ r (ended.2) in
      let valid = bind_ok (validate_lifecycle _) _ r (outcome.2) in
      checked_status-ok row.status (valid.0) r (valid.2)

  run_from_row-active :
      (row : RunRow)
      → str_eq row.status "active" ≡ true
      → run_from_row codec row ≡ active_columns codec row row.ended_at row.outcome_json
  unfolding run_from_row active_run_from_row
  run_from_row-active row h = rw h refl

  run_from_row-ended :
      (row : RunRow)
      → str_eq row.status "active" ≡ false
      → run_from_row codec row ≡ terminal_columns codec row row.ended_at row.outcome_json
  unfolding run_from_row
  run_from_row-ended row h = rw h refl

  -- A row that is read at all, whatever it holds, has the status of the record that is read: a row whose
  -- status contradicts its outcome is refused.
  pub run_from_row-status_of :
      (row : RunRow) (r : RunRecord) → run_from_row codec row ≡ ok r → row.status ≡ status_of r
  run_from_row-status_of row r h = elim (Bool-cases (str_eq row.status "active")) [
    | inl e ↦
        (eq_iff row.status "active").0 e
        ∙ sym (
            active_columns-ok row row.ended_at row.outcome_json r
              (sym (run_from_row-active row e) ∙ h))
    | inr e ↦
        terminal_columns-ok row row.ended_at row.outcome_json r (sym (run_from_row-ended row e) ∙ h)
  ]
