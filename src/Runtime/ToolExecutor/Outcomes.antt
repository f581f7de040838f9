-- ===== src/Runtime/ToolExecutor/Outcomes.antt =====
-- `ToolExecutor.execute` answers every call but a cancelled one.
use tile.Prelude.{
  ◌&&◌, String, Bool, true, false, ◌≡◌, refl, ap, ◌⊎◌, inl, inr, List, Result, ok, err, value_or,
}
use tile.Types.Json.{JsonObject}
use tile.Types.Tools.{ToolResult}
use tile.Types.ToolExecution.{ToolExecutionOutcome, from_result, from_error}
use tile.Outcome.{
  Raised, turn_failed, stream_protocol, tool_error, store_error, exception, cancelled,
}
use tile.Runtime.Environment.{ToolDefinition, Environment}
use tile.Runtime.Monad.{RunState, raised, call, from_world}
use tile.Runtime.ToolExecutor.{call_tool, execute, normalized, outcome_of}

abbrev pub is_err {ℓ κ} : {E : Type ℓ} {A : Type κ} → Result E A → Bool
is_err (ok a) = false
is_err (err e) = true

-- An outcome that belongs to a call, and tells whether the tool has failed; only a tool that
-- succeeds can end the agent's loop.
pub record Answers (call_id tool_name : String) (r : Result Raised ToolResult)
    (o : ToolExecutionOutcome) : Type 0 where
  pub same_call : o.tool_result_turn.call_id ≡ call_id
  pub same_tool : o.tool_result_turn.tool_name ≡ tool_name
  pub error_flag : o.tool_result_turn.is_error ≡ is_err r
  pub error_continues : (is_err r && o.terminate) ≡ false

module _ {W : Type 0} (env : Environment W) where
  abbrev Answered : String → String → Result Raised ToolResult → Type 0
  Answered call_id tool_name r =
      ((r ≡ err cancelled) × (normalized env call_id tool_name r ≡ err cancelled))
      ⊎ ((o : ToolExecutionOutcome) × (normalized env call_id tool_name r ≡ ok o)
          × Answers call_id tool_name r o)

  failure-Answers :
      (call_id tool_name : String) (e : Raised) (message : String) (details : _)
      → Answers call_id tool_name (err e) (from_error call_id tool_name message details)
  unfolding from_error
  failure-Answers call_id tool_name e message details = record {
    same_call = refl;
    same_tool = refl;
    error_flag = refl;
    error_continues = refl;
  }

  normalized_lem :
      (call_id tool_name : String) (r : Result Raised ToolResult) → Answered call_id tool_name r
  unfolding from_result
  normalized_lem call_id tool_name (ok result) = inr (
    from_result call_id tool_name result,
    refl,
    record { same_call = refl; same_tool = refl; error_flag = refl; error_continues = refl },
  )
  normalized_lem call_id tool_name (err cancelled) = inl (refl, refl)
  normalized_lem call_id tool_name (err (turn_failed x)) =
      inr (_, refl, failure-Answers call_id tool_name _ _ _)
  normalized_lem call_id tool_name (err (stream_protocol x)) =
      inr (_, refl, failure-Answers call_id tool_name _ _ _)
  normalized_lem call_id tool_name (err (tool_error x y)) =
      inr (_, refl, failure-Answers call_id tool_name _ _ _)
  normalized_lem call_id tool_name (err (store_error x)) =
      inr (_, refl, failure-Answers call_id tool_name _ _ _)
  normalized_lem call_id tool_name (err (exception x y)) =
      inr (_, refl, failure-Answers call_id tool_name _ _ _)

  from_world-first :
      {A : Type 0} (r : Result Raised A × W) (s : RunState W) (x : A)
      → r.0 ≡ ok x
      → (from_world r s).0 ≡ ok x
  from_world-first (ok a, w) s x h = ap (λ r. ok (value_or r a)) h
  from_world-first (err e, w) s x h = absurd (cc)

  from_world-raised :
      {A : Type 0} (r : Result Raised A × W) (s : RunState W)
      → r.0 ≡ err cancelled
      → (from_world r s).0 ≡ err (raised cancelled)
  from_world-raised (ok a, w) s h = absurd (cc)
  from_world-raised (err e, w) s h = cc

  -- `execute` either returns an outcome that has the call's id and name, that is an error exactly when
  -- the lookup, the validation or the tool has raised, and that can end the agent's loop only where
  -- none has; or the tool was cancelled, and the cancellation passes through. It raises nothing else.
  pub execute-Answers :
      (tools : List (ToolDefinition W)) (call_id tool_name : String) (arguments : JsonObject)
      (s : RunState W)
      → (((call_tool env tools tool_name arguments s.world).0 ≡ err cancelled)
          × ((execute env tools call_id tool_name arguments s).0 ≡ err (raised cancelled)))
        ⊎ ((o : ToolExecutionOutcome) × ((execute env tools call_id tool_name arguments s).0 ≡ ok o)
            × Answers call_id tool_name (call_tool env tools tool_name arguments s.world).0 o)
  unfolding execute call
  execute-Answers tools call_id tool_name arguments s =
      let r = call_tool env tools tool_name arguments s.world in
      elim (normalized_lem call_id tool_name r.0) [
        | inl (e, p) ↦ inl (e, from_world-raised (outcome_of env call_id tool_name r) s p)
        | inr (o, p, a) ↦ inr (o, from_world-first (outcome_of env call_id tool_name r) s o p, a)
      ]
