-- ===== src/Runtime/Execution/Outcomes.antt =====
-- How a typed prompt concludes.
use mathlib.Core.Path.{subst}
use tile.Prelude.{ℕ, zero, suc, ◌≡◌, refl, Bool, true, false, Option, none, some, List, [], ◌∷◌, ok}
use tile.Types.Tools.{
  ToolDetails, complete_details, fail_details, input_validation_failure, invocation_failure, other,
}
use tile.Types.ToolExecution.{ToolExecutionOutcome}
use tile.Outcome.{
  RunOutcome, completed, failed, aborted, text, fields, agent_failure, execution_failure,
  max_result_follow_ups,
}
use tile.Runtime.Environment.{Environment}
use tile.Runtime.Monad.{Code, RunState, emit}
use tile.Runtime.Monad.Returns.{bind-ok, pure-ok}
use tile.Runtime.Execution.{
  Dependencies, ResultType, result_outcome, result_of_details, if_terminating, run_attempt,
  typed_attempt_dependencies, attempts, or_follow_up, execute_typed,
}

-- The agent's own conclusions of a typed prompt: the fields of a result, or a failure that it declared
-- or that stands for its silence. Text does not conclude one.
abbrev pub concludes_typed : RunOutcome → Bool
concludes_typed (completed (fields v)) = true
concludes_typed (completed (text t)) = false
concludes_typed (failed (agent_failure r)) = true
concludes_typed (failed (execution_failure a b c)) = false
concludes_typed aborted = false

abbrev Concludes : Option RunOutcome → Type 0
Concludes none = Unit
Concludes (some o) = concludes_typed o ≡ true

details-Concludes :
    (details : Option ToolDetails) (later : Option RunOutcome)
    → Concludes later
    → Concludes (result_of_details details later)
details-Concludes none later h = h
details-Concludes (some (complete_details v)) later h = refl
details-Concludes (some (fail_details r)) later h = refl
details-Concludes (some (input_validation_failure a b)) later h = h
details-Concludes (some (invocation_failure a b c)) later h = h
details-Concludes (some (other a b)) later h = h

terminating-Concludes :
    (b : Bool) (found later : Option RunOutcome)
    → Concludes found
    → Concludes later
    → Concludes (if_terminating b found later)
terminating-Concludes true found later h k = h
terminating-Concludes false found later h k = k

result_outcome-Concludes :
    (executions : List ToolExecutionOutcome) → Concludes (result_outcome executions)
unfolding result_outcome
result_outcome-Concludes [] = tt
result_outcome-Concludes (e ∷ executions) =
    let later = result_outcome-Concludes executions in
    terminating-Concludes e.terminate _ _ (details-Concludes e.details _ later) later

module _ {W : Type 0} (env : Environment W) where
  or_follow_up-typed :
      (found : Option RunOutcome) (next : Code W RunOutcome) (s : RunState W) {o : RunOutcome}
      {t : RunState W}
      → Concludes found
      → or_follow_up env found next s ≡ (ok o, t)
      → (next s ≡ (ok o, t) → concludes_typed o ≡ true)
      → concludes_typed o ≡ true
  or_follow_up-typed none next s c h k = k h
  or_follow_up-typed (some a) next s c h k =
      subst (λ x. concludes_typed x ≡ true) (pure-ok a s h).0 c

  attempts-typed :
      (fuel : ℕ) (deps : Dependencies W) (left : ℕ) (s : RunState W) {o : RunOutcome}
      {t : RunState W}
      → attempts env fuel deps left s ≡ (ok o, t)
      → concludes_typed o ≡ true
  unfolding attempts
  attempts-typed fuel deps zero s h =
      let (r, s1, _, rest) = bind-ok (run_attempt env fuel deps) _ s h in
      or_follow_up-typed (result_outcome r.tool_executions) _ s1
        (result_outcome-Concludes r.tool_executions) rest
        λ e. subst (λ x. concludes_typed x ≡ true) (pure-ok _ s1 e).0 refl
  attempts-typed fuel deps (suc left) s h =
      let (r, s1, _, rest) = bind-ok (run_attempt env fuel deps) _ s h in
      or_follow_up-typed (result_outcome r.tool_executions) _ s1
        (result_outcome-Concludes r.tool_executions) rest
        λ e. let (_, s2, _, next) = bind-ok (emit _) _ s1 e in attempts-typed fuel deps left s2 next

  -- A typed prompt that returns has concluded with the fields of a result or with an agent's failure:
  -- text never ends it.
  pub execute_typed-concludes_typed :
      (fuel : ℕ) (deps : Dependencies W) (result : ResultType) (s : RunState W) {o : RunOutcome}
      {t : RunState W}
      → execute_typed env fuel deps result s ≡ (ok o, t)
      → concludes_typed o ≡ true
  unfolding execute_typed
  execute_typed-concludes_typed fuel deps result s h =
      let (attempt_deps, s1, _, rest) =
        bind-ok (typed_attempt_dependencies env deps result) _ s h in
      attempts-typed fuel attempt_deps max_result_follow_ups s1 rest
