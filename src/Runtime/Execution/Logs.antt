-- ===== src/Runtime/Execution/Logs.antt =====
-- A prompt program only adds inner events to the log of its run.
use tile.Prelude.{refl, ℕ, zero, suc, Option, none, some}
use tile.Outcome.{RunOutcome, max_result_follow_ups}
use tile.Runtime.Environment.{Environment}
use tile.Runtime.Monad.{Code}
use tile.Runtime.Monad.Logs.{Grows, pure-Grows, call-Grows, emit-Grows, bind-Grows}
use tile.Runtime.Agent.Logs.{build_system_prompt-Grows, run_agent-Grows}
use tile.Runtime.Execution.{
  Dependencies, ResultType, run_attempt, execute_plain, execute_typed, typed_attempt_dependencies,
  attempts, or_follow_up, execute_prompt,
}

module _ {W : Type 0} (env : Environment W) where
  pub run_attempt-Grows : (fuel : ℕ) (deps : Dependencies W) → Grows (run_attempt env fuel deps)
  unfolding run_attempt
  run_attempt-Grows fuel deps = bind-Grows _ _ (build_system_prompt-Grows env _ _) λ instructions.
      record {
        grown = λ s. (run_agent-Grows env deps.tools instructions fuel s.history.working).grown s;
      }

  or_follow_up-Grows :
      (o : Option RunOutcome) (next : Code W RunOutcome)
      → Grows next
      → Grows (or_follow_up env o next)
  or_follow_up-Grows none next h = h
  or_follow_up-Grows (some o) next h = pure-Grows o

  attempts-Grows :
      (fuel : ℕ) (deps : Dependencies W) (left : ℕ) → Grows (attempts env fuel deps left)
  unfolding attempts
  attempts-Grows fuel deps zero =
      bind-Grows _ _ (run_attempt-Grows fuel deps) λ r. or_follow_up-Grows _ _ (pure-Grows _)
  attempts-Grows fuel deps (suc left) = bind-Grows _ _ (run_attempt-Grows fuel deps) λ r.
      or_follow_up-Grows _ _ (bind-Grows _ _ (emit-Grows _ refl) λ u. attempts-Grows fuel deps left)

  -- A prompt program, however it ends, has only added inner events to the log, and the history of its
  -- run has observed exactly these.
  pub execute_prompt-Grows :
      (fuel : ℕ) (deps : Dependencies W) (result : Option ResultType)
      → Grows (execute_prompt env fuel deps result)
  unfolding execute_prompt execute_plain execute_typed typed_attempt_dependencies
  execute_prompt-Grows fuel deps none =
      bind-Grows _ _ (run_attempt-Grows fuel deps) λ r. pure-Grows _
  execute_prompt-Grows fuel deps (some result) =
      bind-Grows _ _ (bind-Grows _ _ (call-Grows _) λ tools. pure-Grows _)
        λ attempt_deps. attempts-Grows fuel attempt_deps max_result_follow_ups
