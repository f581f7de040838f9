-- ===== src/Runtime/Execution/Ends.antt =====
-- A prompt program ends when the provider asks for tools only finitely often.
use mathlib.Core.Path.{subst}
use native.Mathlib.Nat.{le_refl}
use tile.Prelude.{
  ◌∙◌, value_or, ℕ, zero, suc, ◌<◌, ◌≤◌, String, Bool, ◌≡◌, ◌≢◌, sym, ap, List, [], ◌∷◌, ◌++◌, ◌⊎◌,
  Option, none, some, Result, ok, err, All, All-append,
}
use tile.Types.Conversation.{ConversationItem}
use tile.Outcome.{Raised, RunOutcome, max_result_follow_ups}
use tile.Runtime.Environment.{ToolDefinition, Environment, Stream}
use tile.Runtime.Monad.{call, Code, RunState, exhausted}
use tile.Runtime.Monad.Budget.{
  Calm, pure-Calm, call-Calm, emit-Calm, bind-Calm, Enough, Calm-Enough, bind-Enough,
}
use tile.Runtime.Monad.Returns.{call-ok, bind-ok, pure-ok}
use tile.Runtime.Prompt.{
  build_system_prompt, read_project_context, context_parts, project_context_filenames,
}
use tile.Runtime.ToolExecutor.{new_executor, check_tools}
use tile.Runtime.Agent.Quiet.{Quiet}
use tile.Runtime.Agent.Ends.{Frugal, run_agent-Enough}
use tile.Runtime.Execution.{
  Dependencies, ResultType, complete_tool, fail_tool, run_attempt, execute_plain, execute_typed,
  typed_attempt_dependencies, attempts, or_follow_up, execute_prompt,
}

module _ {W : Type 0} (env : Environment W) (budget : W → ℕ)
    (reads : (filename : String) (w : W) → budget (env.project_file filename w).1 ≤ budget w)
    (spends : (items : List ConversationItem) (instructions : String)
        (tools : List (ToolDefinition W)) (w : W)
      → (budget (env.stream items instructions tools w).1 ≤ budget w)
        × ((stream : Stream)
            → (env.stream items instructions tools w).0 ≡ ok stream
            → (budget (env.stream items instructions tools w).1 < budget w)
              ⊎ All Quiet stream.events)) where
  context_parts-Calm : (filenames : List String) → Calm budget (context_parts env filenames)
  unfolding context_parts
  context_parts-Calm [] = pure-Calm budget []
  context_parts-Calm (f ∷ filenames) =
      bind-Calm budget _ _ (call-Calm budget (env.project_file f) (reads f))
        λ content. bind-Calm budget _ _ (context_parts-Calm filenames) λ parts. pure-Calm budget _

  build_system_prompt-Calm :
      (instructions : String) (auto_mode : Bool)
      → Calm budget (build_system_prompt env instructions auto_mode)
  unfolding build_system_prompt read_project_context
  build_system_prompt-Calm instructions auto_mode =
      bind-Calm budget _ _ (call-Calm budget _ λ w. le_refl (budget w)) λ environment.
        bind-Calm budget _ _
          (bind-Calm budget _ _ (context_parts-Calm project_context_filenames)
            λ parts. pure-Calm budget _)
          λ context. pure-Calm budget _

  run_attempt-Enough :
      (fuel : ℕ) (deps : Dependencies W)
      → All (Frugal budget) deps.tools
      → Enough budget fuel (run_attempt env fuel deps)
  unfolding run_attempt
  run_attempt-Enough fuel deps frugal =
      bind-Enough budget fuel _ _ (Calm-Enough budget fuel _ (build_system_prompt-Calm _ _))
        λ instructions s t e.
          let agent = λ (items : List ConversationItem).
            run_agent-Enough env budget deps.tools frugal instructions
              (λ items w. spends items instructions deps.tools w) fuel items in
          record {
            spends = λ s. (agent s.history.working).spends s;
            ends = λ s h. (agent s.history.working).ends s h;
          }

  or_follow_up-Enough :
      (fuel : ℕ) (o : Option RunOutcome) (next : Code W RunOutcome)
      → Enough budget fuel next
      → Enough budget fuel (or_follow_up env o next)
  or_follow_up-Enough fuel none next h = h
  or_follow_up-Enough fuel (some o) next h = Calm-Enough budget fuel _ (pure-Calm budget o)

  attempts-Enough :
      (fuel : ℕ) (deps : Dependencies W) (left : ℕ)
      → All (Frugal budget) deps.tools
      → Enough budget fuel (attempts env fuel deps left)
  unfolding attempts
  attempts-Enough fuel deps zero h =
      bind-Enough budget fuel _ _ (run_attempt-Enough fuel deps h)
        λ r s t e. or_follow_up-Enough fuel _ _ (Calm-Enough budget fuel _ (pure-Calm budget _))
  attempts-Enough fuel deps (suc left) h =
      bind-Enough budget fuel _ _ (run_attempt-Enough fuel deps h) λ r s t e.
        or_follow_up-Enough fuel _ _ (
          bind-Enough budget fuel _ _ (Calm-Enough budget fuel _ (emit-Calm budget _))
            λ u s t e. attempts-Enough fuel deps left h)

  new_executor-same :
      (tools : List (ToolDefinition W)) {kept : List (ToolDefinition W)}
      → new_executor env tools ≡ ok kept
      → kept ≡ tools
  unfolding new_executor
  new_executor-same tools {kept} h = go (check_tools env [] tools) h
    where
      go :
          (r : Result Raised (Unit {0}))
          → (elim r as (λ x. Result Raised (List (ToolDefinition W))) [
            | ok u ↦ ok tools
            | err e ↦ err e
          ])
            ≡ ok kept
          → kept ≡ tools
      go (ok u) e = ap (λ r. value_or r tools) (sym e)
      go (err x) e = absurd (cc)

  typed_tools-Frugal :
      (tools : List (ToolDefinition W)) (result : ResultType)
      → All (Frugal budget) tools
      → All (Frugal budget) (tools ++ complete_tool env result ∷ fail_tool env ∷ [])
  unfolding complete_tool fail_tool
  typed_tools-Frugal tools result h =
      All-append _ tools _ h ((λ a w. le_refl (budget w)), ((λ a w. le_refl (budget w)), tt))

  typed_dependencies-tools :
      (deps : Dependencies W) (result : ResultType) (s : RunState W) {attempt_deps : Dependencies W}
      {t : RunState W}
      → typed_attempt_dependencies env deps result s ≡ (ok attempt_deps, t)
      → attempt_deps.tools ≡ deps.tools ++ complete_tool env result ∷ fail_tool env ∷ []
  unfolding typed_attempt_dependencies
  typed_dependencies-tools deps result s e =
      let (tools, s1, e1, rest) = bind-ok (call _) _ s e in
      let (same, _) = pure-ok _ s1 rest in
      ap (λ d. d.tools) (sym same) ∙ new_executor-same _ (call-ok _ s e1).0

  -- With more fuel than the world's budget, a prompt program never runs out of fuel: it concludes or
  -- raises. Reading a file and calling a tool must not add to the budget, and the provider must spend
  -- some of it on each stream that asks for tools and never add to it.
  pub execute_prompt-ends :
      (fuel : ℕ) (deps : Dependencies W) (result : Option ResultType) (s : RunState W)
      → All (Frugal budget) deps.tools
      → budget s.world < fuel
      → (execute_prompt env fuel deps result s).0 ≢ err exhausted
  unfolding execute_prompt execute_plain execute_typed typed_attempt_dependencies
  execute_prompt-ends fuel deps none s h =
      (bind-Enough budget fuel _ _ (run_attempt-Enough fuel deps h)
          λ r s t e. Calm-Enough budget fuel _ (pure-Calm budget _)).ends
        s
  execute_prompt-ends fuel deps (some result) s h =
      (bind-Enough budget fuel _ _
          (Calm-Enough budget fuel _ (
            bind-Calm budget _ _ (call-Calm budget _ λ w. le_refl (budget w))
              λ tools. pure-Calm budget _))
          λ attempt_deps s t e. attempts-Enough fuel attempt_deps max_result_follow_ups (
            subst (λ tools. All (Frugal budget) tools)
              (sym (typed_dependencies-tools deps result s e))
              (typed_tools-Frugal deps.tools result h))).ends
        s
