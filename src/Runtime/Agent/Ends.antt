-- ===== src/Runtime/Agent/Ends.antt =====
-- The agent loop ends when the provider asks for tools only finitely often: `budget` is what the world
-- still grants, a stream that asks for tools costs some of it, and no tool earns any.
use mathlib.Core.Path.{subst}
use tile.Prelude.{
  ℕ, zero, suc, ◌≤◌, ◌<◌, String, Bool, Bool-cases, ◌≡◌, ◌≢◌, refl, ap, List, [], ◌∷◌, Result, ok,
  err, Option, none, some, inl, inr, ◌⊎◌, true, false, All, find_first, str_eq, arith,
}
use tile.Outcome.{Raised}
use tile.Types.Json.{JsonObject}
use tile.Types.Tools.{ToolResult}
use tile.Types.StreamEvents.{
  ToolCallBlock, ProviderStreamEvent, stream_start, update, stream_done, stream_error,
}
use tile.Types.Conversation.{ConversationItem}
use tile.Types.ToolExecution.{ToolExecutionOutcome}
use tile.Runtime.Environment.{ToolDefinition, Environment, Stream}
use tile.Runtime.Monad.{stop, RunState, Code, exhausted, call, ◌>>=◌}
use tile.Runtime.Monad.Returns.{bind-ok, call-ok, call-world}
use tile.Runtime.Monad.Budget.{
  Enough, Calm-Enough, bind-Enough, continue-spends, continue-ended, Calm, pure-Calm, stop-Calm,
  call-Calm, emit-Calm, bind-Calm,
}
use tile.Runtime.ToolExecutor.{
  execute, call_tool, require_tool, get_tool, invoke, validate_arguments,
}
use tile.Runtime.Agent.Quiet.{Quiet, consume-Quiet, quiet-should_continue}
use tile.Runtime.Agent.{
  stop, run_agent, TurnResult, execute_tool, execute_calls, handle_stream_event,
  handle_stream_done_event, handle_stream_error_event, emit_turn_start, end_of_stream, or_else,
  consume, run_provider_turn, run_agent_loop, should_continue,
}

-- A tool that earns nothing.
abbrev pub Frugal : {W : Type 0} → (W → ℕ) → ToolDefinition W → Type 0
Frugal budget tool = (arguments : JsonObject) (w : _) → budget (tool.fn arguments w).1 ≤ budget w

-- What is left after a turn that the loop goes on from is below the fuel that is left.
continued :
    {a b fuel : ℕ} {goes_on : Bool}
    → (a < b) ⊎ (goes_on ≡ false)
    → goes_on ≡ true
    → b < suc fuel
    → a < fuel
continued (inl less) c h = omega arith
continued (inr stops) c h = absurd (cc)

module _ {W : Type 0} (env : Environment W) (budget : W → ℕ) (tools : List (ToolDefinition W)) where
  find_first-Frugal :
      (q : ToolDefinition W → Bool) (xs : List (ToolDefinition W)) (tool : ToolDefinition W)
      → All (Frugal budget) xs
      → find_first q xs ≡ some tool
      → Frugal budget tool
  find_first-Frugal q [] tool h e = absurd (cc)
  find_first-Frugal q (x ∷ xs) tool h e = elim (Bool-cases (q x)) [
    | inl c ↦ let now : x ≡ tool = ground (arith, c, e) in subst (Frugal budget) now h.0
    | inr c ↦ find_first-Frugal q xs tool h.1 (ground (arith, c, e))
  ]

  require_tool-Frugal :
      (name : String) (tool : ToolDefinition W)
      → All (Frugal budget) tools
      → require_tool env tools name ≡ ok tool
      → Frugal budget tool
  unfolding require_tool get_tool
  require_tool-Frugal name tool h e =
      find_first-Frugal (λ t. str_eq (env.lower t.name) (env.strip (env.lower name))) tools tool h
        (ground (arith, e))

  ran-Frugal :
      (v : Result Raised JsonObject) (tool : ToolDefinition W) (w : W)
      → Frugal budget tool
      → budget
          (elim v as (λ x. Result Raised ToolResult × W) [
            | err e ↦ (err e, w)
            | ok validated ↦ tool.fn validated w
          ]).1
        ≤ budget w
  ran-Frugal (ok validated) tool w h = h validated w
  ran-Frugal (err e) tool w h = ground arith

  invoke-Frugal :
      (r : Result Raised (ToolDefinition W)) (arguments : JsonObject) (w : W)
      → ((tool : ToolDefinition W) → r ≡ ok tool → Frugal budget tool)
      → budget (invoke env r arguments w).1 ≤ budget w
  invoke-Frugal (ok tool) arguments w h =
      ran-Frugal (validate_arguments env tool arguments) tool w (h tool refl)
  invoke-Frugal (err e) arguments w h = ground arith

  module _ (frugal : All (Frugal budget) tools) where
    execute-Calm :
        (call_id name : String) (arguments : JsonObject)
        → Calm budget (execute env tools call_id name arguments)
    unfolding execute call_tool
    execute-Calm call_id name arguments = call-Calm budget _ λ w.
        invoke-Frugal (require_tool env tools name) arguments w
          (λ tool. require_tool-Frugal name tool frugal)

    execute_calls-Calm : (calls : List ToolCallBlock) → Calm budget (execute_calls env tools calls)
    unfolding execute_calls execute_tool
    execute_calls-Calm [] = pure-Calm budget []
    execute_calls-Calm (c ∷ calls) =
        bind-Calm budget _ _
          (bind-Calm budget _ _ (emit-Calm budget _) λ u.
            bind-Calm budget _ _ (execute-Calm _ _ _)
              λ o. bind-Calm budget _ _ (emit-Calm budget _) λ u. pure-Calm budget o)
          λ o. bind-Calm budget _ _ (execute_calls-Calm calls) λ os. pure-Calm budget _

    handle_stream_event-Calm :
        (event : ProviderStreamEvent) → Calm budget (handle_stream_event env tools event)
    unfolding handle_stream_event handle_stream_done_event handle_stream_error_event emit_turn_start
    handle_stream_event-Calm (stream_start source response_id) =
        bind-Calm budget _ _ (bind-Calm budget _ _ (emit-Calm budget _) λ u. emit-Calm budget _)
          λ u. pure-Calm budget none
    handle_stream_event-Calm (update event) =
        bind-Calm budget _ _ (emit-Calm budget _) λ u. pure-Calm budget none
    handle_stream_event-Calm (stream_done event) =
        bind-Calm budget _ _
          (bind-Calm budget _ _ (emit-Calm budget _) λ u.
            bind-Calm budget _ _ (execute_calls-Calm _)
              λ executions. bind-Calm budget _ _ (emit-Calm budget _) λ u. pure-Calm budget _)
          λ result. pure-Calm budget (some result)
    handle_stream_event-Calm (stream_error event) =
        bind-Calm budget _ _ (emit-Calm budget _) λ u. stop-Calm budget _

    end_of_stream-Calm : (ending : Option Raised) → Calm budget (end_of_stream env tools ending)
    end_of_stream-Calm none = stop-Calm budget _
    end_of_stream-Calm (some e) = stop-Calm budget _

    or_else-Calm :
        (o : Option TurnResult) (m : Code W TurnResult)
        → Calm budget m
        → Calm budget (or_else env tools o m)
    or_else-Calm none m h = h
    or_else-Calm (some a) m h = pure-Calm budget a

    consume-Calm :
        (events : List ProviderStreamEvent) (ending : Option Raised)
        → Calm budget (consume env tools events ending)
    unfolding consume
    consume-Calm [] ending = end_of_stream-Calm ending
    consume-Calm (event ∷ events) ending =
        bind-Calm budget _ _ (handle_stream_event-Calm event)
          λ result. or_else-Calm result _ (consume-Calm events ending)

    module _ (instructions : String)
        (spends : (items : List ConversationItem) (w : W)
          → (budget (env.stream items instructions tools w).1 ≤ budget w)
            × ((stream : Stream)
                → (env.stream items instructions tools w).0 ≡ ok stream
                → (budget (env.stream items instructions tools w).1 < budget w)
                  ⊎ All Quiet stream.events)) where
      run_provider_turn-Calm :
          (items : List ConversationItem)
          → Calm budget (run_provider_turn env tools instructions items)
      unfolding run_provider_turn
      run_provider_turn-Calm items =
          bind-Calm budget _ _ (call-Calm budget _ λ w. (spends items w).0)
            λ stream. consume-Calm stream.events stream.ending

      -- A turn that the loop goes on from has spent some of the budget.
      run_provider_turn-costs :
          (items : List ConversationItem) (s : RunState W) {r : TurnResult} {t : RunState W}
          → run_provider_turn env tools instructions items s ≡ (ok r, t)
          → (budget t.world < budget s.world) ⊎ (should_continue r ≡ false)
      unfolding run_provider_turn
      run_provider_turn-costs items s h =
          let (stream, s1, e1, rest) = bind-ok (call (env.stream items instructions tools)) _ s h in
          let world = call-world (env.stream items instructions tools) s e1 in
          let later =
            subst (λ r. budget r.1.world ≤ budget s1.world) rest
              ((consume-Calm stream.events stream.ending).spent s1) in
          elim ((spends items s.world).1 stream
            (call-ok (env.stream items instructions tools) s e1).0) [
              | inl opened ↦ inl (ground (arith, later, opened, ap budget world))
              | inr quiet ↦ inr (
                  quiet-should_continue _
                    (consume-Quiet env tools stream.events stream.ending s1 quiet rest))
            ]

      -- With more fuel than the world's budget, the agent loop never runs out of fuel: it returns a
      -- result or raises. The provider must spend some of the budget on each stream that completes
      -- a turn with tool calls and never add to it, and no tool may add to it.
      pub run_agent_loop-ends :
          (fuel : ℕ) (items : List ConversationItem) (executions : List ToolExecutionOutcome)
          (s : RunState W)
          → budget s.world < fuel
          → (run_agent_loop env tools instructions fuel items executions s).0 ≢ err exhausted
      unfolding run_agent_loop ◌>>=◌
      run_agent_loop-ends zero items executions s h = absurd (ground (arith, h))
      run_agent_loop-ends (suc fuel) items executions s h =
          continue-ended budget (run_provider_turn env tools instructions items s) _
            ((run_provider_turn-Calm items).ended s)
            λ r t e. elim (Bool-cases (should_continue r)) [
              | inl c ↦ rw c (
                  run_agent_loop-ends fuel _ _ t
                    (continued (run_provider_turn-costs items s e) c h))
              | inr c ↦ rw c ((pure-Calm budget _).ended t)
            ]

      run_agent_loop-spends :
          (fuel : ℕ) (items : List ConversationItem) (executions : List ToolExecutionOutcome)
          (s : RunState W)
          → budget (run_agent_loop env tools instructions fuel items executions s).1.world
            ≤ budget s.world
      unfolding run_agent_loop ◌>>=◌ stop
      run_agent_loop-spends zero items executions s = ground arith
      run_agent_loop-spends (suc fuel) items executions s =
          continue-spends budget s (run_provider_turn env tools instructions items s) _
            ((run_provider_turn-Calm items).spent s)
            λ r t e. elim (Bool-cases (should_continue r)) [
              | inl c ↦ rw c (run_agent_loop-spends fuel _ _ t)
              | inr c ↦ rw c ((pure-Calm budget _).spent t)
            ]

      pub run_agent-Enough :
          (fuel : ℕ) (items : List ConversationItem)
          → Enough budget fuel (run_agent env tools instructions fuel items)
      unfolding run_agent
      run_agent-Enough fuel items =
          bind-Enough budget fuel _ _ (Calm-Enough budget fuel _ (emit-Calm budget _)) λ u s t e.
            bind-Enough budget fuel _ _
              (record {
                spends = run_agent_loop-spends fuel items [];
                ends = run_agent_loop-ends fuel items [];
              })
              λ result s t e.
                bind-Enough budget fuel _ _ (Calm-Enough budget fuel _ (emit-Calm budget _))
                  λ u s t e. Calm-Enough budget fuel _ (pure-Calm budget result)
