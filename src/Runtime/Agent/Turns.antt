-- ===== src/Runtime/Agent/Turns.antt =====
-- The agent loop keeps its own list of conversation items, and the run's history observes the events.
use mathlib.Core.Path.{ap₂}
use tile.Prelude.{◌≡◌, sym, value_or, ◌∙◌, ap, List, [], ◌∷◌, map, ok, append-nil, inl, inr}
use tile.Types.StreamEvents.{ToolCallBlock, StreamDone}
use tile.Types.Conversation.{ConversationItem, assistant, tool_result, from_stream_done}
use tile.Types.ToolExecution.{ToolExecutionOutcome}
use tile.Events.{tool_execution_end, tool_execution_start, message_end, turn_end}
use tile.Runtime.Environment.{ToolDefinition, Environment}
use tile.Runtime.Monad.{RunState, emit, call}
use tile.Runtime.Monad.Returns.{bind-ok, pure-ok, call-ok, emit-ok}
use tile.Runtime.History.{observe, conversation_item_for, tool_calls_of}
use tile.Runtime.History.Projection.{extended, extended-extended}
use tile.Runtime.ToolExecutor.{execute}
use tile.Runtime.ToolExecutor.Outcomes.{execute-Answers}
use tile.Runtime.Agent.{
  TurnResult, execute_tool, execute_calls, handle_stream_done_event, conversation_items,
}

module _ {W : Type 0} (env : Environment W) (tools : List (ToolDefinition W)) where
  execute-call :
      (call : ToolCallBlock) (s : RunState W) {o : ToolExecutionOutcome} {t : RunState W}
      → execute env tools call.call_id call.name call.arguments s ≡ (ok o, t)
      → (o.tool_result_turn.call_id ≡ call.call_id)
        × (o.tool_result_turn.tool_name ≡ call.name)
        × (t.history ≡ s.history)
  unfolding execute
  execute-call call s {o} h =
      let kept = (call-ok _ s h).1 in
      elim (execute-Answers env tools call.call_id call.name call.arguments s) [
        | inl (_, p) ↦ let q = sym p ∙ ap (λ r. r.0) h in absurd (cc)
        | inr (o', p, a) ↦
            let same : o' ≡ o = ap (λ r. value_or r o) (sym p ∙ ap (λ r. r.0) h) in
            (
              ap (λ x. x.tool_result_turn.call_id) (sym same) ∙ a.same_call,
              ap (λ x. x.tool_result_turn.tool_name) (sym same) ∙ a.same_tool,
              kept,
            )
      ]

  execute_tool-ok :
      (call : ToolCallBlock) (s : RunState W) {o : ToolExecutionOutcome} {t : RunState W}
      → execute_tool env tools call s ≡ (ok o, t)
      → (o.tool_result_turn.call_id ≡ call.call_id)
        × (o.tool_result_turn.tool_name ≡ call.name)
        × (t.history ≡ extended s.history (tool_result o.tool_result_turn ∷ []))
  unfolding execute_tool observe conversation_item_for
  execute_tool-ok call s h =
      let (_, s1, e1, rest1) = bind-ok (emit _) _ s h in
      let (o', s2, e2, rest2) =
        bind-ok (execute env tools call.call_id call.name call.arguments) _ s1 rest1 in
      let (_, s3, e3, rest3) = bind-ok (emit (tool_execution_end o')) _ s2 rest2 in
      let (same, end) = pure-ok o' s3 rest3 in
      let (id, name, kept) = execute-call call s1 e2 in
      (
        ap (λ x. x.tool_result_turn.call_id) (sym same) ∙ id,
        ap (λ x. x.tool_result_turn.tool_name) (sym same) ∙ name,
        ap (λ x. x.history) (sym end)
            ∙ emit-ok (tool_execution_end o') s2 e3
            ∙ ap (λ g. observe g (tool_execution_end o'))
                (kept ∙ emit-ok (tool_execution_start call.call_id call.name call.arguments) s e1)
            ∙ ap (λ x. extended s.history (tool_result x.tool_result_turn ∷ [])) same,
      )

  abbrev results_of : List ToolExecutionOutcome → List ConversationItem
  results_of = map (λ o. tool_result o.tool_result_turn)

  -- The outcomes of a batch of tool calls answer the calls one by one, in order, and the run's history
  -- gets their results in that order.
  pub execute_calls-ok :
      (calls : List ToolCallBlock) (s : RunState W) {outcomes : List ToolExecutionOutcome}
      {t : RunState W}
      → execute_calls env tools calls s ≡ (ok outcomes, t)
      → (map (λ o. o.tool_result_turn.call_id) outcomes ≡ map (λ c. c.call_id) calls)
        × (map (λ o. o.tool_result_turn.tool_name) outcomes ≡ map (λ c. c.name) calls)
        × (t.history ≡ extended s.history (map (λ o. tool_result o.tool_result_turn) outcomes))
  unfolding execute_calls
  execute_calls-ok [] s {outcomes} {t} h =
      let (same, end) = pure-ok _ s h in
      (
        ap (map (λ o. o.tool_result_turn.call_id)) (sym same),
        ap (map (λ o. o.tool_result_turn.tool_name)) (sym same),
        let unchanged : s.history ≡ extended s.history [] = simp append-nil in
            ap (λ x. x.history) (sym end)
            ∙ unchanged
            ∙ ap (λ x. extended s.history (results_of x)) same,
      )
  execute_calls-ok (call ∷ calls) s {outcomes} {t} h =
      let (o, s1, e1, rest1) = bind-ok (execute_tool env tools call) _ s h in
      let (os, s2, e2, rest2) = bind-ok (execute_calls env tools calls) _ s1 rest1 in
      let (same, end) = pure-ok (o ∷ os) s2 rest2 in
      let (id, name, first) = execute_tool-ok call s e1 in
      let (ids, names, later) = execute_calls-ok calls s1 e2 in
      (
        ap (map (λ o. o.tool_result_turn.call_id)) (sym same) ∙ ap₂ (λ x l. x ∷ l) id ids,
        ap (map (λ o. o.tool_result_turn.tool_name)) (sym same) ∙ ap₂ (λ x l. x ∷ l) name names,
        ap (λ x. x.history) (sym end)
            ∙ later
            ∙ ap (λ g. extended g (results_of os)) first
            ∙ extended-extended s.history _ _
            ∙ ap (λ x. extended s.history (map (λ o. tool_result o.tool_result_turn) x)) same,
      )

  -- A turn that completes: the items that the agent adds to its own list are those that the run's
  -- history has observed, and the tool results answer the turn's tool calls one by one, in order.
  pub handle_stream_done_event-ok :
      (event : StreamDone) (s : RunState W) {r : TurnResult} {t : RunState W}
      → handle_stream_done_event env tools event s ≡ (ok r, t)
      → (t.history ≡ extended s.history (conversation_items r))
        × (r.assistant_turn ≡ from_stream_done event)
        × (map (λ o. o.tool_result_turn.call_id) r.tool_executions
            ≡ map (λ c. c.call_id) (tool_calls_of event.blocks))
  unfolding handle_stream_done_event conversation_items observe conversation_item_for
      from_stream_done
  handle_stream_done_event-ok event s {r} {t} h =
      let (_, s1, e1, rest1) = bind-ok (emit _) _ s h in
      let (os, s2, e2, rest2) =
        bind-ok (execute_calls env tools (tool_calls_of event.blocks)) _ s1 rest1 in
      let (_, s3, e3, rest3) = bind-ok (emit (turn_end (from_stream_done event) os)) _ s2 rest2 in
      let (same, end) = pure-ok _ s3 rest3 in
      let (ids, _, later) = execute_calls-ok (tool_calls_of event.blocks) s1 e2 in
      let observed : t.history
          ≡ extended s.history
              (assistant (from_stream_done event) ∷ map (λ o. tool_result o.tool_result_turn) os) =
        ap (λ x. x.history) (sym end)
        ∙ emit-ok (turn_end (from_stream_done event) os) s2 e3
        ∙ later
        ∙ ap (λ g. extended g (results_of os)) (emit-ok (message_end (from_stream_done event)) s e1)
        ∙ extended-extended s.history (assistant (from_stream_done event) ∷ []) (results_of os) in
      (
        observed ∙ ap (λ x. extended s.history (conversation_items x)) same,
        ap (λ x. x.assistant_turn) (sym same),
        ap (λ x. map (λ o. o.tool_result_turn.call_id) x.tool_executions) (sym same) ∙ ids,
      )
