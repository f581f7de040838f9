-- ===== src/Runtime/Agent/Histories.antt =====
-- The agent loop on its own list of items, and a loop on the run's working history.
use mathlib.Core.Path.{subst}
use tile.Prelude.{
  ℕ, zero, suc, String, true, false, Bool-cases, ◌≡◌, refl, sym, ◌∙◌, ap, List, [], ◌∷◌, ◌++◌,
  Result, ok, err, Option, none, some, inl, inr,
}
use tile.Outcome.{Raised}
use tile.Types.StreamEvents.{ProviderStreamEvent, stream_start, update, stream_done, stream_error}
use tile.Types.Conversation.{ConversationItem}
use tile.Types.ToolExecution.{ToolExecutionOutcome}
use tile.Events.{message_start, message_update, turn_start}
use tile.Runtime.Environment.{ToolDefinition, Environment}
use tile.Runtime.Monad.{
  RunState, Stop, Code, exhausted, emit, pure, stop, call, continue, ◌>>=◌, ◌>>◌,
}
use tile.Runtime.Monad.Returns.{bind-ok, pure-ok, call-ok, emit-ok}
use tile.Runtime.History.{observe, conversation_item_for}
use tile.Runtime.History.Projection.{extended}
use tile.Runtime.Agent.{
  AgentResult, TurnResult, handle_stream_event, handle_stream_done_event, handle_stream_error_event,
  emit_turn_start, end_of_stream, or_else, consume, run_provider_turn, run_agent_loop,
  conversation_items, should_continue,
}
use tile.Runtime.Agent.Turns.{handle_stream_done_event-ok}

module _ {W : Type 0} (env : Environment W) (tools : List (ToolDefinition W)) where
  -- What an event of a stream leaves in the history: nothing, or the items of the turn that it ends.
  abbrev After : RunState W → Option TurnResult → RunState W → Type 0
  After s none t = t.history ≡ s.history
  After s (some r) t = t.history ≡ extended s.history (conversation_items r)

  stop-no :
      {A : Type 0} (e : Stop) (s : RunState W) {a : A} {t : RunState W} → stop e s ≡ (ok a, t) → ⊥
  unfolding stop
  stop-no e s h = absurd (cc)

  handle_stream_event-After :
      (event : ProviderStreamEvent) (s : RunState W) {o : Option TurnResult} {t : RunState W}
      → handle_stream_event env tools event s ≡ (ok o, t)
      → After s o t
  unfolding handle_stream_event emit_turn_start handle_stream_error_event observe
      conversation_item_for
  handle_stream_event-After (stream_start source response_id) s {o} {t} h =
      let (_, s1, e1, rest1) =
        bind-ok (emit turn_start >> emit (message_start (some response_id))) _ s h in
      let (_, s2, e2, rest2) = bind-ok (emit turn_start) _ s e1 in
      let (same, end) = pure-ok none s1 rest1 in
      subst (λ x. After s x t) same
        (ap (λ x. x.history) (sym end)
          ∙ emit-ok (message_start (some response_id)) s2 rest2
          ∙ emit-ok turn_start s e2)
  handle_stream_event-After (update event) s {o} {t} h =
      let (_, s1, e1, rest1) = bind-ok (emit (message_update event)) _ s h in
      let (same, end) = pure-ok none s1 rest1 in
      subst (λ x. After s x t) same
        (ap (λ x. x.history) (sym end) ∙ emit-ok (message_update event) s e1)
  handle_stream_event-After (stream_done event) s {o} {t} h =
      let (r, s1, e1, rest1) = bind-ok (handle_stream_done_event env tools event) _ s h in
      let (same, end) = pure-ok (some r) s1 rest1 in
      subst (λ x. After s x t) same
        (ap (λ x. x.history) (sym end) ∙ (handle_stream_done_event-ok env tools event s e1).0)
  handle_stream_event-After (stream_error event) s h =
      let (_, s1, e1, rest1) = bind-ok (emit _) _ s h in absurd (stop-no _ s1 rest1)

  end_of_stream-no :
      (ending : Option Raised) (s : RunState W) {r : TurnResult} {t : RunState W}
      → end_of_stream env tools ending s ≡ (ok r, t)
      → ⊥
  end_of_stream-no none s h = stop-no _ s h
  end_of_stream-no (some e) s h = stop-no _ s h

  or_else-After :
      (s s1 : RunState W) (o : Option TurnResult) (next : Code W TurnResult) {r : TurnResult}
      {t : RunState W}
      → After s o s1
      → or_else env tools o next s1 ≡ (ok r, t)
      → (next s1 ≡ (ok r, t) → t.history ≡ extended s1.history (conversation_items r))
      → t.history ≡ extended s.history (conversation_items r)
  or_else-After s s1 none next {r} a rest later =
      later rest ∙ ap (λ g. extended g (conversation_items r)) a
  or_else-After s s1 (some r') next a rest later =
      let (same, end) = pure-ok r' s1 rest in
      ap (λ x. x.history) (sym end) ∙ a ∙ ap (λ x. extended s.history (conversation_items x)) same

  -- A stream that yields a turn has extended the run's history by the items of that turn.
  consume-After :
      (events : List ProviderStreamEvent) (ending : Option Raised) (s : RunState W) {r : TurnResult}
      {t : RunState W}
      → consume env tools events ending s ≡ (ok r, t)
      → t.history ≡ extended s.history (conversation_items r)
  unfolding consume
  consume-After [] ending s h = absurd (end_of_stream-no ending s h)
  consume-After (event ∷ events) ending s h =
      let (o, s1, e1, rest) = bind-ok (handle_stream_event env tools event) _ s h in
      or_else-After s s1 o (consume env tools events ending) (handle_stream_event-After event s e1)
        rest (consume-After events ending s1)

  module _ (instructions : String) where
    pub run_provider_turn-After :
        (run_history : List ConversationItem) (s : RunState W) {r : TurnResult} {t : RunState W}
        → run_provider_turn env tools instructions run_history s ≡ (ok r, t)
        → t.history ≡ extended s.history (conversation_items r)
    unfolding run_provider_turn
    run_provider_turn-After run_history s {r} h =
        let (stream, s1, e1, rest) =
          bind-ok (call (env.stream run_history instructions tools)) _ s h in
        consume-After stream.events stream.ending s1 rest
        ∙ ap (λ g. extended g (conversation_items r)) (call-ok _ s e1).1

    -- The loop that asks the provider with the run's working history, whatever that is at each turn.
    unfoldable pub loop_on_working : ℕ → List ToolExecutionOutcome → Code W AgentResult
    loop_on_working zero executions s = stop exhausted s
    loop_on_working (suc fuel) executions s =
        (run_provider_turn env tools instructions s.history.working >>= λ result.
        elim (should_continue result) [
          | true ↦ loop_on_working fuel (executions ++ result.tool_executions)
          | false ↦ pure (record {
            last_turn = result.assistant_turn;
            tool_executions = executions ++ result.tool_executions;
          })
        ])
          s

    continue-same :
        {A B : Type 0} (r : Result Stop A × RunState W) (f g : A → Code W B)
        → ((a : A) (t : RunState W) → r ≡ (ok a, t) → f a t ≡ g a t)
        → continue r f ≡ continue r g
    continue-same (ok a, t) f g h = h a t refl
    continue-same (err e, t) f g h = refl

    -- The agent loop keeps its own list of items next to the run's history. Started with the working
    -- history, it does the same as the loop that reads the working history again before each turn: so
    -- at every turn the provider sees exactly what the run has observed.
    pub run_agent_loop-working :
        (fuel : ℕ) (executions : List ToolExecutionOutcome) (s : RunState W)
        → run_agent_loop env tools instructions fuel s.history.working executions s
          ≡ loop_on_working fuel executions s
    unfolding run_agent_loop loop_on_working ◌>>=◌
    run_agent_loop-working zero executions s = refl
    run_agent_loop-working (suc fuel) executions s =
        continue-same (run_provider_turn env tools instructions s.history.working s) _ _ λ r t e.
          let grown = ap (λ g. g.working) (run_provider_turn-After s.history.working s e) in
          elim (Bool-cases (should_continue r)) [
            | inl c ↦ rw c (
                subst
                  (λ x.
                    run_agent_loop env tools instructions fuel x (executions ++ r.tool_executions) t
                    ≡ loop_on_working fuel (executions ++ r.tool_executions) t)
                  grown (run_agent_loop-working fuel (executions ++ r.tool_executions) t))
            | inr c ↦ rw c refl
          ]
