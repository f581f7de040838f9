-- ===== src/Runtime/Agent/Streams.antt =====
-- The agent loop on the streams that the assembler of tile/providers/openai/stream_assembler.py makes.
use mathlib.Core.Path.{subst}
use tile.Prelude.{
  ◌≡◌, refl, sym, ◌∙◌, ap, Bool, true, false, Option, none, some, List, [], ◌∷◌, ◌++◌, any, Result,
  ok, err, inl, inr,
}
use tile.Types.StreamEvents.{
  ProviderSource, ToolCallBlock, ProviderStreamEvent, stream_start, update, stream_done,
  stream_error,
}
use tile.Outcome.{
  Raised, turn_failed, stream_protocol, tool_error, store_error, exception, cancelled,
}
use tile.Events.{AgentEvent}
use tile.Providers.Assembler.{NormalizedEvent, is_terminal, fresh, assemble}
use tile.Providers.Assembler.Terminal.{is_final, assemble-EndsOnce}
use tile.Runtime.Environment.{ToolDefinition, Environment}
use tile.Runtime.Monad.{RunState, Stop, raised, exhausted, Code, emit, pure, stop, continue, ◌>>=◌}
use tile.Runtime.Monad.Returns.{bind-ok, pure-ok}
use tile.Runtime.ToolExecutor.{execute}
use tile.Runtime.ToolExecutor.Outcomes.{execute-Answers}
use tile.Runtime.Agent.{
  TurnResult, execute_tool, execute_calls, handle_stream_done_event, handle_stream_error_event,
  emit_turn_start, handle_stream_event, or_else, consume,
}

-- A turn ended as a turn: it returned, the model's turn failed, or the run was cancelled.
abbrev pub ends_turn : {A : Type 0} → Result Stop A → Bool
ends_turn (ok a) = true
ends_turn (err exhausted) = false
ends_turn (err (raised (turn_failed turn))) = true
ends_turn (err (raised cancelled)) = true
ends_turn (err (raised (stream_protocol text))) = false
ends_turn (err (raised (tool_error text details))) = false
ends_turn (err (raised (store_error e))) = false
ends_turn (err (raised (exception name text))) = false

same-end : (A B : Type 0) (e : Stop) → ends_turn {A = A} (err e) ≡ ends_turn {A = B} (err e)
same-end A B exhausted = refl
same-end A B (raised (turn_failed turn)) = refl
same-end A B (raised cancelled) = refl
same-end A B (raised (stream_protocol text)) = refl
same-end A B (raised (tool_error text details)) = refl
same-end A B (raised (store_error e)) = refl
same-end A B (raised (exception name text)) = refl

module _ {W : Type 0} where
  record EndsTurn {A : Type 0} (m : Code W A) : Type 0 where
    at : (s : RunState W) → ends_turn (m s).0 ≡ true

  pure-EndsTurn : {A : Type 0} (a : A) → EndsTurn (pure a)
  unfolding pure
  pure-EndsTurn a = record { at = λ s. refl }

  emit-EndsTurn : (e : AgentEvent) → EndsTurn (emit e)
  unfolding emit
  emit-EndsTurn e = record { at = λ s. refl }

  module _ {A B : Type 0} where
    continued :
        (r : Result Stop A × RunState W) (f : A → Code W B)
        → ends_turn r.0 ≡ true
        → ((a : A) (t : RunState W) → r ≡ (ok a, t) → ends_turn (f a t).0 ≡ true)
        → ends_turn (continue r f).0 ≡ true
    continued (ok a, t) f h next = next a t refl
    continued (err e, t) f h next = sym (same-end A B e) ∙ h

    bind-EndsTurn :
        (m : Code W A) (f : A → Code W B)
        → EndsTurn m
        → ((a : A) (s t : RunState W) → m s ≡ (ok a, t) → ends_turn (f a t).0 ≡ true)
        → EndsTurn (m >>= f)
    unfolding ◌>>=◌
    bind-EndsTurn m f first next = record {
      at = λ s. continued (m s) f (first.at s) (λ a t e. next a s t e);
    }

module _ {W : Type 0} (env : Environment W) (tools : List (ToolDefinition W)) where
  execute-EndsTurn :
      (call : ToolCallBlock) → EndsTurn (execute env tools call.call_id call.name call.arguments)
  execute-EndsTurn call = record {
    at = λ s. elim (execute-Answers env tools call.call_id call.name call.arguments s) [
      | inl (_, e) ↦ ap ends_turn e
      | inr (o, e, _) ↦ ap ends_turn e
    ];
  }

  execute_calls-EndsTurn : (calls : List ToolCallBlock) → EndsTurn (execute_calls env tools calls)
  unfolding execute_calls execute_tool
  execute_calls-EndsTurn [] = pure-EndsTurn []
  execute_calls-EndsTurn (c ∷ calls) =
      bind-EndsTurn _ _
        (bind-EndsTurn _ _ (emit-EndsTurn _) λ u s t e.
          (bind-EndsTurn _ _ (execute-EndsTurn c) λ o s t e.
              (bind-EndsTurn _ _ (emit-EndsTurn _) λ u s t e. (pure-EndsTurn o).at t).at t).at
            t)
        λ o s t e.
          (bind-EndsTurn _ _ (execute_calls-EndsTurn calls) λ os s t e. (pure-EndsTurn _).at t).at t

  handle_stream_event-EndsTurn :
      (event : ProviderStreamEvent) → EndsTurn (handle_stream_event env tools event)
  unfolding handle_stream_event handle_stream_done_event handle_stream_error_event emit_turn_start
      stop
  handle_stream_event-EndsTurn (stream_start source response_id) =
      bind-EndsTurn _ _ (bind-EndsTurn _ _ (emit-EndsTurn _) λ u s t e. (emit-EndsTurn _).at t)
        λ u s t e. (pure-EndsTurn none).at t
  handle_stream_event-EndsTurn (update event) =
      bind-EndsTurn _ _ (emit-EndsTurn _) λ u s t e. (pure-EndsTurn none).at t
  handle_stream_event-EndsTurn (stream_done event) =
      bind-EndsTurn _ _
        (bind-EndsTurn _ _ (emit-EndsTurn _) λ u s t e.
          (bind-EndsTurn _ _ (execute_calls-EndsTurn _) λ os s t e.
              (bind-EndsTurn _ _ (emit-EndsTurn _) λ u s t e. (pure-EndsTurn _).at t).at t).at
            t)
        λ r s t e. (pure-EndsTurn (some r)).at t
  handle_stream_event-EndsTurn (stream_error event) =
      bind-EndsTurn _ _ (emit-EndsTurn _) λ u s t e. refl

  or_else-ends :
      (o : Option TurnResult) (next : Code W TurnResult) (t : RunState W)
      → EndsTurn next
      → ends_turn (or_else env tools o next t).0 ≡ true
  or_else-ends none next t h = h.at t
  or_else-ends (some r) next t h = (pure-EndsTurn r).at t

  -- A terminal event never lets the stream go on.
  final-ends :
      (last : ProviderStreamEvent) (next : Code W TurnResult) (s : RunState W)
      {o : Option TurnResult} {t : RunState W}
      → is_final last ≡ true
      → handle_stream_event env tools last s ≡ (ok o, t)
      → ends_turn (or_else env tools o next t).0 ≡ true
  unfolding handle_stream_event handle_stream_error_event stop
  final-ends (stream_start a b) next s f h = absurd (cc)
  final-ends (update u) next s f h = absurd (cc)
  final-ends (stream_done event) next s {o} {t} f h =
      let (r, s1, _, rest) = bind-ok (handle_stream_done_event env tools event) _ s h in
      subst (λ x. ends_turn (or_else env tools x next t).0 ≡ true) (pure-ok (some r) s1 rest).0
        ((pure-EndsTurn r).at t)
  final-ends (stream_error event) next s f h =
      let (_, s1, _, rest) = bind-ok (emit _) _ s h in absurd (cc)

  consume-EndsTurn :
      (init : List ProviderStreamEvent) (last : ProviderStreamEvent) (ending : Option Raised)
      → is_final last ≡ true
      → EndsTurn (consume env tools (init ++ last ∷ []) ending)
  unfolding consume
  consume-EndsTurn [] last ending f =
      bind-EndsTurn _ _ (handle_stream_event-EndsTurn last) λ o s t e. final-ends last _ s f e
  consume-EndsTurn (event ∷ init) last ending f =
      bind-EndsTurn _ _ (handle_stream_event-EndsTurn event)
        λ o s t e. or_else-ends o _ t (consume-EndsTurn init last ending f)

  -- A response with a terminal event, assembled and consumed by the agent loop, ends as a turn: it
  -- returns a turn, raises `TurnFailedError`, or is cancelled. In particular the loop never raises the
  -- error of a stream that stops without a terminal event.
  pub consume-assemble :
      (source : ProviderSource) (events : List NormalizedEvent) (ending : Option Raised)
      (s : RunState W)
      → any is_terminal events ≡ true
      → ends_turn (consume env tools (assemble (fresh source) events) ending s).0 ≡ true
  consume-assemble source events ending s h =
      let (init, last, split, _, final) =
        assemble-EndsOnce events (fresh source) (λ i e. absurd (cc)) h in
      subst (λ es. ends_turn (consume env tools es ending s).0 ≡ true) (sym split)
        ((consume-EndsTurn init last ending final).at s)
