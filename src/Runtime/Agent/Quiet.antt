-- ===== src/Runtime/Agent/Quiet.antt =====
-- Turns that ask for no tools.
use tile.Prelude.{
  ◌≡◌, refl, sym, ap, ◌∙◌, false, not, ◌&&◌, Option, none, some, List, [], ◌∷◌, map, any, ok, All,
}
use mathlib.Core.Path.{subst}
use tile.Types.StreamEvents.{ProviderStreamEvent, stream_start, update, stream_done, stream_error}
use tile.Types.ToolExecution.{ToolExecutionOutcome}
use tile.Outcome.{Raised}
use tile.Runtime.Environment.{ToolDefinition, Environment}
use tile.Runtime.Monad.{Code, RunState, stop}
use tile.Runtime.Monad.Returns.{bind-ok, pure-ok}
use tile.Runtime.History.{tool_calls_of}
use tile.Runtime.Agent.{
  TurnResult, is_empty, should_continue, handle_stream_event, handle_stream_done_event,
  handle_stream_error_event, or_else, consume,
}
use tile.Runtime.Agent.Turns.{handle_stream_done_event-ok}

-- An event that does not complete a turn with tool calls.
abbrev pub Quiet : ProviderStreamEvent → Type 0
Quiet (stream_done event) = tool_calls_of event.blocks ≡ []
Quiet (stream_start source response_id) = Unit
Quiet (update event) = Unit
Quiet (stream_error event) = Unit

abbrev RanNothing : Option TurnResult → Type 0
RanNothing none = Unit
RanNothing (some r) = r.tool_executions ≡ []

pub quiet-should_continue : (r : TurnResult) → r.tool_executions ≡ [] → should_continue r ≡ false
unfolding should_continue
quiet-should_continue r h =
    ap (λ (l : List ToolExecutionOutcome). not (is_empty l) && not (any (λ e. e.terminate) l)) h

map-nil {ℓ κ} : {A : Type ℓ} {B : Type κ} (f : A → B) (xs : List A) → map f xs ≡ [] → xs ≡ []
map-nil f [] h = refl
map-nil f (x ∷ xs) h = absurd (cc)

module _ {W : Type 0} (env : Environment W) (tools : List (ToolDefinition W)) where
  handle_stream_event-Quiet :
      (event : ProviderStreamEvent) (s : RunState W) {o : Option TurnResult} {t : RunState W}
      → Quiet event
      → handle_stream_event env tools event s ≡ (ok o, t)
      → RanNothing o
  unfolding handle_stream_event handle_stream_error_event stop
  handle_stream_event-Quiet (stream_start source response_id) s q h =
      let (u, s1, e1, rest) = bind-ok _ _ s h in subst RanNothing (pure-ok none s1 rest).0 tt
  handle_stream_event-Quiet (update event) s q h =
      let (u, s1, e1, rest) = bind-ok _ _ s h in subst RanNothing (pure-ok none s1 rest).0 tt
  handle_stream_event-Quiet (stream_done event) s q h =
      let (r, s1, e1, rest) = bind-ok (handle_stream_done_event env tools event) _ s h in
      let (_, _, ids) = handle_stream_done_event-ok env tools event s e1 in
      subst RanNothing (pure-ok (some r) s1 rest).0
        (map-nil _ r.tool_executions (ids ∙ ap (map (λ c. c.call_id)) q))
  handle_stream_event-Quiet (stream_error event) s q h =
      let (u, s1, e1, rest) = bind-ok _ _ s h in absurd (cc)

  or_else-quiet :
      (o : Option TurnResult) (m : Code W TurnResult) (s : RunState W) {r : TurnResult}
      {t : RunState W}
      → RanNothing o
      → (m s ≡ (ok r, t) → r.tool_executions ≡ [])
      → or_else env tools o m s ≡ (ok r, t)
      → r.tool_executions ≡ []
  or_else-quiet none m s q next h = next h
  or_else-quiet (some a) m s q next h = ap (λ x. x.tool_executions) (sym (pure-ok a s h).0) ∙ q

  -- A quiet stream that returns a turn has run no tool.
  pub consume-Quiet :
      (events : List ProviderStreamEvent) (ending : Option Raised) (s : RunState W) {r : TurnResult}
      {t : RunState W}
      → All Quiet events
      → consume env tools events ending s ≡ (ok r, t)
      → r.tool_executions ≡ []
  unfolding consume stop
  consume-Quiet [] none s q h = absurd (cc)
  consume-Quiet [] (some e) s q h = absurd (cc)
  consume-Quiet (event ∷ events) ending s q h =
      let (o, s1, e1, rest) = bind-ok (handle_stream_event env tools event) _ s h in
      or_else-quiet o _ s1 (handle_stream_event-Quiet event s (q.0) e1)
        (consume-Quiet events ending s1 (q.1)) rest
