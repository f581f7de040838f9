-- ===== src/Examples/Script.antt =====
-- A scripted provider: the world counts the answers that are left.
use tile.Prelude.{
  ok_inj, subst, refl, inl, inr, ◌⊎◌, All, ℕ, zero, suc, ◌<◌, ◌≤◌, arith, ◌≡◌, false, List, [], ◌∷◌,
  none, Result, ok, err,
}
use tile.Types.Json.{end}
use tile.Types.Tools.{text_result}
use tile.Types.StreamEvents.{
  StopReason, ProviderSource, ToolCallBlock, StreamDone, stream_start, stream_done, text_block,
  tool_call_block,
}
use tile.Types.Conversation.{ConversationItem}
use tile.Outcome.{Raised, exception}
use tile.Events.{run_start}
use tile.Runtime.Environment.{ToolDefinition, Environment, Stream}
use tile.Runtime.Monad.{RunState}
use tile.Runtime.History.{start, tool_calls_of}
use tile.Runtime.Agent.Quiet.{Quiet}
use tile.Runtime.Execution.{Dependencies}

abbrev pub source : ProviderSource
source = record { provider = "scripted"; model = none }

abbrev pub lookup : ToolCallBlock
lookup = record { provider_metadata = none; call_id = "c1"; name = "echo"; arguments = end }

abbrev pub asking : StreamDone
asking = record {
  source = source;
  response_id = none;
  stop_reason = StopReason.tool_use;
  blocks = tool_call_block lookup ∷ [];
}

abbrev pub answering : StreamDone
answering = record {
  source = source;
  response_id = none;
  stop_reason = StopReason.stop;
  blocks = text_block (record { provider_metadata = none; text = "bye" }) ∷ [];
}

abbrev pub answer : ℕ → Result Raised Stream × ℕ
answer zero = (err (exception "ProviderError" "no answer is left"), zero)
answer (suc zero) = (
  ok (record { events = stream_start source "r2" ∷ stream_done answering ∷ []; ending = none }),
  zero,
)
answer (suc (suc n)) = (
  ok (record { events = stream_start source "r1" ∷ stream_done asking ∷ []; ending = none }),
  suc n,
)

abbrev pub scripted : Environment ℕ
scripted = record {
  stream = λ items instructions tools w. answer w;
  validate_fail_input = λ arguments. ok arguments;
  project_file = λ filename w. (ok none, w);
  today = λ w. "2026-01-01";
  cwd = "/work";
  lower = λ s. s;
  strip = λ s. s;
  store_message = λ e. "";
  store_error_type = λ e. "StoreError";
}

abbrev pub echo : ToolDefinition ℕ
echo = record {
  name = "echo";
  description = "";
  signature_error = none;
  validate = λ arguments. ok arguments;
  fn = λ arguments w. (ok (text_result "done" none false), w);
}

abbrev pub deps : Dependencies ℕ
deps = record { instructions = "Help."; auto_mode = false; tools = echo ∷ [] }

abbrev pub begun : RunState ℕ
begun = record { events = run_start ∷ []; history = start [] "hi"; world = 2 }

-- The streams left that ask for tools: all but the last.
abbrev pub asks_left : ℕ → ℕ
asks_left zero = 0
asks_left (suc n) = n

pub answer-spends :
    (items : List ConversationItem) (w : ℕ)
    → (asks_left (answer w).1 ≤ asks_left w)
      × ((stream : Stream)
          → (answer w).0 ≡ ok stream
          → (asks_left (answer w).1 < asks_left w) ⊎ All Quiet stream.events)
unfolding tool_calls_of
answer-spends items zero = (omega arith, λ stream h. absurd (cc))
answer-spends items (suc zero) = (
  omega arith,
  λ stream h. inr (subst (λ s. All Quiet s.events) (ok_inj _ stream h) (tt, (refl, tt))),
)
answer-spends items (suc (suc n)) = (omega arith, λ stream h. inl (omega arith))
