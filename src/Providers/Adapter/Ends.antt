-- ===== src/Providers/Adapter/Ends.antt =====
-- How a response of the SDK ends as a provider stream.
use tile.Prelude.{◌≡◌, refl, ◌∙◌, Bool, true, false, ◌||◌, List, [], ◌∷◌, any, any-append}
use tile.Types.StreamEvents.{ProviderSource}
use tile.Providers.Assembler.{is_terminal, fresh, assemble}
use tile.Providers.Assembler.Terminal.{EndsOnce, assemble-EndsOnce}
use tile.Providers.Adapter.{
  Json, SdkEvent, response_created, response_completed, response_incomplete, response_error,
  response_failed, reasoning_summary_text_delta, reasoning_text_delta, output_text_delta,
  refusal_delta, function_call_arguments_delta, function_call_arguments_done, output_item_added,
  output_item_done, other_event, reasoning_item, message_item, function_call_item, other_item,
  normalize_sdk_event, normalize_sdk_events, normalize_response_lifecycle_event,
  normalize_content_stream_event, normalize_output_item_added, normalize_output_item_done, or_else,
  listed,
}

-- The events with which the SDK ends a response.
abbrev pub ends_response : SdkEvent → Bool
ends_response (response_completed output) = true
ends_response (response_incomplete reason output) = true
ends_response (response_error message) = true
ends_response (response_failed error) = true
ends_response _ = false

ap_or : {a b c d : Bool} → a ≡ b → c ≡ d → (a || c) ≡ (b || d)
ap_or h k = rw (h, k) refl

module _ (json : Json) where
  -- Exactly the events that end a response become terminal events.
  event-terminal :
      (event : SdkEvent)
      → any is_terminal (listed (normalize_sdk_event json event)) ≡ ends_response event
  unfolding normalize_sdk_event normalize_response_lifecycle_event normalize_content_stream_event
      normalize_output_item_added normalize_output_item_done or_else listed
  event-terminal (response_created id) = refl
  event-terminal (response_completed output) = refl
  event-terminal (response_incomplete reason output) = refl
  event-terminal (response_error message) = refl
  event-terminal (response_failed error) = refl
  event-terminal (reasoning_summary_text_delta delta) = refl
  event-terminal (reasoning_text_delta delta) = refl
  event-terminal (output_text_delta delta) = refl
  event-terminal (refusal_delta delta) = refl
  event-terminal (function_call_arguments_delta delta) = refl
  event-terminal (function_call_arguments_done arguments) = refl
  event-terminal (output_item_added (reasoning_item item)) = refl
  event-terminal (output_item_added (message_item item)) = refl
  event-terminal (output_item_added (function_call_item call)) = refl
  event-terminal (output_item_added other_item) = refl
  event-terminal (output_item_done (reasoning_item item)) = refl
  event-terminal (output_item_done (message_item item)) = refl
  event-terminal (output_item_done (function_call_item call)) = refl
  event-terminal (output_item_done other_item) = refl
  event-terminal other_event = refl

  events-terminal :
      (events : List SdkEvent)
      → any is_terminal (normalize_sdk_events json events) ≡ any ends_response events
  unfolding normalize_sdk_events
  events-terminal [] = refl
  events-terminal (event ∷ events) =
      any-append is_terminal (listed (normalize_sdk_event json event))
        (normalize_sdk_events json events)
      ∙ ap_or (event-terminal event) (events-terminal events)

  -- A response of the SDK with an event that ends it, normalized and assembled, is a stream of events that
  -- are not terminal and then one terminal event.
  pub normalize_sdk_events-EndsOnce :
      (source : ProviderSource) (events : List SdkEvent)
      → any ends_response events ≡ true
      → EndsOnce (assemble (fresh source) (normalize_sdk_events json events))
  normalize_sdk_events-EndsOnce source events h =
      assemble-EndsOnce (normalize_sdk_events json events) (fresh source)
        (λ i none_active. absurd (cc)) (events-terminal events ∙ h)
