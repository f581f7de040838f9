-- ===== src/Examples/Assembly.antt =====
-- A response of two items through the assembler.
use tile.Prelude.{◌≡◌, refl, none, some, List, [], ◌∷◌, All}
use tile.Types.StreamEvents.{
  StopReason, ProviderSource, AssistantBlock, text_block, reasoning_block, from_values,
}
use tile.Providers.Assembler.{
  NormalizedEvent, created, reasoning_added, reasoning_done, message_added, message_text_delta,
  message_done, completed, failed, fresh, assemble, yield_stream_event,
}
use tile.Providers.Assembler.Progress.{final_blocks}
use tile.Providers.Assembler.Blocks.{Ended, assemble-Ended}
use tile.Providers.Assembler.Terminal.{EndsOnce, assemble-EndsOnce}

abbrev openai : ProviderSource
openai = record { provider = "openai"; model = none }

abbrev response : List NormalizedEvent
response =
    created "r1"
    ∷ reasoning_added "i1"
    ∷ NormalizedEvent.reasoning_delta "hm"
    ∷ reasoning_done "i1" "" none
    ∷ message_added "i2" none
    ∷ message_text_delta "he"
    ∷ message_done "i2" "hello" none
    ∷ completed StopReason.stop
    ∷ failed "late"
    ∷ []

abbrev response_blocks : List AssistantBlock
response_blocks =
    reasoning_block (record { provider_metadata = none; summary_text = "hm" })
    ∷ text_block (record {
      provider_metadata = from_values (("message_id", some "i2") ∷ ("phase", none) ∷ []);
      text = "hello";
    })
    ∷ []

response_assembled : final_blocks (assemble (fresh openai) response) ≡ some response_blocks
unfolding assemble yield_stream_event from_values
response_assembled = refl

assemble-Ended_example : All (Ended response_blocks) (assemble (fresh openai) response)
assemble-Ended_example = assemble-Ended openai response response_blocks response_assembled

assemble-EndsOnce_example : EndsOnce (assemble (fresh openai) response)
assemble-EndsOnce_example = assemble-EndsOnce response (fresh openai) (λ i h. absurd (cc)) refl
