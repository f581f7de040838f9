-- ===== src/Providers/Assembler/Terminal.antt =====
-- An assembled stream ends with one terminal event.
use tile.Prelude.{
  ◌≡◌, refl, sym, ◌∙◌, ap, Bool, true, false, Bool-cases, inl, inr, Option, none, some, List, [],
  ◌∷◌, ◌++◌, any, All, All-append, append_assoc,
}
use tile.Types.StreamEvents.{
  StopReason, ProviderStreamEvent, stream_start, update, stream_done, stream_error,
}
use tile.Providers.Assembler.{
  NormalizedEvent, created, reasoning_added, reasoning_done, message_added, message_text_delta,
  message_done, tool_call_added, tool_call_arguments_delta, tool_call_arguments_done,
  tool_call_done, completed, incomplete, failed, is_terminal, StreamAssemblyState, emitted,
  yield_stream_event, assemble, build_incomplete_event,
}
use tile.Providers.Assembler.Progress.{LastIsActive, final_blocks}
use tile.Providers.Assembler.Blocks.{yield-Progress}

abbrev pub is_final : ProviderStreamEvent → Bool
is_final (stream_done d) = true
is_final (stream_error d) = true
is_final _ = false

abbrev pub NoneFinal : List ProviderStreamEvent → Type 0
NoneFinal = All (λ e. is_final e ≡ false)

abbrev pub EndsOnce : List ProviderStreamEvent → Type 0
EndsOnce events =
    (init : List ProviderStreamEvent) × (last : ProviderStreamEvent) × (events ≡ init ++ last ∷ [])
    × NoneFinal init
    × (is_final last ≡ true)

goes_on-NoneFinal :
    (reply : Option ProviderStreamEvent)
    → final_blocks (emitted reply ++ []) ≡ none
    → NoneFinal (emitted reply)
goes_on-NoneFinal none h = tt
goes_on-NoneFinal (some (stream_start a b)) h = (refl, tt)
goes_on-NoneFinal (some (update u)) h = (refl, tt)
goes_on-NoneFinal (some (stream_done d)) h = absurd (cc)
goes_on-NoneFinal (some (stream_error d)) h = absurd (cc)

incomplete-final :
    (s : StreamAssemblyState) (reason : StopReason) (message : Option _)
    → is_final (build_incomplete_event s reason message) ≡ true
incomplete-final s StopReason.stop message = refl
incomplete-final s StopReason.length message = refl
incomplete-final s StopReason.tool_use message = refl
incomplete-final s StopReason.error message = refl
incomplete-final s StopReason.aborted message = refl

terminal-EndsOnce :
    (s : StreamAssemblyState) (event : NormalizedEvent)
    → is_terminal event ≡ true
    → EndsOnce (emitted (yield_stream_event s event).0 ++ [])
unfolding yield_stream_event
terminal-EndsOnce s (completed reason) t = ([], _, refl, tt, refl)
terminal-EndsOnce s (failed message) t = ([], _, refl, tt, refl)
terminal-EndsOnce s (incomplete reason message) t =
    ([], _, refl, tt, incomplete-final s reason message)
terminal-EndsOnce s (created id) t = absurd (cc)
terminal-EndsOnce s (reasoning_added id) t = absurd (cc)
terminal-EndsOnce s (NormalizedEvent.reasoning_delta d) t = absurd (cc)
terminal-EndsOnce s (reasoning_done a b c) t = absurd (cc)
terminal-EndsOnce s (message_added a b) t = absurd (cc)
terminal-EndsOnce s (message_text_delta a) t = absurd (cc)
terminal-EndsOnce s (message_done a b c) t = absurd (cc)
terminal-EndsOnce s (tool_call_added a b c d) t = absurd (cc)
terminal-EndsOnce s (tool_call_arguments_delta a) t = absurd (cc)
terminal-EndsOnce s (tool_call_arguments_done a) t = absurd (cc)
terminal-EndsOnce s (tool_call_done a b c d) t = absurd (cc)

-- Where some event of a response is terminal, the assembled stream is events that are none of them
-- terminal, then one terminal event: what comes after it in the response is dropped.
pub assemble-EndsOnce :
    (events : List NormalizedEvent) (s : StreamAssemblyState)
    → LastIsActive s
    → any is_terminal events ≡ true
    → EndsOnce (assemble s events)
unfolding assemble
assemble-EndsOnce [] s inv h = absurd (cc)
assemble-EndsOnce (event ∷ events) s inv h = elim (Bool-cases (is_terminal event)) [
  | inl t ↦ rw t (terminal-EndsOnce s event t)
  | inr t ↦
      let p = yield-Progress s event inv t in
      let replies = emitted (yield_stream_event s event).0 in
      let (init, last, split, quiet, final) =
        assemble-EndsOnce events (yield_stream_event s event).1 p.last_active (rw t at h) in
      rw t (
        replies ++ init,
        last,
        ap (λ l. replies ++ l) split ∙ sym (append_assoc replies init (last ∷ [])),
        All-append _ replies init (goes_on-NoneFinal _ (p.goes_on [])) quiet,
        final,
      )
]
