-- ===== src/Providers/Assembler/Blocks.antt =====
-- What the assembler has told of a block when it ended it is what the terminal event says of it.
use tile.Prelude.{
  ℕ, ◌<◌, arith, ◌≡◌, refl, sym, ◌∙◌, ap, true, false, Bool-cases, inl, inr, Option, none, some,
  unwrap_or, List, [], ◌∷◌, ◌++◌, get_elem?, All, All-append,
}
use tile.Types.StreamEvents.{
  StopReason, ProviderSource, AssistantBlock, text_block, reasoning_block, tool_call_block,
  reasoning_end, text_end, tool_call_end, ProviderStreamEvent, update,
}
use tile.Providers.Assembler.{
  NormalizedEvent, created, reasoning_added, reasoning_done, message_added, message_text_delta,
  message_done, tool_call_added, tool_call_arguments_delta, tool_call_arguments_done,
  tool_call_done, completed, incomplete, failed, is_terminal, StreamAssemblyState, fresh,
  active_block, with_index, emitted, yield_stream_event, assemble,
}
use tile.Providers.Assembler.Progress.{
  LastIsActive, settled, Settles, final_blocks, Progress, start-Progress, Active,
  append_reasoning_delta-Moves, finalize_reasoning_block-Moves, append_text_delta-Moves,
  finalize_text_block-Moves, append_tool_call_arguments_delta-Moves,
  replace_tool_call_arguments-Moves, finalize_tool_call_block-Moves,
}

abbrev index_of : Option (AssistantBlock × ℕ) → ℕ → ℕ
index_of none other = other
index_of (some (b, i)) other = i

with_index-same :
    (j : ℕ) (o : Option AssistantBlock) (b : AssistantBlock) (i : ℕ)
    → with_index j o ≡ some (b, i)
    → j ≡ i
with_index-same j none b i h = absurd (cc)
with_index-same j (some c) b i h = ap (λ x. index_of x j) h

active_block-Active : (s : StreamAssemblyState) → Active s (active_block s)
active_block-Active s b i h = go s.active h
  where
    go :
        (a : Option ℕ)
        → (elim a as (λ x. Option (AssistantBlock × ℕ)) [
          | none ↦ none
          | some j ↦ with_index j (get_elem? s.blocks j)
        ])
          ≡ some (b, i)
        → a ≡ some i
    go none e = absurd (cc)
    go (some j) e = ap some (with_index-same j (get_elem? s.blocks j) b i e)

pub yield-Progress :
    (s : StreamAssemblyState) (event : NormalizedEvent)
    → LastIsActive s
    → is_terminal event ≡ false
    → Progress s (yield_stream_event s event).0 (yield_stream_event s event).1
unfolding yield_stream_event
yield-Progress s (created id) inv t = record {
  last_active = inv;
  grows = ground arith;
  kept = λ k h. refl;
  settles = tt;
  goes_on = λ rest. refl;
}
yield-Progress s (reasoning_added id) inv t = start-Progress s inv _ _ tt (λ rest. refl)
yield-Progress s (NormalizedEvent.reasoning_delta delta) inv t =
    append_reasoning_delta-Moves s inv delta _ (active_block-Active s)
yield-Progress s (reasoning_done id summary signature) inv t =
    finalize_reasoning_block-Moves s inv summary signature _ (active_block-Active s)
yield-Progress s (message_added id phase) inv t = start-Progress s inv _ _ tt (λ rest. refl)
yield-Progress s (message_text_delta delta) inv t =
    append_text_delta-Moves s inv delta _ (active_block-Active s)
yield-Progress s (message_done id text phase) inv t =
    finalize_text_block-Moves s inv id text phase _ (active_block-Active s)
yield-Progress s (tool_call_added id call_id name arguments) inv t =
    start-Progress s inv _ _ tt (λ rest. refl)
yield-Progress s (tool_call_arguments_delta delta) inv t =
    append_tool_call_arguments_delta-Moves s inv delta _ (active_block-Active s)
yield-Progress s (tool_call_arguments_done arguments) inv t =
    replace_tool_call_arguments-Moves s inv arguments _ (active_block-Active s)
yield-Progress s (tool_call_done id call_id name arguments) inv t =
    finalize_tool_call_block-Moves s inv id call_id name arguments _ (active_block-Active s)
yield-Progress s (completed reason) inv t = absurd (cc)
yield-Progress s (incomplete reason message) inv t = absurd (cc)
yield-Progress s (failed message) inv t = absurd (cc)

-- What the terminal event's blocks say of a block that an event has ended.
abbrev pub Ended : List AssistantBlock → ProviderStreamEvent → Type 0
Ended blocks (update (reasoning_end i b)) = get_elem? blocks i ≡ some (reasoning_block b)
Ended blocks (update (text_end i b)) = get_elem? blocks i ≡ some (text_block b)
Ended blocks (update (tool_call_end i b)) = get_elem? blocks i ≡ some (tool_call_block b)
Ended blocks _ = Unit

abbrev Agrees : StreamAssemblyState → List AssistantBlock → Type 0
Agrees s blocks = (k : ℕ) → k < settled s → get_elem? blocks k ≡ get_elem? s.blocks k

-- A terminal event: it ends the stream with the blocks of the state.
terminal-ends :
    (s : StreamAssemblyState) (event : NormalizedEvent) (blocks : List AssistantBlock)
    → is_terminal event ≡ true
    → final_blocks (emitted (yield_stream_event s event).0 ++ []) ≡ some blocks
    → (s.blocks ≡ blocks) × All (Ended blocks) (emitted (yield_stream_event s event).0 ++ [])
unfolding yield_stream_event
terminal-ends s (completed reason) blocks t h = (ap (λ o. unwrap_or o blocks) h, (tt, tt))
terminal-ends s (failed message) blocks t h = (ap (λ o. unwrap_or o blocks) h, (tt, tt))
terminal-ends s (incomplete StopReason.stop message) blocks t h =
    (ap (λ o. unwrap_or o blocks) h, (tt, tt))
terminal-ends s (incomplete StopReason.length message) blocks t h =
    (ap (λ o. unwrap_or o blocks) h, (tt, tt))
terminal-ends s (incomplete StopReason.tool_use message) blocks t h =
    (ap (λ o. unwrap_or o blocks) h, (tt, tt))
terminal-ends s (incomplete StopReason.error message) blocks t h =
    (ap (λ o. unwrap_or o blocks) h, (tt, tt))
terminal-ends s (incomplete StopReason.aborted message) blocks t h =
    (ap (λ o. unwrap_or o blocks) h, (tt, tt))
terminal-ends s (created id) blocks t h = absurd (cc)
terminal-ends s (reasoning_added id) blocks t h = absurd (cc)
terminal-ends s (NormalizedEvent.reasoning_delta d) blocks t h = absurd (cc)
terminal-ends s (reasoning_done a b c) blocks t h = absurd (cc)
terminal-ends s (message_added a b) blocks t h = absurd (cc)
terminal-ends s (message_text_delta a) blocks t h = absurd (cc)
terminal-ends s (message_done a b c) blocks t h = absurd (cc)
terminal-ends s (tool_call_added a b c d) blocks t h = absurd (cc)
terminal-ends s (tool_call_arguments_delta a) blocks t h = absurd (cc)
terminal-ends s (tool_call_arguments_done a) blocks t h = absurd (cc)
terminal-ends s (tool_call_done a b c d) blocks t h = absurd (cc)

settled-Ended :
    (s : StreamAssemblyState) (blocks : List AssistantBlock) (reply : Option ProviderStreamEvent)
    → Agrees s blocks
    → Settles s reply
    → All (Ended blocks) (emitted reply)
settled-Ended s blocks none a h = tt
settled-Ended s blocks (some (update (reasoning_end i b))) a h = (a i h.0 ∙ h.1, tt)
settled-Ended s blocks (some (update (text_end i b))) a h = (a i h.0 ∙ h.1, tt)
settled-Ended s blocks (some (update (tool_call_end i b))) a h = (a i h.0 ∙ h.1, tt)
settled-Ended s blocks (some _) a h = (tt, tt)

assembled :
    (events : List NormalizedEvent) (s : StreamAssemblyState) (blocks : List AssistantBlock)
    → LastIsActive s
    → final_blocks (assemble s events) ≡ some blocks
    → Agrees s blocks × All (Ended blocks) (assemble s events)
unfolding assemble
assembled [] s blocks inv h = absurd (cc)
assembled (event ∷ events) s blocks inv h = elim (Bool-cases (is_terminal event)) [
  | inl t ↦
      let (same, ended) = terminal-ends s event blocks t (rw t at h) in
      (λ k lt. ap (λ l. get_elem? l k) (sym same), rw t ended)
  | inr t ↦
      let p = yield-Progress s event inv t in
      let later : final_blocks (assemble (yield_stream_event s event).1 events) ≡ some blocks =
        sym (p.goes_on (assemble (yield_stream_event s event).1 events)) ∙ (rw t at h) in
      let (agrees, ended) =
        assembled events (yield_stream_event s event).1 blocks p.last_active later in
      (
        λ k lt. let up = p.grows in agrees k (omega arith) ∙ p.kept k lt,
        rw t (
            All-append _ (emitted (yield_stream_event s event).0) _
              (settled-Ended (yield_stream_event s event).1 blocks _ agrees p.settles) ended),
      )
]

-- Where the events of a response are assembled to the end, a block that an event has ended stands, as it
-- was told, at its content index among the blocks of the terminal event: no later event changes it.
pub assemble-Ended :
    (source : ProviderSource) (events : List NormalizedEvent) (blocks : List AssistantBlock)
    → final_blocks (assemble (fresh source) events) ≡ some blocks
    → All (Ended blocks) (assemble (fresh source) events)
assemble-Ended source events blocks h =
    (assembled events (fresh source) blocks (λ i e. absurd (cc)) h).1
