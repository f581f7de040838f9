-- ===== src/Providers/Assembler/Progress.antt =====
-- What one event does to the blocks: the settled ones, which no later event changes, are those before
-- the active block, or all where none is active.
use mathlib.Core.Path.{subst}
use native.Mathlib.Nat.{le_refl}
use tile.Prelude.{
  unwrap_or, ℕ, zero, suc, ◌<◌, ◌≤◌, arith, String, ◌≡◌, refl, sym, ◌∙◌, ap, Option, none, some,
  List, [], ◌∷◌, ◌++◌, length, get_elem?, set, length-append, length-set, get_elem?-set_self,
}
use tile.Types.Json.{JsonObject}
use tile.Types.StreamEvents.{
  AssistantBlock, text_block, reasoning_block, tool_call_block, reasoning_end, text_end,
  tool_call_end, ProviderStreamEvent, stream_start, update, stream_done, stream_error,
}
use tile.Providers.Assembler.{
  StreamAssemblyState, Reply, emitted, append_active_block, write_block, clear_active_block,
  append_reasoning_delta, finalize_reasoning_block, append_text_delta, finalize_text_block,
  append_tool_call_arguments_delta, replace_tool_call_arguments, finalize_tool_call_block,
}

module _ {ℓ} {A : Type ℓ} where
  get_elem?-append :
      (xs ys : List A) (k : ℕ) → k < length xs → get_elem? (xs ++ ys) k ≡ get_elem? xs k
  get_elem?-append [] ys k h = absurd (ground (arith, h))
  get_elem?-append (x ∷ xs) ys zero h = refl
  get_elem?-append (x ∷ xs) ys (suc k) h = get_elem?-append xs ys k (omega arith)

  get_elem?-set_other :
      (xs : List A) (i : ℕ) (v : A) (k : ℕ) → k < i → get_elem? (set xs i v) k ≡ get_elem? xs k
  get_elem?-set_other [] i v k h = refl
  get_elem?-set_other (x ∷ xs) zero v k h = absurd (ground (arith, h))
  get_elem?-set_other (x ∷ xs) (suc i) v zero h = refl
  get_elem?-set_other (x ∷ xs) (suc i) v (suc k) h = get_elem?-set_other xs i v k (omega arith)

abbrev pub settled_at : Option ℕ → ℕ → ℕ
settled_at none n = n
settled_at (some i) n = i

abbrev pub settled : StreamAssemblyState → ℕ
settled s = settled_at s.active (length s.blocks)

-- The active block is the last one.
abbrev pub LastIsActive : StreamAssemblyState → Type 0
LastIsActive s = (i : ℕ) → s.active ≡ some i → suc i ≡ length s.blocks

-- A block that an event ends stands at its index, in a state that will not change it.
abbrev pub Settles : StreamAssemblyState → Option ProviderStreamEvent → Type 0
Settles s (some (update (reasoning_end i b))) =
    (i < settled s) × (get_elem? s.blocks i ≡ some (reasoning_block b))
Settles s (some (update (text_end i b))) =
    (i < settled s) × (get_elem? s.blocks i ≡ some (text_block b))
Settles s (some (update (tool_call_end i b))) =
    (i < settled s) × (get_elem? s.blocks i ≡ some (tool_call_block b))
Settles s _ = Unit

-- The blocks of the terminal event of a stream.
abbrev pub final_blocks : List ProviderStreamEvent → Option (List AssistantBlock)
final_blocks [] = none
final_blocks (stream_start source id ∷ events) = final_blocks events
final_blocks (update e ∷ events) = final_blocks events
final_blocks (stream_done d ∷ events) = some d.blocks
final_blocks (stream_error d ∷ events) = some d.blocks

pub record Progress (s : StreamAssemblyState) (reply : Option ProviderStreamEvent)
    (s' : StreamAssemblyState) : Type 0 where
  pub last_active : LastIsActive s'
  pub grows : settled s ≤ settled s'
  pub kept : (k : ℕ) → k < settled s → get_elem? s'.blocks k ≡ get_elem? s.blocks k
  pub settles : Settles s' reply
  pub goes_on :
      (rest : List ProviderStreamEvent) → final_blocks (emitted reply ++ rest) ≡ final_blocks rest

module _ (s : StreamAssemblyState) (inv : LastIsActive s) where
  settled-le : settled s ≤ length s.blocks
  settled-le = go s.active refl
    where
      go : (a : Option ℕ) → s.active ≡ a → settled_at a (length s.blocks) ≤ length s.blocks
      go none e = ground arith
      go (some i) e = let last = inv i e in ground (arith, last)

  pub same-Progress :
      (reply : Option ProviderStreamEvent)
      → Settles s reply
      → ((rest : List ProviderStreamEvent)
          → final_blocks (emitted reply ++ rest) ≡ final_blocks rest)
      → Progress s reply s
  same-Progress reply e o = record {
    last_active = inv;
    grows = ground arith;
    kept = λ k h. refl;
    settles = e;
    goes_on = o;
  }

  pub start-Progress :
      (block : AssistantBlock) (reply : Option ProviderStreamEvent)
      → Settles (append_active_block s block) reply
      → ((rest : List ProviderStreamEvent)
          → final_blocks (emitted reply ++ rest) ≡ final_blocks rest)
      → Progress s reply (append_active_block s block)
  start-Progress block reply e o = record {
    last_active = λ i h.
        let same = ap (λ o. unwrap_or o 0) h in
        let longer = length-append s.blocks (block ∷ []) in ground (arith, same, longer);
    grows = settled-le;
    kept = λ k h. let le = settled-le in get_elem?-append s.blocks (block ∷ []) k (omega arith);
    settles = e;
    goes_on = o;
  }

  module _ (i : ℕ) (block : AssistantBlock) (is_active : s.active ≡ some i) where
    active-settled : settled s ≡ i
    active-settled = ap (λ a. settled_at a (length s.blocks)) is_active

    pub write-Progress :
        (reply : Option ProviderStreamEvent)
        → Settles (write_block s i block) reply
        → ((rest : List ProviderStreamEvent)
            → final_blocks (emitted reply ++ rest) ≡ final_blocks rest)
        → Progress s reply (write_block s i block)
    write-Progress reply e o = record {
      last_active = λ j h. inv j h ∙ sym (length-set s.blocks i block);
      grows =
          subst (λ a. settled_at a (length s.blocks) ≤ settled_at a (length (set s.blocks i block)))
            (sym is_active) (le_refl i);
      kept = λ k h. get_elem?-set_other s.blocks i block k (subst (λ n. k < n) active-settled h);
      settles = e;
      goes_on = o;
    }

    pub end-Progress :
        (reply : Option ProviderStreamEvent)
        → (get_elem? (set s.blocks i block) i ≡ some block
            → i < length (set s.blocks i block)
            → Settles (clear_active_block (write_block s i block)) reply)
        → ((rest : List ProviderStreamEvent)
            → final_blocks (emitted reply ++ rest) ≡ final_blocks rest)
        → Progress s reply (clear_active_block (write_block s i block))
    end-Progress reply e o =
        let last = inv i is_active in
        let same = length-set s.blocks i block in
        record {
          last_active = λ j h. absurd (cc);
          grows = let here = active-settled in ground (arith, here, last, same);
          kept =
              λ k h. get_elem?-set_other s.blocks i block k (subst (λ n. k < n) active-settled h);
          settles =
              e (get_elem?-set_self s.blocks i block (omega arith)) (ground (arith, last, same));
          goes_on = o;
        }

abbrev pub Active : StreamAssemblyState → Option (AssistantBlock × ℕ) → Type 0
Active s a = (b : AssistantBlock) (i : ℕ) → a ≡ some (b, i) → s.active ≡ some i

module _ (s : StreamAssemblyState) (inv : LastIsActive s) where
  abbrev Moves : Reply → Type 0
  Moves r = Progress s r.0 r.1

  idle-Moves : Moves (none, s)
  idle-Moves = same-Progress s inv none tt (λ rest. refl)

  pub append_reasoning_delta-Moves :
      (delta : String) (a : Option (AssistantBlock × ℕ))
      → Active s a
      → Moves (append_reasoning_delta s delta a)
  append_reasoning_delta-Moves delta none h = idle-Moves
  append_reasoning_delta-Moves delta (some (text_block b, i)) h = idle-Moves
  append_reasoning_delta-Moves delta (some (tool_call_block b, i)) h = idle-Moves
  append_reasoning_delta-Moves delta (some (reasoning_block b, i)) h =
      write-Progress s inv i _ (h _ i refl) _ tt (λ rest. refl)

  pub finalize_reasoning_block-Moves :
      (summary : String) (signature : Option String) (a : Option (AssistantBlock × ℕ))
      → Active s a
      → Moves (finalize_reasoning_block s summary signature a)
  finalize_reasoning_block-Moves summary signature none h = idle-Moves
  finalize_reasoning_block-Moves summary signature (some (text_block b, i)) h = idle-Moves
  finalize_reasoning_block-Moves summary signature (some (tool_call_block b, i)) h = idle-Moves
  finalize_reasoning_block-Moves summary signature (some (reasoning_block b, i)) h =
      end-Progress s inv i _ (h _ i refl) _ (λ at lt. (lt, at)) (λ rest. refl)

  pub append_text_delta-Moves :
      (delta : String) (a : Option (AssistantBlock × ℕ))
      → Active s a
      → Moves (append_text_delta s delta a)
  append_text_delta-Moves delta none h = idle-Moves
  append_text_delta-Moves delta (some (reasoning_block b, i)) h = idle-Moves
  append_text_delta-Moves delta (some (tool_call_block b, i)) h = idle-Moves
  append_text_delta-Moves delta (some (text_block b, i)) h =
      write-Progress s inv i _ (h _ i refl) _ tt (λ rest. refl)

  pub finalize_text_block-Moves :
      (item_id text : String) (phase : Option String) (a : Option (AssistantBlock × ℕ))
      → Active s a
      → Moves (finalize_text_block s item_id text phase a)
  finalize_text_block-Moves item_id text phase none h = idle-Moves
  finalize_text_block-Moves item_id text phase (some (reasoning_block b, i)) h = idle-Moves
  finalize_text_block-Moves item_id text phase (some (tool_call_block b, i)) h = idle-Moves
  finalize_text_block-Moves item_id text phase (some (text_block b, i)) h =
      end-Progress s inv i _ (h _ i refl) _ (λ at lt. (lt, at)) (λ rest. refl)

  pub append_tool_call_arguments_delta-Moves :
      (delta : String) (a : Option (AssistantBlock × ℕ))
      → Active s a
      → Moves (append_tool_call_arguments_delta s delta a)
  append_tool_call_arguments_delta-Moves delta none h = idle-Moves
  append_tool_call_arguments_delta-Moves delta (some (reasoning_block b, i)) h = idle-Moves
  append_tool_call_arguments_delta-Moves delta (some (text_block b, i)) h = idle-Moves
  append_tool_call_arguments_delta-Moves delta (some (tool_call_block b, i)) h =
      same-Progress s inv _ tt (λ rest. refl)

  pub replace_tool_call_arguments-Moves :
      (arguments : JsonObject) (a : Option (AssistantBlock × ℕ))
      → Active s a
      → Moves (replace_tool_call_arguments s arguments a)
  replace_tool_call_arguments-Moves arguments none h = idle-Moves
  replace_tool_call_arguments-Moves arguments (some (reasoning_block b, i)) h = idle-Moves
  replace_tool_call_arguments-Moves arguments (some (text_block b, i)) h = idle-Moves
  replace_tool_call_arguments-Moves arguments (some (tool_call_block b, i)) h =
      write-Progress s inv i _ (h _ i refl) _ tt (λ rest. refl)

  pub finalize_tool_call_block-Moves :
      (item_id : Option String) (call_id name : String) (arguments : JsonObject)
      (a : Option (AssistantBlock × ℕ))
      → Active s a
      → Moves (finalize_tool_call_block s item_id call_id name arguments a)
  finalize_tool_call_block-Moves item_id call_id name arguments none h = idle-Moves
  finalize_tool_call_block-Moves item_id call_id name arguments (some (reasoning_block b, i)) h =
      idle-Moves
  finalize_tool_call_block-Moves item_id call_id name arguments (some (text_block b, i)) h =
      idle-Moves
  finalize_tool_call_block-Moves item_id call_id name arguments (some (tool_call_block b, i)) h =
      end-Progress s inv i _ (h _ i refl) _ (λ at lt. (lt, at)) (λ rest. refl)
