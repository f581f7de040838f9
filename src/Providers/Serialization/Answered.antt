-- ===== src/Providers/Serialization/Answered.antt =====
-- Every function call in a request has its output there.
use tile.Prelude.{
  ℕ, suc, String, ◌≡◌, refl, sym, ap, subst, ◌∙◌, inl, inr, Bool, true, false, ◌||◌, Option, none,
  some, List, [], ◌∷◌, ◌++◌, map, append-nil, map-append, Bool-cases, All, All-append, ok, ◌>>=◌,
  All-weaken, bind_ok, ok_inj, str_eq, any-append,
}
use tile.Types.StreamEvents.{
  ToolCallBlock, AssistantBlock, text_block, reasoning_block, tool_call_block,
}
use tile.Types.Conversation.{TurnStatus, AssistantTurn}
use tile.Runtime.History.{requested, answered, mem_id, tool_calls_of}
use tile.Runtime.History.Healing.{requested-append, answered-append}
use tile.Providers.Serialization.{
  assistant, tool_result, user, serialize_tool_result_turn, serialize_user_message,
  ConversationItem, serialize_item, serialize_history_items, serialize_items, InputItem,
  user_message, reasoning, output_message, function_call, function_call_output, Codec,
  serialize_signature, serialize_block, serialize_blocks, serialize_assistant_turn, if_completed,
  serialize_assistant_text_block, serialize_assistant_tool_call_block,
}

-- The call ids of the function calls among some request items.
abbrev pub call_ids : List InputItem → List String
call_ids [] = []
call_ids (function_call id call_id name arguments ∷ items) = call_id ∷ call_ids items
call_ids (user_message content ∷ items) = call_ids items
call_ids (reasoning item ∷ items) = call_ids items
call_ids (output_message id text phase ∷ items) = call_ids items
call_ids (function_call_output call_id output ∷ items) = call_ids items

-- The call ids of the outputs among some request items.
abbrev pub output_ids : List InputItem → List String
output_ids [] = []
output_ids (function_call_output call_id output ∷ items) = call_id ∷ output_ids items
output_ids (function_call id call_id name arguments ∷ items) = output_ids items
output_ids (user_message content ∷ items) = output_ids items
output_ids (reasoning item ∷ items) = output_ids items
output_ids (output_message id text phase ∷ items) = output_ids items

call_ids-append : (xs ys : List InputItem) → call_ids (xs ++ ys) ≡ call_ids xs ++ call_ids ys
call_ids-append [] ys = refl
call_ids-append (function_call id call_id name arguments ∷ xs) ys =
    ap (λ l. call_id ∷ l) (call_ids-append xs ys)
call_ids-append (user_message content ∷ xs) ys = call_ids-append xs ys
call_ids-append (reasoning item ∷ xs) ys = call_ids-append xs ys
call_ids-append (output_message id text phase ∷ xs) ys = call_ids-append xs ys
call_ids-append (function_call_output call_id output ∷ xs) ys = call_ids-append xs ys

output_ids-append :
    (xs ys : List InputItem) → output_ids (xs ++ ys) ≡ output_ids xs ++ output_ids ys
output_ids-append [] ys = refl
output_ids-append (function_call_output call_id output ∷ xs) ys =
    ap (λ l. call_id ∷ l) (output_ids-append xs ys)
output_ids-append (function_call id call_id name arguments ∷ xs) ys = output_ids-append xs ys
output_ids-append (user_message content ∷ xs) ys = output_ids-append xs ys
output_ids-append (reasoning item ∷ xs) ys = output_ids-append xs ys
output_ids-append (output_message id text phase ∷ xs) ys = output_ids-append xs ys

abbrev ids_of : List ToolCallBlock → List String
ids_of calls = map (λ call. call.call_id) calls

-- Items that hold the given calls and no output.
abbrev HoldCalls : List String → List InputItem → Type 0
HoldCalls ids items = (call_ids items ≡ ids) × (output_ids items ≡ [])

-- Every tool call that a history requests has a result in it.
abbrev pub AllAnswered : List ConversationItem → Type 0
AllAnswered history =
    All (λ call. mem_id call.call_id (answered history) ≡ true) (requested history)

mem_id-append_left :
    (id : String) (xs ys : List String) → mem_id id xs ≡ true → mem_id id (xs ++ ys) ≡ true
mem_id-append_left id xs ys h = rw any-append (rw h refl)

or_true : (b : Bool) → (b || true) ≡ true
or_true true = refl
or_true false = refl

mem_id-append_right :
    (id : String) (xs ys : List String) → mem_id id ys ≡ true → mem_id id (xs ++ ys) ≡ true
mem_id-append_right id xs ys h = rw any-append (rw h (or_true (mem_id id xs)))

pub AllAnswered-append :
    (xs ys : List ConversationItem) → AllAnswered xs → AllAnswered ys → AllAnswered (xs ++ ys)
AllAnswered-append xs ys h k =
    rw (requested-append xs ys, answered-append xs ys)
      (All-append _ (requested xs) (requested ys)
        (All-weaken _ _ (requested xs)
          (λ call m. mem_id-append_left call.call_id (answered xs) (answered ys) m) h)
        (All-weaken _ _ (requested ys)
          (λ call m. mem_id-append_right call.call_id (answered xs) (answered ys) m) k))

All-split {ℓ κ} :
    {A : Type ℓ} (P : A → Type κ) (xs ys : List A) → All P (xs ++ ys) → All P xs × All P ys
All-split P [] ys h = (tt, h)
All-split P (x ∷ xs) ys h = let parts = All-split P xs ys (h.1) in ((h.0, parts.0), parts.1)

All-map_ids :
    (P : String → Type 0) (calls : List ToolCallBlock)
    → All (λ call. P call.call_id) calls
    → All P (ids_of calls)
All-map_ids P [] h = tt
All-map_ids P (call ∷ calls) h = (h.0, All-map_ids P calls (h.1))

answered-nil : answered [] ≡ []
unfolding answered
answered-nil = refl

requested-split :
    (item : ConversationItem) (history : List ConversationItem)
    → ids_of (requested (item ∷ history))
      ≡ ids_of (requested (item ∷ [])) ++ ids_of (requested history)
requested-split item history =
    ap ids_of (requested-append (item ∷ []) history)
    ∙ map-append _ (requested (item ∷ [])) (requested history)

module _ (codec : Codec) where
  signature-empty :
      (signature : String)
      → str_eq signature "" ≡ true
      → serialize_signature codec (some signature) ≡ ok []
  unfolding serialize_signature
  signature-empty signature h = rw h refl

  signature-replayed :
      (signature : String)
      → str_eq signature "" ≡ false
      → serialize_signature codec (some signature)
        ≡ (codec.replay signature >>= λ item. ok (reasoning item ∷ []))
  unfolding serialize_signature
  signature-replayed signature h = rw h refl

  signature-HoldCalls :
      (signature : Option String) (items : List InputItem)
      → serialize_signature codec signature ≡ ok items
      → HoldCalls [] items
  unfolding serialize_signature
  signature-HoldCalls none items h = subst (HoldCalls []) (ok_inj [] items h) (refl, refl)
  signature-HoldCalls (some signature) items h = elim (Bool-cases (str_eq signature "")) [
    | inl e ↦
        subst (HoldCalls []) (ok_inj [] items (sym (signature-empty signature e) ∙ h)) (refl, refl)
    | inr e ↦
        let replayed =
          bind_ok (codec.replay signature) (λ item. ok (reasoning item ∷ [])) items
            (sym (signature-replayed signature e) ∙ h) in
        subst (HoldCalls []) (ok_inj (reasoning (replayed.0) ∷ []) items (replayed.2)) (refl, refl)
  ]

  block-HoldCalls :
      (block : AssistantBlock) (turn_index block_index : ℕ) (items : List InputItem)
      → serialize_block codec block turn_index block_index ≡ ok items
      → HoldCalls (ids_of (tool_calls_of (block ∷ []))) items
  unfolding serialize_block tool_calls_of serialize_assistant_tool_call_block
      serialize_assistant_text_block
  block-HoldCalls (reasoning_block b) turn_index block_index items h = signature-HoldCalls _ items h
  block-HoldCalls (text_block b) turn_index block_index items h =
      subst (HoldCalls []) (ok_inj _ items h) (refl, refl)
  block-HoldCalls (tool_call_block b) turn_index block_index items h =
      subst (HoldCalls (b.call_id ∷ [])) (ok_inj _ items h) (refl, refl)

  tool_calls_of-cons :
      (block : AssistantBlock) (blocks : List AssistantBlock)
      → tool_calls_of (block ∷ blocks) ≡ tool_calls_of (block ∷ []) ++ tool_calls_of blocks
  unfolding tool_calls_of
  tool_calls_of-cons (reasoning_block b) blocks = refl
  tool_calls_of-cons (text_block b) blocks = refl
  tool_calls_of-cons (tool_call_block b) blocks = refl

  HoldCalls-append :
      (ids more : List String) (items rest : List InputItem)
      → HoldCalls ids items
      → HoldCalls more rest
      → HoldCalls (ids ++ more) (items ++ rest)
  HoldCalls-append ids more items rest h k = (
    rw (call_ids-append items rest, h.0, k.0) refl,
    rw (output_ids-append items rest, h.1, k.1) refl,
  )

  blocks-HoldCalls :
      (blocks : List AssistantBlock) (turn_index block_index : ℕ) (items : List InputItem)
      → serialize_blocks codec blocks turn_index block_index ≡ ok items
      → HoldCalls (ids_of (tool_calls_of blocks)) items
  unfolding serialize_blocks tool_calls_of
  blocks-HoldCalls [] turn_index block_index items h =
      subst (HoldCalls []) (ok_inj [] items h) (refl, refl)
  blocks-HoldCalls (block ∷ blocks) turn_index block_index items h =
      let first = bind_ok (serialize_block codec block turn_index block_index) _ items h in
      let rest =
        bind_ok (serialize_blocks codec blocks turn_index (suc block_index)) _ items (first.2) in
      let both =
        HoldCalls-append _ _ (first.0) (rest.0)
          (block-HoldCalls block turn_index block_index (first.0) (first.1))
          (blocks-HoldCalls blocks turn_index (suc block_index) (rest.0) (rest.1)) in
      let same =
        ap ids_of (tool_calls_of-cons block blocks)
        ∙ map-append _ (tool_calls_of (block ∷ [])) (tool_calls_of blocks) in
      subst (HoldCalls (ids_of (tool_calls_of (block ∷ blocks)))) (ok_inj _ items (rest.2))
        (subst (λ ids. HoldCalls ids (first.0 ++ rest.0)) (sym same) both)

  -- Items whose calls all satisfy a predicate, with the given outputs.
  abbrev Holds : (String → Type 0) → List String → List InputItem → Type 0
  Holds P outputs items = All P (call_ids items) × (output_ids items ≡ outputs)

  completed-Holds :
      (P : String → Type 0) (status : TurnStatus) (turn : AssistantTurn) (index : ℕ)
      (items : List InputItem × ℕ)
      → All P (ids_of (tool_calls_of turn.blocks))
      → if_completed codec status (serialize_assistant_turn codec turn index) index ≡ ok items
      → Holds P [] (items.0)
  unfolding if_completed serialize_assistant_turn
  completed-Holds P TurnStatus.completed turn index items h k =
      let serialized = bind_ok (serialize_blocks codec turn.blocks index 0) _ items k in
      let held = blocks-HoldCalls turn.blocks index 0 (serialized.0) (serialized.1) in
      subst (λ (p : List InputItem × ℕ). Holds P [] (p.0)) (ok_inj _ items (serialized.2))
        (subst (All P) (sym (held.0)) h, held.1)
  completed-Holds P TurnStatus.aborted turn index items h k =
      subst (λ (p : List InputItem × ℕ). Holds P [] (p.0)) (ok_inj _ items k) (tt, refl)
  completed-Holds P TurnStatus.error turn index items h k =
      subst (λ (p : List InputItem × ℕ). Holds P [] (p.0)) (ok_inj _ items k) (tt, refl)

  item-Holds :
      (P : String → Type 0) (item : ConversationItem) (index : ℕ) (items : List InputItem × ℕ)
      → All P (ids_of (requested (item ∷ [])))
      → serialize_item codec item index ≡ ok items
      → Holds P (answered (item ∷ [])) (items.0)
  unfolding serialize_item requested answered serialize_user_message serialize_tool_result_turn
  item-Holds P (user message) index items h k =
      subst (λ (p : List InputItem × ℕ). Holds P [] (p.0)) (ok_inj _ items k) (tt, refl)
  item-Holds P (tool_result turn) index items h k =
      subst (λ (p : List InputItem × ℕ). Holds P (turn.call_id ∷ []) (p.0)) (ok_inj _ items k)
        (tt, refl)
  item-Holds P (assistant turn) index items h k =
      completed-Holds P turn.status turn index items
        (subst (λ calls. All P (ids_of calls)) (append-nil (tool_calls_of turn.blocks)) h) k

  Holds-append :
      (P : String → Type 0) (outputs more : List String) (items rest : List InputItem)
      → Holds P outputs items
      → Holds P more rest
      → Holds P (outputs ++ more) (items ++ rest)
  Holds-append P outputs more items rest h k = (
    subst (All P) (sym (call_ids-append items rest))
        (All-append P (call_ids items) (call_ids rest) (h.0) (k.0)),
    rw (output_ids-append items rest, h.1, k.1) refl,
  )

  items-Holds :
      (P : String → Type 0) (history : List ConversationItem) (index : ℕ) (items : List InputItem)
      → All P (ids_of (requested history))
      → serialize_items codec history index ≡ ok items
      → Holds P (answered history) items
  unfolding serialize_items
  items-Holds P [] index items h k =
      subst (Holds P (answered [])) (ok_inj [] items k) (tt, sym answered-nil)
  items-Holds P (item ∷ history) index items h k =
      let first = bind_ok (serialize_item codec item index) _ items k in
      let rest = bind_ok (serialize_items codec history (first.0.1)) _ items (first.2) in
      let split =
        All-split P (ids_of (requested (item ∷ []))) (ids_of (requested history))
          (subst (All P) (requested-split item history) h) in
      let both =
        Holds-append P (answered (item ∷ [])) (answered history) (first.0.0) (rest.0)
          (item-Holds P item index (first.0) (split.0) (first.1))
          (items-Holds P history (first.0.1) (rest.0) (split.1) (rest.1)) in
      subst (Holds P (answered (item ∷ history))) (ok_inj _ items (rest.2)) (
        subst (λ outputs. Holds P outputs (first.0.0 ++ rest.0))
          (sym (answered-append (item ∷ []) history)) both)

  -- In the request for a history whose tool calls all have results, every function call has an output.
  pub history-answered :
      (history : List ConversationItem) (items : List InputItem)
      → AllAnswered history
      → serialize_history_items codec history ≡ ok items
      → All (λ id. mem_id id (output_ids items) ≡ true) (call_ids items)
  unfolding serialize_history_items
  history-answered history items h k =
      let held =
        items-Holds (λ id. mem_id id (answered history) ≡ true) history 0 items
          (All-map_ids _ (requested history) h) k in
      subst (λ outputs. All (λ id. mem_id id outputs ≡ true) (call_ids items)) (sym (held.1))
        (held.0)
