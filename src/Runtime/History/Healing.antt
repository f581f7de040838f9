-- ===== src/Runtime/History/Healing.antt =====
-- Healing answers every interrupted tool call of a run's delta, and does nothing twice.
use tile.Prelude.{
  String, ◌≡◌, refl, ap, true, not, List, [], ◌∷◌, ◌++◌, map, eq_refl, filter, All, arith,
  any-append, append-nil, append_assoc, Bool-cases, inl, inr,
}
use tile.Types.StreamEvents.{ToolCallBlock}
use tile.Types.Conversation.{ConversationItem, user, assistant, tool_result}
use tile.Runtime.History.{
  RunHistory, answered, requested, mem_id, unanswered_tool_calls, interrupted, heal,
}

abbrev ids : List ToolCallBlock → List String
ids = map (λ call. call.call_id)

pub requested-append :
    (xs ys : List ConversationItem) → requested (xs ++ ys) ≡ requested xs ++ requested ys
unfolding requested
requested-append [] ys = refl
requested-append (user m ∷ xs) ys = requested-append xs ys
requested-append (assistant t ∷ xs) ys = simp (requested-append xs ys, append_assoc)
requested-append (tool_result t ∷ xs) ys = requested-append xs ys

pub answered-append :
    (xs ys : List ConversationItem) → answered (xs ++ ys) ≡ answered xs ++ answered ys
unfolding answered
answered-append [] ys = refl
answered-append (user m ∷ xs) ys = answered-append xs ys
answered-append (assistant t ∷ xs) ys = answered-append xs ys
answered-append (tool_result t ∷ xs) ys = ap (λ l. t.call_id ∷ l) (answered-append xs ys)

requested-interrupted : (calls : List ToolCallBlock) → requested (map interrupted calls) ≡ []
unfolding requested interrupted
requested-interrupted [] = refl
requested-interrupted (c ∷ calls) = requested-interrupted calls

answered-interrupted : (calls : List ToolCallBlock) → answered (map interrupted calls) ≡ ids calls
unfolding answered interrupted
answered-interrupted [] = refl
answered-interrupted (c ∷ calls) = ap (λ l. c.call_id ∷ l) (answered-interrupted calls)

-- The calls that a set of ids misses.
abbrev missing : List String → List ToolCallBlock → List ToolCallBlock
missing known = filter (λ call. not (mem_id call.call_id known))

-- A set of ids that holds the known ones and those of the missing calls covers every call.
missing_covered :
    (known whole : List String) (calls : List ToolCallBlock)
    → ((id : String) → mem_id id known ≡ true → mem_id id whole ≡ true)
    → ((id : String) → mem_id id (ids (missing known calls)) ≡ true → mem_id id whole ≡ true)
    → All (λ call. mem_id call.call_id whole ≡ true) calls
missing_covered known whole [] keeps adds = tt
missing_covered known whole (c ∷ calls) keeps adds = elim (Bool-cases (mem_id c.call_id known)) [
  | inl e ↦ (keeps c.call_id e, missing_covered known whole calls keeps (rw e at adds))
  | inr e ↦
      let adds' = (rw e at adds) in
      (
        adds' c.call_id (rw eq_refl refl),
        missing_covered known whole calls keeps (λ id m. adds' id (ground (arith, m))),
      )
]

covered-missing :
    (whole : List String) (calls : List ToolCallBlock)
    → All (λ call. mem_id call.call_id whole ≡ true) calls
    → missing whole calls ≡ []
covered-missing whole [] h = refl
covered-missing whole (c ∷ calls) h = rw h.0 (covered-missing whole calls h.1)

requested-heal : (h : RunHistory) → requested (heal h).delta ≡ requested h.delta
unfolding heal
requested-heal h = simp (requested-append, requested-interrupted, append-nil)

answered-heal :
    (h : RunHistory)
    → answered (heal h).delta ≡ answered h.delta ++ ids (unanswered_tool_calls h.delta)
unfolding heal
answered-heal h = simp (answered-append, answered-interrupted)

-- After healing, every tool call that the run's delta requests has a result in the delta.
pub heal-answered :
    (h : RunHistory)
    → All (λ call. mem_id call.call_id (answered (heal h).delta) ≡ true) (requested (heal h).delta)
heal-answered h =
    rw (requested-heal h, answered-heal h)
      (missing_covered (answered h.delta) _ (requested h.delta) (λ id m. rw any-append (rw m refl))
        (λ id m. rw any-append (unfold unanswered_tool_calls in ground (arith, m))))

pub unanswered-heal : (h : RunHistory) → unanswered_tool_calls (heal h).delta ≡ []
unfolding unanswered_tool_calls
unanswered-heal h = covered-missing _ _ (heal-answered h)

-- Where no call is left open, healing changes nothing.
pub heal_closed : (h : RunHistory) → unanswered_tool_calls h.delta ≡ [] → heal h ≡ h
unfolding heal
heal_closed h e = rw (e, append-nil h.working, append-nil h.delta)

-- Healing twice is healing once.
heal_idem : (h : RunHistory) → heal (heal h) ≡ heal h
heal_idem h = heal_closed (heal h) (unanswered-heal h)
