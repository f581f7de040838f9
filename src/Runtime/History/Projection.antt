-- ===== src/Runtime/History/Projection.antt =====
-- Both histories of a run receive the same items: the working history is what was committed before
-- the run, followed by the run's delta.
use tile.Prelude.{
  sym, Option, ap, String, ◌≡◌, refl, ◌∙◌, none, some, Option-cases, inl, inr, List, [], ◌∷◌, ◌++◌,
  append_assoc, append-nil,
}
use tile.Types.Conversation.{ConversationItem}
use tile.Events.{AgentEvent}
use tile.Runtime.History.{RunHistory, start, observe, conversation_item_for, heal}

abbrev pub observe_all : RunHistory → List AgentEvent → RunHistory
observe_all h [] = h
observe_all h (e ∷ events) = observe_all (observe h e) events

abbrev pub as_list : Option ConversationItem → List ConversationItem
as_list none = []
as_list (some item) = item ∷ []

-- The items that a list of events carries.
abbrev pub items_of : List AgentEvent → List ConversationItem
items_of [] = []
items_of (e ∷ events) = as_list (conversation_item_for e) ++ items_of events

pub items_of-append : (xs ys : List AgentEvent) → items_of (xs ++ ys) ≡ items_of xs ++ items_of ys
items_of-append [] ys = refl
items_of-append (e ∷ xs) ys =
    ap (λ l. as_list (conversation_item_for e) ++ l) (items_of-append xs ys)
    ∙ sym (append_assoc (as_list (conversation_item_for e)) (items_of xs) (items_of ys))

-- The history that a run has after it received the items `new`.
abbrev pub extended : RunHistory → List ConversationItem → RunHistory
extended h new = record { working = h.working ++ new; delta = h.delta ++ new }

pub extended-extended :
    (h : RunHistory) (xs ys : List ConversationItem)
    → extended (extended h xs) ys ≡ extended h (xs ++ ys)
extended-extended h xs ys = simp append_assoc

pub observe_lem :
    (h : RunHistory) (e : AgentEvent) → observe h e ≡ extended h (as_list (conversation_item_for e))
unfolding observe
observe_lem h e = elim (Option-cases (conversation_item_for e)) [
  | inl p ↦ rw p (simp append-nil)
  | inr (item, p) ↦ rw p
]

-- Observing a list of events appends the items that they carry to both histories, in order.
pub observe_all_lem :
    (h : RunHistory) (events : List AgentEvent)
    → observe_all h events ≡ extended h (items_of events)
observe_all_lem h [] = simp append-nil
observe_all_lem h (e ∷ events) = rw observe_lem (
    observe_all_lem (extended h (as_list (conversation_item_for e))) events
    ∙ extended-extended h (as_list (conversation_item_for e)) (items_of events))

abbrev pub Extends : List ConversationItem → RunHistory → Type 0
Extends committed h = h.working ≡ committed ++ h.delta

start-Extends :
    (committed : List ConversationItem) (prompt : String)
    → Extends committed (start committed prompt)
unfolding start
start-Extends committed prompt = refl

extended-Extends :
    (committed : List ConversationItem) (h : RunHistory) (new : List ConversationItem)
    → Extends committed h
    → Extends committed (extended h new)
extended-Extends committed h new e = rw e (append_assoc committed h.delta new)

heal-Extends :
    (committed : List ConversationItem) (h : RunHistory)
    → Extends committed h
    → Extends committed (heal h)
unfolding heal
heal-Extends committed h e = extended-Extends committed h _ e

-- Whatever a run observes, its healed working history is the committed history, then its delta.
pub run-Extends :
    (committed : List ConversationItem) (prompt : String) (events : List AgentEvent)
    → Extends committed (heal (observe_all (start committed prompt) events))
run-Extends committed prompt events = heal-Extends committed _ (
    rw observe_all_lem
      (extended-Extends committed _ (items_of events) (start-Extends committed prompt)))
