-- ===== src/Runtime/RunExecution/Subscription.antt =====
-- `RunExecution.events` of tile/runtime/run_execution.py: a subscriber of a run's event log, beside the
-- run and the other subscribers. A step of the subscriber goes from one suspension to the next.
pub mod Delivery
use tile.Prelude.{
  ℕ, suc, ◌+◌, ◌≡◌, Bool, true, false, Option, none, some, List, [], ◌∷◌, ◌++◌, if◌then◌else◌,
  get_elem?,
}
use tile.Events.{AgentEvent}

-- Where the iterator stands: at the head of its loop, behind a `yield`, in `changed.wait()`, or at its end.
pub data Phase : Type 0 where
  ready yielded waiting returned : Phase

pub record Subscription : Type 0 where
  pub events : List AgentEvent
  pub finalized : Bool
  pub changed : Bool
  pub index : ℕ
  pub phase : Phase
  pub received : List AgentEvent

-- `asyncio.Event.set` wakes the subscribers that wait.
unfoldable pub woken : Phase → Phase
woken waiting = ready
woken ready = ready
woken yielded = yielded
woken returned = returned

-- `_emit`, seen by the subscriber.
unfoldable pub publish : AgentEvent → Subscription → Subscription
publish event s = record s {
  events = s.events ++ event ∷ [];
  changed = true;
  phase = woken s.phase;
}

-- The rest of a round: yield the next event, return, or wait. A `wait` on a set event does not suspend, and
-- the round that follows clears the event and waits.
abbrev pub drain_with : Option AgentEvent → Subscription → Subscription
drain_with (some event) s = record s {
  index = suc s.index;
  phase = yielded;
  received = s.received ++ event ∷ [];
}
drain_with none s =
    if s.finalized
    then record s { phase = returned }
    else record s { changed = false; phase = waiting }

unfoldable pub drain : Subscription → Subscription
drain s = drain_with (get_elem? s.events s.index) s

unfoldable pub resume_at : Phase → Subscription → Subscription
resume_at ready s = drain (record s { changed = false })
resume_at yielded s = drain s
resume_at waiting s = s
resume_at returned s = s

unfoldable pub resume : Subscription → Subscription
resume s = resume_at s.phase s

-- What can happen: the run emits an event, or its terminal event at the end; another subscriber clears the
-- shared flag; or this one goes on.
pub data Step : Subscription → Subscription → Type 0 where
  emits : {s : Subscription} (event : AgentEvent) → s.finalized ≡ false → Step s (publish event s)
  finalizes :
      {s : Subscription} (event : AgentEvent)
      → s.finalized ≡ false
      → Step s (record (publish event s) { finalized = true })
  clears : {s : Subscription} → Step s (record s { changed = false })
  resumes : {s : Subscription} → Step s (resume s)

pub data Steps : Subscription → Subscription → Type 0 where
  here : {s : Subscription} → Steps s s
  after : {s t u : Subscription} → Step s t → Steps t u → Steps s u

-- A new iterator on a log.
abbrev pub subscribed : List AgentEvent → Bool → Bool → Subscription
subscribed events finalized changed = record {
  events = events;
  finalized = finalized;
  changed = changed;
  index = 0;
  phase = ready;
  received = [];
}
