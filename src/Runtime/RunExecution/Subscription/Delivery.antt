-- ===== src/Runtime/RunExecution/Subscription/Delivery.antt =====
-- Every event of a run reaches every subscriber, to the terminal event.
use tile.Prelude.{
  ℕ, zero, suc, ◌+◌, ◌-◌, ◌≤◌, ◌≡◌, refl, sym, ap, ◌∙◌, inl, inr, Bool, true, false, Option, none,
  some, List, [], ◌∷◌, ◌++◌, arith, Bool-cases, length, get_elem?, take, length-append,
  take-append_left, take-next, get_elem?-some, get_elem?-none,
}
use tile.Events.{AgentEvent}
use tile.Runtime.RunExecution.Subscription.{
  Phase, ready, yielded, waiting, returned, Subscription, woken, publish, drain, drain_with,
  resume_at, resume, Step, emits, finalizes, clears, resumes, Steps, here, after, subscribed,
}

-- What holds in a phase: only a subscriber that has received all events of a run that goes on waits, and
-- only one that has received all events of a run that has ended is at its end.
abbrev pub PhaseHolds : Phase → Subscription → Type 0
PhaseHolds ready s = Unit
PhaseHolds yielded s = Unit
PhaseHolds waiting s = (s.index ≡ length s.events) × (s.finalized ≡ false)
PhaseHolds returned s = (s.index ≡ length s.events) × (s.finalized ≡ true)

pub record IsCurrent (s : Subscription) : Type 0 where
  pub in_range : s.index ≤ length s.events
  pub prefix : s.received ≡ take s.index s.events
  pub phase_holds : PhaseHolds s.phase s

subscribed-IsCurrent :
    (events : List AgentEvent) (finalized changed : Bool)
    → IsCurrent (subscribed events finalized changed)
subscribed-IsCurrent events finalized changed = record {
  in_range = omega arith;
  prefix = refl;
  phase_holds = tt;
}

woken-holds :
    (phase : Phase) (s t : Subscription)
    → s.finalized ≡ false
    → PhaseHolds phase s
    → PhaseHolds (woken phase) t
unfolding woken
woken-holds ready s t h k = tt
woken-holds yielded s t h k = tt
woken-holds waiting s t h k = tt
woken-holds returned s t h k = absurd (cc (h, k.1))

publish-IsCurrent :
    (s : Subscription) (event : AgentEvent) (finalized : Bool)
    → s.finalized ≡ false
    → IsCurrent s
    → IsCurrent (record (publish event s) { finalized = finalized })
unfolding publish
publish-IsCurrent s event finalized h c = record {
  in_range = omega (arith, c.in_range, length-append s.events (event ∷ []));
  prefix = c.prefix ∙ sym (take-append_left s.index s.events (event ∷ []) c.in_range);
  phase_holds = woken-holds s.phase s _ h c.phase_holds;
}

drain_with-IsCurrent :
    (s : Subscription) (next : Option AgentEvent)
    → get_elem? s.events s.index ≡ next
    → s.index ≤ length s.events
    → s.received ≡ take s.index s.events
    → IsCurrent (drain_with next s)
drain_with-IsCurrent s (some event) h k l = record {
  in_range = get_elem?-some s.index s.events event h;
  prefix = ap (λ r. r ++ event ∷ []) l ∙ sym (take-next s.index s.events event h);
  phase_holds = tt;
}
drain_with-IsCurrent s none h k l = elim (Bool-cases s.finalized) [
  | inl e ↦ rw e record {
    in_range = k;
    prefix = l;
    phase_holds = (omega (arith, k, get_elem?-none s.index s.events h), refl);
  }
  | inr e ↦ rw e record {
    in_range = k;
    prefix = l;
    phase_holds = (omega (arith, k, get_elem?-none s.index s.events h), refl);
  }
]

resume_at-IsCurrent :
    (phase : Phase) (s : Subscription)
    → s.phase ≡ phase
    → IsCurrent s
    → IsCurrent (resume_at phase s)
unfolding resume_at drain
resume_at-IsCurrent ready s h c =
    drain_with-IsCurrent (record s { changed = false }) _ refl c.in_range c.prefix
resume_at-IsCurrent yielded s h c = drain_with-IsCurrent s _ refl c.in_range c.prefix
resume_at-IsCurrent waiting s h c = c
resume_at-IsCurrent returned s h c = c

cleared-holds :
    (phase : Phase) (s : Subscription)
    → PhaseHolds phase s
    → PhaseHolds phase (record s { changed = false })
cleared-holds ready s h = tt
cleared-holds yielded s h = tt
cleared-holds waiting s h = h
cleared-holds returned s h = h

Step-IsCurrent : {s t : Subscription} → Step s t → IsCurrent s → IsCurrent t
unfolding resume publish
Step-IsCurrent {s} (emits event h) c = publish-IsCurrent s event s.finalized h c
Step-IsCurrent {s} (finalizes event h) c = publish-IsCurrent s event true h c
Step-IsCurrent {s} (clears) c = record {
  in_range = c.in_range;
  prefix = c.prefix;
  phase_holds = cleared-holds s.phase s c.phase_holds;
}
Step-IsCurrent {s} (resumes) c = resume_at-IsCurrent s.phase s refl c

Steps-IsCurrent : {s t : Subscription} → Steps s t → IsCurrent s → IsCurrent t
Steps-IsCurrent (here) c = c
Steps-IsCurrent (after step steps) c = Steps-IsCurrent steps (Step-IsCurrent step c)

-- The subscriber going on for some rounds.
pub resume_times : ℕ → Subscription → Subscription
resume_times zero s = s
resume_times (suc n) s = resume_times n (resume s)

-- A round of a subscriber of a run that has ended.
record Progress (s t : Subscription) : Type 0 where
  same_events : t.events ≡ s.events
  still_ended : t.finalized ≡ true
  advances : (n : ℕ) → length s.events ≤ suc n + s.index → length t.events ≤ n + t.index

drain_with-Progress :
    (s : Subscription) (next : Option AgentEvent)
    → get_elem? s.events s.index ≡ next
    → s.finalized ≡ true
    → Progress s (drain_with next s)
drain_with-Progress s (some event) h k = record {
  same_events = refl;
  still_ended = k;
  advances = λ n b. omega (arith, b);
}
drain_with-Progress s none h k = rw k record {
  same_events = refl;
  still_ended = refl;
  advances = λ n b. omega (arith, get_elem?-none s.index s.events h);
}

resume_at-Progress :
    (phase : Phase) (s : Subscription)
    → PhaseHolds phase s
    → s.finalized ≡ true
    → Progress s (resume_at phase s)
unfolding resume_at drain
resume_at-Progress ready s h k =
    let p = drain_with-Progress (record s { changed = false }) _ refl k in
    record { same_events = p.same_events; still_ended = p.still_ended; advances = p.advances }
resume_at-Progress yielded s h k = drain_with-Progress s _ refl k
resume_at-Progress waiting s h k = absurd (cc (h.1, k))
resume_at-Progress returned s h k = record {
  same_events = refl;
  still_ended = k;
  advances = λ n b. omega (arith, h.0);
}

-- Where every event has been received, a round ends the iterator.
drain_with-ends :
    (s : Subscription) (next : Option AgentEvent)
    → get_elem? s.events s.index ≡ next
    → s.finalized ≡ true
    → length s.events ≤ s.index
    → (drain_with next s).phase ≡ returned
drain_with-ends s (some event) h k l =
    absurd (omega (arith, get_elem?-some s.index s.events event h, l))
drain_with-ends s none h k l = rw k refl

resume_at-ends :
    (phase : Phase) (s : Subscription)
    → s.phase ≡ phase
    → PhaseHolds phase s
    → s.finalized ≡ true
    → length s.events ≤ s.index
    → (resume_at phase s).phase ≡ returned
unfolding resume_at drain
resume_at-ends ready s e h k l = drain_with-ends (record s { changed = false }) _ refl k l
resume_at-ends yielded s e h k l = drain_with-ends s _ refl k l
resume_at-ends waiting s e h k l = absurd (cc (h.1, k))
resume_at-ends returned s e h k l = e

-- All events were delivered, and the iterator has ended.
abbrev pub HasDelivered : List AgentEvent → Subscription → Type 0
HasDelivered events s = (s.phase ≡ returned) × (s.received ≡ events)

returned-holds :
    (phase : Phase) (s : Subscription)
    → phase ≡ returned
    → PhaseHolds phase s
    → s.index ≡ length s.events
returned-holds ready s e h = absurd (cc)
returned-holds yielded s e h = absurd (cc)
returned-holds waiting s e h = absurd (cc)
returned-holds returned s e h = h.0

take-all {ℓ} : {A : Type ℓ} (xs : List A) → take (length xs) xs ≡ xs
take-all [] = refl
take-all (x ∷ xs) = ap (λ t. x ∷ t) (take-all xs)

IsCurrent-returned : (s : Subscription) → IsCurrent s → s.phase ≡ returned → s.received ≡ s.events
IsCurrent-returned s c h =
    c.prefix
    ∙ (ap (λ (n : ℕ). take n s.events) (returned-holds s.phase s h c.phase_holds)
        ∙ take-all s.events)

resume_times-delivers :
    (n : ℕ) (s : Subscription)
    → IsCurrent s
    → s.finalized ≡ true
    → length s.events ≤ n + s.index
    → HasDelivered s.events (resume_times (suc n) s)
unfolding resume_times resume
resume_times-delivers zero s c h k =
    let ended = resume_at-ends s.phase s refl c.phase_holds h (omega (arith, k)) in
    let p = resume_at-Progress s.phase s c.phase_holds h in
    (
      ended,
      IsCurrent-returned (resume s) (resume_at-IsCurrent s.phase s refl c) ended ∙ p.same_events,
    )
resume_times-delivers (suc n) s c h k =
    let p = resume_at-Progress s.phase s c.phase_holds h in
    let later =
      resume_times-delivers n (resume s) (resume_at-IsCurrent s.phase s refl c) p.still_ended
        (p.advances n k) in
    (later.0, later.1 ∙ p.same_events)

-- Whatever order a run, a new subscriber and the other subscribers have gone on in: once the run has
-- ended, the subscriber reaches its end within as many rounds as there are events left, and one more,
-- and it has then received every event of the log once, in order, the terminal event included.
pub subscribed-delivers :
    (events : List AgentEvent) (finalized changed : Bool) (s : Subscription)
    → Steps (subscribed events finalized changed) s
    → s.finalized ≡ true
    → HasDelivered s.events (resume_times (suc (length s.events - s.index)) s)
subscribed-delivers events finalized changed s steps h =
    resume_times-delivers (length s.events - s.index) s
      (Steps-IsCurrent steps (subscribed-IsCurrent events finalized changed)) h (omega arith)
