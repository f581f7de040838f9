-- ===== src/Examples/Subscribers.antt =====
-- A subscriber that reads an event, waits, and is woken by the end of the run.
use tile.Prelude.{suc, ◌-◌, ◌≡◌, refl, true, false, [], ◌∷◌, length}
use tile.Events.{run_start, run_end}
use tile.Outcome.{aborted}
use tile.Runtime.RunExecution.Subscription.{
  Subscription, Steps, here, after, emits, finalizes, clears, resumes, subscribed, resume, publish,
}
use tile.Runtime.RunExecution.Subscription.Delivery.{
  HasDelivered, resume_times, subscribed-delivers,
}

abbrev begun : Subscription
begun = subscribed (run_start ∷ []) false true

-- The subscriber after two rounds: it has the event, and it waits.
abbrev waits : Subscription
waits = resume (resume begun)

abbrev ended : Subscription
ended = record (publish (run_end aborted) waits) { finalized = true }

ended_steps : Steps begun ended
unfolding resume tile.Runtime.RunExecution.Subscription.resume_at
    tile.Runtime.RunExecution.Subscription.drain publish
ended_steps = after resumes (after resumes (after (finalizes (run_end aborted) refl) here))

is_ended : ended.finalized ≡ true
is_ended = refl

subscribed-delivers_example :
    HasDelivered ended.events (resume_times (suc (length ended.events - ended.index)) ended)
subscribed-delivers_example =
    subscribed-delivers (run_start ∷ []) false true ended ended_steps is_ended
