-- ===== src/Runtime/Monad.antt =====
-- Runtime code: it emits events into the log of its run, calls the provider and the tools, which
-- change the world, and may raise. `exhausted` stops a loop of the model that used up its fuel.
pub mod Logs
pub mod Returns
pub mod Budget
use tile.Prelude.{List, [], ◌∷◌, ◌++◌, Result, ok, err}
use tile.Outcome.{Raised}
use tile.Events.{AgentEvent}
use tile.Runtime.History.{RunHistory, observe}

pub data Stop : Type 0 where
  raised : Raised → Stop
  exhausted : Stop

-- `events` and `history` belong to the run; `world` is all that the provider and the tools see.
pub record RunState (W : Type 0) : Type 0 where
  pub events : List AgentEvent
  pub history : RunHistory
  pub world : W

abbrev pub Code : Type 0 → Type 0 → Type 0
Code W A = RunState W → Result Stop A × RunState W

module _ {W A : Type 0} where
  unfoldable pub pure : A → Code W A
  pure a s = (ok a, s)

  unfoldable pub stop : Stop → Code W A
  stop e s = (err e, s)

  abbrev pub from_world : Result Raised A × W → RunState W → Result Stop A × RunState W
  from_world (ok a, w) s = (ok a, record s { world = w })
  from_world (err e, w) s = (err (raised e), record s { world = w })

  -- A call of something outside the run.
  unfoldable pub call : (W → Result Raised A × W) → Code W A
  call f s = from_world (f s.world) s

module _ {W : Type 0} where
  -- `_emit` of tile/runtime/run_execution.py: the history observes the event, and the log gets it.
  unfoldable pub emit : AgentEvent → Code W (Unit {0})
  emit event s =
      (ok tt, record s { history = observe s.history event; events = s.events ++ event ∷ [] })

module _ {W A B : Type 0} where
  abbrev pub continue : Result Stop A × RunState W → (A → Code W B) → Result Stop B × RunState W
  continue (ok a, s) f = f a s
  continue (err e, s) f = (err e, s)

  infixl 10 ◌>>=◌ ◌>>◌
  unfoldable pub ◌>>=◌ : Code W A → (A → Code W B) → Code W B
  ◌>>=◌ m f s = continue (m s) f

  abbrev pub ◌>>◌ : Code W A → Code W B → Code W B
  m >> n = m >>= λ _. n
