-- ===== src/Runtime/Monad/Logs.antt =====
-- Code that only adds to the log of its run: its history observes exactly the events that it adds,
-- and none of these is an event of the run's own lifecycle.
use tile.Prelude.{
  ◌≡◌, refl, sym, ◌∙◌, ap, Bool, true, false, List, [], ◌∷◌, ◌++◌, append_assoc, append-nil, All,
  All-append, Result, ok, err,
}
use tile.Outcome.{Raised}
use tile.Events.{AgentEvent, run_start, run_end, run_fault}
use tile.Runtime.Monad.{RunState, Code, Stop, pure, stop, call, emit, ◌>>=◌, from_world, continue}
use tile.Runtime.History.{RunHistory, observe}
use tile.Runtime.History.Projection.{observe_all}

abbrev pub is_lifecycle : AgentEvent → Bool
is_lifecycle run_start = true
is_lifecycle (run_end o) = true
is_lifecycle (run_fault t m) = true
is_lifecycle _ = false

abbrev pub AllInner : List AgentEvent → Type 0
AllInner = All (λ e. is_lifecycle e ≡ false)

pub observe_all-append :
    (h : RunHistory) (xs ys : List AgentEvent)
    → observe_all h (xs ++ ys) ≡ observe_all (observe_all h xs) ys
observe_all-append h [] ys = refl
observe_all-append h (e ∷ xs) ys = observe_all-append (observe h e) xs ys

module _ {W : Type 0} where
  -- What came before a state and what came after it.
  pub record Grown (s t : RunState W) : Type 0 where
    pub new : List AgentEvent
    pub events : t.events ≡ s.events ++ new
    pub history : t.history ≡ observe_all s.history new
    pub inner : AllInner new

  pub same-Grown : (s t : RunState W) → t.events ≡ s.events → t.history ≡ s.history → Grown s t
  same-Grown s t e h = record {
    new = [];
    events = e ∙ sym (append-nil s.events);
    history = h;
    inner = tt;
  }

  pub trans-Grown : (s t u : RunState W) → Grown s t → Grown t u → Grown s u
  trans-Grown s t u first second = record {
    new = first.new ++ second.new;
    events =
        second.events
        ∙ ap (λ l. l ++ second.new) first.events
        ∙ append_assoc s.events first.new second.new;
    history =
        second.history
        ∙ ap (λ h. observe_all h second.new) first.history
        ∙ sym (observe_all-append s.history first.new second.new);
    inner = All-append _ first.new second.new first.inner second.inner;
  }

  pub record Grows {A : Type 0} (m : Code W A) : Type 0 where
    pub grown : (s : RunState W) → Grown s (m s).1

module _ {W A : Type 0} where
  pub pure-Grows : (a : A) → Grows {W = W} (pure a)
  unfolding pure
  pure-Grows a = record { grown = λ s. same-Grown s s refl refl }

  pub stop-Grows : (e : Stop) → Grows {W = W} {A = A} (stop e)
  unfolding stop
  stop-Grows e = record { grown = λ s. same-Grown s s refl refl }

  called :
      (r : Result Raised A × W) (s : RunState W)
      → ((from_world r s).1.events ≡ s.events) × ((from_world r s).1.history ≡ s.history)
  called (ok a, w) s = (refl, refl)
  called (err e, w) s = (refl, refl)

  pub call-Grows : (f : W → Result Raised A × W) → Grows (call f)
  unfolding call
  call-Grows f = record {
    grown = λ s. same-Grown s _ (called (f s.world) s).0 (called (f s.world) s).1;
  }

pub emit-Grows : {W : Type 0} (e : AgentEvent) → is_lifecycle e ≡ false → Grows {W = W} (emit e)
unfolding emit
emit-Grows e i = record {
  grown = λ s. record { new = e ∷ []; events = refl; history = refl; inner = (i, tt) };
}

module _ {W A B : Type 0} where
  continued :
      (s : RunState W) (r : Result Stop A × RunState W) (f : A → Code W B)
      → Grown s r.1
      → ((a : A) → Grows (f a))
      → Grown s (continue r f).1
  continued s (ok a, t) f first next = trans-Grown s t _ first ((next a).grown t)
  continued s (err e, t) f first next = first

  pub bind-Grows :
      (m : Code W A) (f : A → Code W B) → Grows m → ((a : A) → Grows (f a)) → Grows (m >>= f)
  unfolding ◌>>=◌
  bind-Grows m f first next = record { grown = λ s. continued s (m s) f (first.grown s) next }
