-- ===== src/Runtime/Monad/Budget.antt =====
-- Code that runs within a budget of its world.
use tile.Prelude.{◌<◌, ap, ℕ, ◌≤◌, ◌≡◌, ◌≢◌, refl, Result, ok, err, arith}
use tile.Outcome.{Raised}
use tile.Events.{AgentEvent}
use tile.Runtime.Monad.{
  RunState, Stop, raised, Code, exhausted, emit, pure, stop, call, continue, from_world, ◌>>=◌,
}

module _ {W : Type 0} (budget : W → ℕ) where
  -- Code that earns nothing and does not use up its fuel.
  pub record Calm {A : Type 0} (m : Code W A) : Type 0 where
    pub spent : (s : RunState W) → budget (m s).1.world ≤ budget s.world
    pub ended : (s : RunState W) → (m s).0 ≢ err exhausted

  module _ {A : Type 0} where
    pub pure-Calm : (a : A) → Calm (pure a)
    unfolding pure
    pure-Calm a = record { spent = λ s. ground arith; ended = λ s h. absurd (cc) }

    pub stop-Calm : (e : Raised) → Calm {A = A} (stop (raised e))
    unfolding stop
    stop-Calm e = record { spent = λ s. ground arith; ended = λ s h. absurd (cc) }

    called-world : (r : Result Raised A × W) (s : RunState W) → (from_world r s).1.world ≡ r.1
    called-world (ok a, w) s = refl
    called-world (err e, w) s = refl

    called-ended : (r : Result Raised A × W) (s : RunState W) → (from_world r s).0 ≢ err exhausted
    called-ended (ok a, w) s h = absurd (cc)
    called-ended (err e, w) s h = absurd (cc)

    pub call-Calm :
        (f : W → Result Raised A × W) → ((w : W) → budget (f w).1 ≤ budget w) → Calm (call f)
    unfolding call
    call-Calm f h = record {
      spent = λ s. rw (called-world (f s.world) s) (h s.world);
      ended = λ s. called-ended (f s.world) s;
    }

  pub emit-Calm : (e : AgentEvent) → Calm (emit e)
  unfolding emit
  emit-Calm e = record { spent = λ s. ground arith; ended = λ s h. absurd (cc) }

  module _ {A B : Type 0} where
    continued-spent :
        (s : RunState W) (r : Result Stop A × RunState W) (f : A → Code W B)
        → budget r.1.world ≤ budget s.world
        → ((a : A) → Calm (f a))
        → budget (continue r f).1.world ≤ budget s.world
    continued-spent s (ok a, t) f h next = let later = (next a).spent t in ground (arith, h, later)
    continued-spent s (err e, t) f h next = h

    pub continue-ended :
        (r : Result Stop A × RunState W) (f : A → Code W B)
        → r.0 ≢ err exhausted
        → ((a : A) (t : RunState W) → r ≡ (ok a, t) → (f a t).0 ≢ err exhausted)
        → (continue r f).0 ≢ err exhausted
    continue-ended (ok a, t) f h next x = absurd (next a t refl x)
    continue-ended (err e, t) f h next x = absurd (h (cc))

    pub bind-Calm :
        (m : Code W A) (f : A → Code W B) → Calm m → ((a : A) → Calm (f a)) → Calm (m >>= f)
    unfolding ◌>>=◌
    bind-Calm m f first next = record {
      spent = λ s. continued-spent s (m s) f (first.spent s) next;
      ended = λ s. continue-ended (m s) f (first.ended s) (λ a t e. (next a).ended t);
    }

  -- Code that runs to its end where the budget is below the fuel, and earns nothing.
  pub record Enough {A : Type 0} (fuel : ℕ) (m : Code W A) : Type 0 where
    pub spends : (s : RunState W) → budget (m s).1.world ≤ budget s.world
    pub ends : (s : RunState W) → budget s.world < fuel → (m s).0 ≢ err exhausted

  pub Calm-Enough : {A : Type 0} (fuel : ℕ) (m : Code W A) → Calm m → Enough fuel m
  Calm-Enough fuel m c = record { spends = c.spent; ends = λ s h. c.ended s }

  module _ {A B : Type 0} where
    pub continue-spends :
        (s : RunState W) (r : Result Stop A × RunState W) (f : A → Code W B)
        → budget r.1.world ≤ budget s.world
        → ((a : A) (t : RunState W) → r ≡ (ok a, t) → budget (f a t).1.world ≤ budget t.world)
        → budget (continue r f).1.world ≤ budget s.world
    continue-spends s (ok a, t) f h next = let later = next a t refl in ground (arith, h, later)
    continue-spends s (err e, t) f h next = h

    pub bind-Enough :
        (fuel : ℕ) (m : Code W A) (f : A → Code W B)
        → Enough fuel m
        → ((a : A) (s t : RunState W) → m s ≡ (ok a, t) → Enough fuel (f a))
        → Enough fuel (m >>= f)
    unfolding ◌>>=◌
    bind-Enough fuel m f first next = record {
      spends = λ s. continue-spends s (m s) f (first.spends s) (λ a t e. (next a s t e).spends t);
      ends = λ s h. continue-ended (m s) f (first.ends s h) λ a t e.
          let kept = first.spends s in
          let same = ap (λ r. budget r.1.world) e in
          (next a s t e).ends t (ground (arith, kept, same, h));
    }
