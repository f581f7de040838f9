-- ===== src/Runtime/Monad/Returns.antt =====
-- What is known of runtime code that returns.
use tile.Prelude.{◌≡◌, refl, sym, ap, Result, ok, err, value_or}
use tile.Outcome.{Raised}
use tile.Events.{AgentEvent}
use tile.Runtime.Monad.{RunState, Code, Stop, pure, call, emit, ◌>>=◌, from_world, continue}
use tile.Runtime.History.{observe}

module _ {W A B : Type 0} where
  continued-ok :
      (r : Result Stop A × RunState W) (f : A → Code W B) {b : B} {t : RunState W}
      → continue r f ≡ (ok b, t)
      → (a : A) × (s : RunState W) × (r ≡ (ok a, s)) × (f a s ≡ (ok b, t))
  continued-ok (ok a, s) f h = (a, s, refl, h)
  continued-ok (err e, s) f h = absurd (cc)

  -- A chain that returns has returned at its first step, and goes on from there.
  pub bind-ok :
      (m : Code W A) (f : A → Code W B) (s : RunState W) {b : B} {t : RunState W}
      → (m >>= f) s ≡ (ok b, t)
      → (a : A) × (s' : RunState W) × (m s ≡ (ok a, s')) × (f a s' ≡ (ok b, t))
  unfolding ◌>>=◌
  bind-ok m f s h = continued-ok (m s) f h

module _ {W A : Type 0} where
  pub pure-ok :
      (a : A) (s : RunState W) {b : A} {t : RunState W} → pure a s ≡ (ok b, t) → (a ≡ b) × (s ≡ t)
  unfolding pure
  pure-ok a s h = (ap (λ r. value_or r.0 a) h, ap (λ r. r.1) h)

  from_world-ok :
      (r : Result Raised A × W) (s : RunState W) {a : A} {t : RunState W}
      → from_world r s ≡ (ok a, t)
      → (r.0 ≡ ok a) × (t.history ≡ s.history)
  from_world-ok (ok b, w) s {a} {t} h =
      (ap (λ r. ok (value_or r.0 b)) h, ap (λ r. r.1.history) (sym h))
  from_world-ok (err e, w) s h = absurd (cc)

  pub call-ok :
      (f : W → Result Raised A × W) (s : RunState W) {a : A} {t : RunState W}
      → call f s ≡ (ok a, t)
      → ((f s.world).0 ≡ ok a) × (t.history ≡ s.history)
  unfolding call
  call-ok f s h = from_world-ok (f s.world) s h

module _ {W A : Type 0} where
  from_world-world :
      (r : Result Raised A × W) (s : RunState W) {a : A} {t : RunState W}
      → from_world r s ≡ (ok a, t)
      → t.world ≡ r.1
  from_world-world (ok b, w) s h = ap (λ r. r.1.world) (sym h)
  from_world-world (err e, w) s h = absurd (cc)

  pub call-world :
      (f : W → Result Raised A × W) (s : RunState W) {a : A} {t : RunState W}
      → call f s ≡ (ok a, t)
      → t.world ≡ (f s.world).1
  unfolding call
  call-world f s h = from_world-world (f s.world) s h

pub emit-ok :
    {W : Type 0} (e : AgentEvent) (s : RunState W) {u : Unit {0}} {t : RunState W}
    → emit e s ≡ (ok u, t)
    → t.history ≡ observe s.history e
unfolding emit
emit-ok e s h = ap (λ r. r.1.history) (sym h)
