-- ===== src/Store/Action.antt =====
-- Code that reads and writes the database and may raise. A raise leaves the writes before it in
-- place, until a transaction rolls them back.
use tile.Prelude.{ap, ◌≡◌, refl, ◌∙◌, String, Result, ok, err, value_or}
use tile.Outcome.{StoreError, persistence}

-- `integrity` is `sqlite3.IntegrityError`.
pub data Failure : Type 0 where
  domain : StoreError → Failure
  integrity : Failure

abbrev pub Action {ℓ κ} : Type ℓ → Type κ → Type (ℓ ⊔ κ)
Action S A = S → Result Failure A × S

module _ {ℓ κ} {S : Type ℓ} {A : Type κ} where
  abbrev pub pure : A → Action S A
  pure a s = (ok a, s)

  abbrev pub raise : Failure → Action S A
  raise e s = (err e, s)

  -- `immediate_transaction` of tile/_sqlite.py: BEGIN, then COMMIT, or ROLLBACK on any exception.
  abbrev settle : S → Result Failure A × S → Result Failure A × S
  settle before (ok a, after) = (ok a, after)
  settle before (err e, after) = (err e, before)

  unfoldable pub immediate_transaction : Action S A → Action S A
  immediate_transaction block s = settle s (block s)

  -- `_translate_store_errors` of tile/store/sqlite.py.
  abbrev translated : String → Result Failure A × S → Result StoreError A × S
  translated operation (ok a, s) = (ok a, s)
  translated operation (err (domain e), s) = (err e, s)
  translated operation (err integrity, s) = (err (persistence operation "IntegrityError"), s)

  unfoldable pub translate_store_errors : String → Action S A → S → Result StoreError A × S
  translate_store_errors operation block s = translated operation (block s)

module _ {ℓ κ ι} {S : Type ℓ} {A : Type κ} {B : Type ι} where
  abbrev pub continue : Result Failure A × S → (A → Action S B) → Result Failure B × S
  continue (ok a, s) f = f a s
  continue (err e, s) f = (err e, s)

  infixl 10 ◌>>=◌ ◌>>◌
  abbrev pub ◌>>=◌ : Action S A → (A → Action S B) → Action S B
  ◌>>=◌ m f s = continue (m s) f

  abbrev pub ◌>>◌ : Action S A → Action S B → Action S B
  m >> n = m >>= λ _. n

  -- A chain that returns has returned at its first step, and goes on from there.
  pub continue-ok :
      (r : Result Failure A × S) (f : A → Action S B) {b : B} {after : S}
      → continue r f ≡ (ok b, after)
      → (a : A) × (s : S) × (r ≡ (ok a, s)) × (f a s ≡ (ok b, after))
  continue-ok (ok a, s) f h = (a, s, refl, h)
  continue-ok (err e, s) f h = absurd (cc)

module _ {ℓ κ} {S : Type ℓ} {A : Type κ} where
  pub returned :
      {a b : A} {s t : S} → ◌≡◌ {A = Result Failure A × S} (ok a, s) (ok b, t) → (a ≡ b) × (s ≡ t)
  returned {a} h = (ap (λ r. value_or r.0 a) h, ap (λ r. r.1) h)

  pub settle-ok :
      (before : S) (r : Result Failure A × S) {a : A} {after : S}
      → settle before r ≡ (ok a, after)
      → r ≡ (ok a, after)
  settle-ok before (ok a, s) h = h
  settle-ok before (err e, s) h = absurd (cc)

  pub translated-ok :
      (operation : String) (r : Result Failure A × S) {a : A} {after : S}
      → translated operation r ≡ (ok a, after)
      → r ≡ (ok a, after)
  translated-ok operation (ok a, s) h = cc
  translated-ok operation (err (domain e), s) h = absurd (cc)
  translated-ok operation (err integrity, s) h = absurd (cc)

  -- An operation that succeeds is its block, run to the end.
  pub operation-ok :
      (operation : String) (block : Action S A) (s : S) {a : A} {after : S}
      → translate_store_errors operation (immediate_transaction block) s ≡ (ok a, after)
      → block s ≡ (ok a, after)
  unfolding translate_store_errors immediate_transaction
  operation-ok operation block s h = settle-ok s (block s) (translated-ok operation _ h)

  pub settle-err :
      (before : S) (r : Result Failure A × S) {e : Failure}
      → (settle before r).0 ≡ err e
      → (settle before r).1 ≡ before
  settle-err before (ok a, s) h = absurd (cc)
  settle-err before (err e, s) h = refl

  pub translated-err :
      (operation : String) (r : Result Failure A × S) {e : StoreError}
      → (translated operation r).0 ≡ err e
      → ((f : Failure) × (r.0 ≡ err f)) × ((translated operation r).1 ≡ r.1)
  translated-err operation (ok a, s) h = absurd (cc)
  translated-err operation (err (domain e), s) h = ((domain e, refl), refl)
  translated-err operation (err integrity, s) h = ((integrity, refl), refl)

  -- An operation that raises has rolled every write back.
  pub operation-err :
      (operation : String) (block : Action S A) (s : S) {e : StoreError}
      → (translate_store_errors operation (immediate_transaction block) s).0 ≡ err e
      → (translate_store_errors operation (immediate_transaction block) s).1 ≡ s
  unfolding translate_store_errors immediate_transaction
  operation-err operation block s h =
      let ((f, failed), kept) = translated-err operation (settle s (block s)) h in
      kept ∙ settle-err s (block s) failed
