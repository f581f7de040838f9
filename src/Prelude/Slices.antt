-- ===== src/Prelude/Slices.antt =====
-- Slices of lists: `take` and `drop` of parts that were put together.
use Prim.Native.Nat.{◌<◌, ℕ, zero, suc, ◌-◌, ◌≤◌}
use mathlib.Core.Path.{◌∙◌, ◌≡◌, refl, ap}
use mathlib.Core.List.{List, [], ◌∷◌, ◌++◌}
use native.Mathlib.Omega.{arith}
use mathlib.Core.Option.{Option, some, none}
use tile.Prelude.Tests.{unwrap_or}
use tile.Prelude.Lists.{length, take, drop, get_elem?}

minus_zero : (b : ℕ) → b - 0 ≡ b
minus_zero b = omega arith

minus_suc : (b a : ℕ) → suc b - suc a ≡ b - a
minus_suc b a = omega arith

module _ {ℓ} {A : Type ℓ} where
  pub take-take_append :
      (a b : ℕ) (xs ys : List A) → a ≤ b → b ≤ length xs → take a (take b xs ++ ys) ≡ take a xs
  take-take_append zero b xs ys h k = refl
  take-take_append (suc a) zero xs ys h k = absurd (omega arith)
  take-take_append (suc a) (suc b) [] ys h k = absurd (omega arith)
  take-take_append (suc a) (suc b) (x ∷ xs) ys h k =
      ap (λ t. x ∷ t) (take-take_append a b xs ys (omega arith) (omega arith))

  pub drop-take_append : (b : ℕ) (xs ys : List A) → b ≤ length xs → drop b (take b xs ++ ys) ≡ ys
  drop-take_append zero xs ys k = refl
  drop-take_append (suc b) [] ys k = absurd (omega arith)
  drop-take_append (suc b) (x ∷ xs) ys k = drop-take_append b xs ys (omega arith)

  take-nil : (n : ℕ) → take {A = A} n [] ≡ []
  take-nil zero = refl
  take-nil (suc n) = refl

  pub take-drop-take :
      (a b : ℕ) (xs : List A) → a ≤ b → take a xs ++ take (b - a) (drop a xs) ≡ take b xs
  take-drop-take zero b xs h = ap (λ n. take n xs) (minus_zero b)
  take-drop-take (suc a) zero xs h = absurd (omega arith)
  take-drop-take (suc a) (suc b) [] h = take-nil (suc b - suc a)
  take-drop-take (suc a) (suc b) (x ∷ xs) h =
      ap (λ n. x ∷ (take a xs ++ take n (drop a xs))) (minus_suc b a)
      ∙ ap (λ t. x ∷ t) (take-drop-take a b xs (omega arith))

  pub take-append_left : (n : ℕ) (xs ys : List A) → n ≤ length xs → take n (xs ++ ys) ≡ take n xs
  take-append_left zero xs ys h = refl
  take-append_left (suc n) [] ys h = absurd (omega arith)
  take-append_left (suc n) (x ∷ xs) ys h = ap (λ t. x ∷ t) (take-append_left n xs ys (omega arith))

  -- The next element extends a prefix.
  pub take-next :
      (n : ℕ) (xs : List A) (x : A)
      → get_elem? xs n ≡ some x
      → take (suc n) xs ≡ take n xs ++ x ∷ []
  take-next n [] x h = absurd (cc)
  take-next zero (y ∷ xs) x h = ap (λ (o : Option A). unwrap_or o x ∷ []) h
  take-next (suc n) (y ∷ xs) x h = ap (λ t. y ∷ t) (take-next n xs x h)

  pub get_elem?-some : (n : ℕ) (xs : List A) (x : A) → get_elem? xs n ≡ some x → n < length xs
  get_elem?-some n [] x h = absurd (cc)
  get_elem?-some zero (y ∷ xs) x h = omega arith
  get_elem?-some (suc n) (y ∷ xs) x h = omega (arith, get_elem?-some n xs x h)

  pub get_elem?-none : (n : ℕ) (xs : List A) → get_elem? xs n ≡ none → length xs ≤ n
  get_elem?-none n [] h = omega arith
  get_elem?-none zero (y ∷ xs) h = absurd (cc)
  get_elem?-none (suc n) (y ∷ xs) h = omega (arith, get_elem?-none n xs h)
