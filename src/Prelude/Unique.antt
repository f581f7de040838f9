-- ===== src/Prelude/Unique.antt =====
-- Elements told apart by a key.
use Prim.Native.String.{String}
use Prim.Native.Nat.{ℕ, zero, suc}
use mathlib.Core.Path.{subst, refl, ◌∙◌, ap, ◌≡◌}
use mathlib.Core.Bool.{Bool, true, false}
use mathlib.Core.Logic.{inl, inr}
use mathlib.Core.Option.{some}
use mathlib.Core.List.{List, [], ◌∷◌, map}
use native.Mathlib.Omega.{arith}
use text.Mathlib.TextEquality.{eq_iff}
use tile.Prelude.Tests.{Bool-cases, unwrap_or}
use tile.Prelude.Lists.{All, find_first, get_elem?}
use tile.Prelude.Ids.{holds_id, Distinct}

module _ {ℓ} {A : Type ℓ} (key : A → String) (p : A → Bool) (k : String)
    (keyed : (x : A) → p x ≡ true → key x ≡ k) where
  no_match : (xs : List A) → holds_id (map key xs) k ≡ false → All (λ x. p x ≡ false) xs
  no_match [] h = tt
  no_match (x ∷ xs) h = elim (Bool-cases (p x)) [
    | inl e ↦ absurd (ground (arith, keyed x e, eq_iff (key x) k))
    | inr e ↦ (e, no_match xs (ground (arith, h)))
  ]

  none_left : (x : A) (xs : List A) → All (λ y. p y ≡ false) xs → All (λ y. p y ≡ true → y ≡ x) xs
  none_left x [] h = tt
  none_left x (y ∷ ys) h = ((λ t. absurd (cc (h.0, t))), none_left x ys h.1)

  found_holds :
      (q : A → Bool) (xs : List A) (x : A)
      → find_first q xs ≡ some x
      → key x ≡ k
      → holds_id (map key xs) k ≡ true
  found_holds q [] x h e = absurd (cc)
  found_holds q (y ∷ ys) x h e = elim (Bool-cases (q y)) [
    | inl t ↦
        let same : y ≡ x = ground (arith, h) in rw ((eq_iff (key y) k).1 (ap key same ∙ e)) refl
    | inr f ↦ ground (arith, found_holds q ys x (rw f at h) e)
  ]

  -- Where the keys differ, an element that was found by any test `q` is the only one that passes a
  -- test `p` which fixes its key.
  pub unique_match :
      (q : A → Bool) (xs : List A) (x : A)
      → Distinct (map key xs)
      → find_first q xs ≡ some x
      → key x ≡ k
      → All (λ y. p y ≡ true → y ≡ x) xs
  unique_match q [] x d h e = tt
  unique_match q (y ∷ ys) x d h e = elim (Bool-cases (q y)) [
    | inl t ↦
        let same : y ≡ x = ground (arith, h) in
        (λ _. same, none_left x ys (no_match ys (rw (ap key same ∙ e) at d.0)))
    | inr f ↦
        let later : find_first q ys ≡ some x = rw f at h in
        (
          λ t. absurd (ground (arith, d.0, found_holds q ys x later e, keyed y t)),
          unique_match q ys x d.1 later e,
        )
  ]

module _ {ℓ κ} {A B : Type ℓ} where
  pub All-map :
      (P : A → Type κ) (Q : B → Type κ) (f : A → B) (xs : List A)
      → ((x : A) → P x → Q (f x))
      → All P xs
      → All Q (map f xs)
  All-map P Q f [] g h = tt
  All-map P Q f (x ∷ xs) g h = (g x h.0, All-map P Q f xs g h.1)

module _ {ℓ κ ι} {A : Type ℓ} where
  pub All-zip :
      (P : A → Type κ) (Q : A → Type ι) (xs : List A)
      → All P xs
      → All Q xs
      → All (λ x. P x × Q x) xs
  All-zip P Q [] h k = tt
  All-zip P Q (x ∷ xs) h k = ((h.0, k.0), All-zip P Q xs h.1 k.1)

  pub All-weaken :
      (P : A → Type κ) (Q : A → Type ι) (xs : List A) → ((x : A) → P x → Q x) → All P xs → All Q xs
  All-weaken P Q [] g h = tt
  All-weaken P Q (x ∷ xs) g h = (g x h.0, All-weaken P Q xs g h.1)

module _ {ℓ κ} {A : Type ℓ} where
  pub All-get_elem? :
      (P : A → Type κ) (xs : List A) (i : ℕ) (x : A) → All P xs → get_elem? xs i ≡ some x → P x
  All-get_elem? P [] i x h e = absurd (cc)
  All-get_elem? P (y ∷ ys) zero x h e = subst P (ap (λ o. unwrap_or o y) e) h.0
  All-get_elem? P (y ∷ ys) (suc i) x h e = All-get_elem? P ys i x h.1 e
