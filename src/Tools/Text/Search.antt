-- ===== src/Tools/Text/Search.antt =====
-- Where `find` finds a part of a text.
use mathlib.Core.Option
use tile.Prelude.{
  ℕ, zero, suc, ◌+◌, ◌-◌, ◌≤◌, ◌<◌, ◌≡◌, refl, sym, ap, subst, ◌∙◌, ◌⊎◌, inl, inr, true, false,
  Option, none, some, List, [], ◌∷◌, arith, ltb, leb, Bool-cases, ltb-false, ltb→lt, le→leb, length,
  take, drop, length-take, length-drop, and_true, ==_true, ==→≡, cons-head, cons-tail, unwrap_or,
}
use tile.Tools.Text.{text_eq, Text, starts_with, find, find_from}

-- `text[i:i + len(part)] == part`
abbrev pub OccursAt : Text → Text → ℕ → Type 0
OccursAt text part i = take (length part) (drop i text) ≡ part

pub starts_with-OccursAt : (text part : Text) → starts_with text part ≡ true → OccursAt text part 0
unfolding starts_with
starts_with-OccursAt text [] h = refl
starts_with-OccursAt [] (p ∷ part) h = absurd (cc)
starts_with-OccursAt (c ∷ text) (p ∷ part) h =
    let both = and_true _ _ h in
    ap (λ t. c ∷ t) (starts_with-OccursAt text part (both.1))
    ∙ ap (λ d. d ∷ part) (==→≡ c p (both.0))

OccursAt-starts_with : (text part : Text) → OccursAt text part 0 → starts_with text part ≡ true
unfolding starts_with
OccursAt-starts_with text [] h = refl
OccursAt-starts_with [] (p ∷ part) h = absurd (cc)
OccursAt-starts_with (c ∷ text) (p ∷ part) h =
    rw (==_true c p (cons-head h)) (OccursAt-starts_with text part (cons-tail h))

starts_with-false : (text part : Text) → starts_with text part ≡ false → ¬ OccursAt text part 0
starts_with-false text part h k = absurd (cc (OccursAt-starts_with text part k, h))

OccursAt-nil : (part : Text) (i : ℕ) → 0 < length part → ¬ OccursAt [] part i
OccursAt-nil [] i h k = absurd (omega arith)
OccursAt-nil (p ∷ part) zero h k = absurd (cc)
OccursAt-nil (p ∷ part) (suc i) h k = absurd (cc)

-- `find` finds the first place where the part occurs.
pub record FirstAt (text part : Text) (i : ℕ) : Type 0 where
  pub occurs : OccursAt text part i
  pub first : (j : ℕ) → OccursAt text part j → i ≤ j

FirstAt-cons :
    (c : ℕ) (text part : Text) (i : ℕ)
    → starts_with (c ∷ text) part ≡ false
    → FirstAt text part i
    → FirstAt (c ∷ text) part (suc i)
FirstAt-cons c text part i h f = record { occurs = f.occurs; first = λ j occurs. first_at j occurs }
  where
    first_at : (j : ℕ) → OccursAt (c ∷ text) part j → suc i ≤ j
    first_at zero occurs = absurd (starts_with-false (c ∷ text) part h occurs)
    first_at (suc j) occurs = omega (arith, f.first j occurs)

find-cons :
    (c : ℕ) (text part : Text)
    → ((starts_with (c ∷ text) part ≡ true) × (find (c ∷ text) part ≡ some 0))
      ⊎ ((starts_with (c ∷ text) part ≡ false)
          × (find (c ∷ text) part ≡ Option.map suc (find text part)))
unfolding find
find-cons c text part = elim (Bool-cases (starts_with (c ∷ text) part)) [
  | inl h ↦ inl (h, rw h refl)
  | inr h ↦ inr (h, rw h refl)
]

find-nil :
    (part : Text) → ((starts_with [] part ≡ true) × (find [] part ≡ some 0)) ⊎ (find [] part ≡ none)
unfolding find
find-nil part = elim (Bool-cases (starts_with [] part)) [
  | inl h ↦ inl (h, rw h refl)
  | inr h ↦ inr (rw h refl)
]

map-some :
    {A B : Type 0} (f : A → B) (o : Option A) (b : B)
    → Option.map f o ≡ some b
    → (a : A) × (o ≡ some a) × (f a ≡ b)
map-some f none b h = absurd (cc)
map-some f (some a) b h = (a, refl, ap (λ o. unwrap_or o b) h)

map-none : {A B : Type 0} (f : A → B) (o : Option A) → Option.map f o ≡ none → o ≡ none
map-none f none h = refl
map-none f (some a) h = absurd (cc)

some_inj : {A : Type 0} (a b : A) → some a ≡ some b → a ≡ b
some_inj a b h = ap (λ o. unwrap_or o b) h

FirstAt-start : (text part : Text) → starts_with text part ≡ true → FirstAt text part 0
FirstAt-start text part h = record {
  occurs = starts_with-OccursAt text part h;
  first = λ j occurs. omega arith;
}

pub find-FirstAt : (text part : Text) (i : ℕ) → find text part ≡ some i → FirstAt text part i
find-FirstAt [] part i h = elim (find-nil part) [
  | inl found ↦
      subst (FirstAt [] part) (some_inj 0 i (sym (found.1) ∙ h)) (FirstAt-start [] part (found.0))
  | inr lost ↦ absurd (cc (h, lost))
]
find-FirstAt (c ∷ text) part i h = elim (find-cons c text part) [
  | inl found ↦
      subst (FirstAt (c ∷ text) part) (some_inj 0 i (sym (found.1) ∙ h))
        (FirstAt-start (c ∷ text) part (found.0))
  | inr later ↦
      let found = map-some suc (find text part) i (sym (later.1) ∙ h) in
      subst (FirstAt (c ∷ text) part) (found.2)
        (FirstAt-cons c text part (found.0) (later.0) (find-FirstAt text part (found.0) (found.1)))
]

pub find-none :
    (text part : Text) (j : ℕ) → 0 < length part → find text part ≡ none → ¬ OccursAt text part j
find-none [] part j k h = OccursAt-nil part j k
find-none (c ∷ text) part zero k h = elim (find-cons c text part) [
  | inl found ↦ absurd (cc (h, found.1))
  | inr later ↦ starts_with-false (c ∷ text) part (later.0)
]
find-none (c ∷ text) part (suc j) k h = elim (find-cons c text part) [
  | inl found ↦ absurd (cc (h, found.1))
  | inr later ↦ find-none text part j k (map-none suc (find text part) (sym (later.1) ∙ h))
]

drop-nil {ℓ} : {A : Type ℓ} (n : ℕ) → drop {A = A} n [] ≡ []
drop-nil zero = refl
drop-nil (suc n) = refl

zero_plus : (b : ℕ) → b ≡ 0 + b
zero_plus b = omega arith

plus_minus : (a b : ℕ) → a ≤ b → b ≡ a + (b - a)
plus_minus a b h = omega arith

suc_plus : (a b : ℕ) → suc (a + b) ≡ suc a + b
suc_plus a b = omega arith

pub drop-drop {ℓ} : {A : Type ℓ} (a b : ℕ) (xs : List A) → drop b (drop a xs) ≡ drop (a + b) xs
drop-drop zero b xs = ap (λ n. drop n xs) (zero_plus b)
drop-drop (suc a) b [] = drop-nil b ∙ sym (drop-nil (suc a + b))
drop-drop (suc a) b (x ∷ xs) = drop-drop a b xs ∙ ap (λ n. drop n (x ∷ xs)) (suc_plus a b)

-- An occurrence of a part that is not empty lies within the text.
pub OccursAt-bound :
    (text part : Text) (i : ℕ)
    → 0 < length part
    → OccursAt text part i
    → i + length part ≤ length text
OccursAt-bound text part i h k =
    omega (arith, ap length k, length-take (length part) (drop i text), length-drop i text)

find_from-inside :
    (text part : Text) (start : ℕ)
    → leb start (length text) ≡ true
    → find_from text part start ≡ Option.map (λ i. start + i) (find (drop start text) part)
unfolding find_from
find_from-inside text part start h = rw h refl

find_from-outside :
    (text part : Text) (start : ℕ)
    → leb start (length text) ≡ false
    → find_from text part start ≡ none
unfolding find_from
find_from-outside text part start h = rw h refl

-- Where `find` from a position finds nothing, the part does not occur there or later.
pub find_from-none :
    (text part : Text) (start i : ℕ)
    → 0 < length part
    → find_from text part start ≡ none
    → OccursAt text part i
    → i < start
unfolding find_from
find_from-none text part start i h k occurs = elim (Bool-cases (ltb i start)) [
  | inl before ↦ ltb→lt i start before
  | inr after ↦
      let start_first = ltb-false i start after in
      let within =
        le→leb start (length text) (omega (arith, OccursAt-bound text part i h occurs)) in
      absurd (
        find-none (drop start text) part (i - start) h
          (map-none (λ i. start + i) (find (drop start text) part)
            (sym (find_from-inside text part start within) ∙ k))
          (subst (λ n. take (length part) n ≡ part)
            (ap (λ n. drop n text) (plus_minus start i start_first)
              ∙ sym (drop-drop start (i - start) text))
            occurs))
]

pub text_eq-true : (text other : Text) → text ≡ other → text_eq text other ≡ true
unfolding text_eq
text_eq-true [] [] h = refl
text_eq-true [] (d ∷ other) h = absurd (cc)
text_eq-true (c ∷ text) [] h = absurd (cc)
text_eq-true (c ∷ text) (d ∷ other) h =
    rw (==_true c d (cons-head h)) (text_eq-true text other (cons-tail h))

pub text_eq_sound : (text other : Text) → text_eq text other ≡ true → text ≡ other
unfolding text_eq
text_eq_sound [] [] h = refl
text_eq_sound [] (d ∷ other) h = absurd (cc)
text_eq_sound (c ∷ text) [] h = absurd (cc)
text_eq_sound (c ∷ text) (d ∷ other) h =
    let both = and_true _ _ h in
    ap (λ x. x ∷ text) (==→≡ c d (both.0)) ∙ ap (λ t. d ∷ t) (text_eq_sound text other (both.1))

-- Where `find` from a position finds a part, the part occurs there, at that position or later.
pub find_from-some :
    (text part : Text) (start i : ℕ)
    → find_from text part start ≡ some i
    → (start ≤ i) × OccursAt text part i
find_from-some text part start i h = elim (Bool-cases (leb start (length text))) [
  | inl within ↦
      let found =
        map-some (λ i. start + i) (find (drop start text) part) i
          (sym (find_from-inside text part start within) ∙ h) in
      let first_at = find-FirstAt (drop start text) part (found.0) (found.1) in
      (
        omega (arith, found.2),
        subst (λ n. take (length part) n ≡ part)
            (drop-drop start (found.0) text ∙ ap (λ (n : ℕ). drop n text) (found.2))
            first_at.occurs,
      )
  | inr outside ↦ absurd (cc (h, find_from-outside text part start outside))
]
