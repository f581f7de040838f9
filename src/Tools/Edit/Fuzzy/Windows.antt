-- ===== src/Tools/Edit/Fuzzy/Windows.antt =====
-- What a window of lines has matched.
use tile.Prelude.{
  ℕ, zero, suc, ◌+◌, ◌-◌, ◌≤◌, ◌<◌, ◌≡◌, refl, sym, ap, subst, ◌∙◌, ◌⊎◌, inl, inr, Bool, true,
  false, not, List, [], ◌∷◌, ◌++◌, map, arith, ◌==◌, if◌then◌else◌, Bool-cases, length, take, drop,
  filter, take-append-drop, length-take, and_true, ==→≡, ==→≢, cons-head, cons-tail,
}
use tile.Tools.Text.{Text}
use tile.Tools.Text.Search.{text_eq_sound, drop-drop}
use tile.Tools.Edit.Fuzzy.{
  line_at, last_window_line_matches, lines_eq, window_head, window_last, window_matches_at,
  range_from, find_window_starts,
}

lines_eq_sound : (lines others : List Text) → lines_eq lines others ≡ true → lines ≡ others
unfolding lines_eq
lines_eq_sound [] [] h = refl
lines_eq_sound [] (other ∷ others) h = absurd (cc)
lines_eq_sound (line ∷ lines) [] h = absurd (cc)
lines_eq_sound (line ∷ lines) (other ∷ others) h =
    let both = and_true _ _ h in
    ap (λ x. x ∷ lines) (text_eq_sound line other (both.0))
    ∙ ap (λ ls. other ∷ ls) (lines_eq_sound lines others (both.1))

pub length-window_head :
    (window : List Text) → 0 < length window → suc (length (window_head window)) ≡ length window
unfolding window_head
length-window_head [] h = absurd (omega arith)
length-window_head (line ∷ []) h = refl
length-window_head (line ∷ next ∷ lines) h =
    ap suc (length-window_head (next ∷ lines) (omega arith))

-- A window of lines, seen through a function on lines, matches the old window.
pub record WindowAt (f : Text → Text) (lines window : List Text) (start : ℕ) : Type 0 where
  pub before : List Text
  pub head : List Text
  pub last : Text
  pub after : List Text
  pub splits : lines ≡ before ++ (head ++ last ∷ after)
  pub start_line : length before ≡ start
  pub same_head : map f head ≡ window_head window
  pub same_last : last_window_line_matches (f last) (window_last window) ≡ true

map-take :
    (f : Text → Text) (n : ℕ) (lines : List Text) → take n (map f lines) ≡ map f (take n lines)
map-take f zero lines = refl
map-take f (suc n) [] = refl
map-take f (suc n) (line ∷ lines) = ap (λ ls. f line ∷ ls) (map-take f n lines)

map-drop :
    (f : Text → Text) (n : ℕ) (lines : List Text) → drop n (map f lines) ≡ map f (drop n lines)
map-drop f zero lines = refl
map-drop f (suc n) [] = refl
map-drop f (suc n) (line ∷ lines) = map-drop f n lines

pub length-map : (f : Text → Text) (lines : List Text) → length (map f lines) ≡ length lines
length-map f [] = refl
length-map f (line ∷ lines) = ap suc (length-map f lines)

-- The lines from an index that is in range.
drop-line_at :
    (lines : List Text) (n : ℕ)
    → n < length lines
    → (after : List Text) × (drop n lines ≡ line_at lines n ∷ after)
unfolding line_at
drop-line_at [] n h = absurd (omega arith)
drop-line_at (line ∷ lines) zero h = (lines, refl)
drop-line_at (line ∷ lines) (suc n) h = drop-line_at lines n (omega arith)

line_at-map :
    (f : Text → Text) (lines : List Text) (n : ℕ)
    → n < length lines
    → line_at (map f lines) n ≡ f (line_at lines n)
unfolding line_at
line_at-map f [] n h = absurd (omega arith)
line_at-map f (line ∷ lines) zero h = refl
line_at-map f (line ∷ lines) (suc n) h = line_at-map f lines n (omega arith)

guard_true : (b c : Bool) → (if not b then false else c) ≡ true → (b ≡ true) × (c ≡ true)
guard_true true c h = (refl, h)
guard_true false c h = absurd (cc)

window_matches_at-parts :
    (lines window : List Text) (start : ℕ)
    → window_matches_at lines window start ≡ true
    → (take (length (window_head window)) (drop start lines) ≡ window_head window)
      × (last_window_line_matches
            (line_at lines (start + length (window_head window)))
            (window_last window)
          ≡ true)
unfolding window_matches_at
window_matches_at-parts lines window start h =
    let parts = guard_true _ _ h in (lines_eq_sound _ _ (parts.0), parts.1)

pub window_matches_at-WindowAt :
    (f : Text → Text) (lines window : List Text) (start : ℕ)
    → 0 < length window
    → start + length window ≤ length lines
    → window_matches_at (map f lines) window start ≡ true
    → WindowAt f lines window start
window_matches_at-WindowAt f lines window start h k m =
    let size = length (window_head window) in
    let parts = window_matches_at-parts (map f lines) window start m in
    let in_range : start + size < length lines = omega (arith, length-window_head window h) in
    let after = drop-line_at lines (start + size) in_range in
    record {
      before = take start lines;
      head = take size (drop start lines);
      last = line_at lines (start + size);
      after = after.0;
      splits =
          sym (take-append-drop start lines)
          ∙ ap (λ t. take start lines ++ t)
              (sym (take-append-drop size (drop start lines))
                ∙ ap (λ t. take size (drop start lines) ++ t)
                    (drop-drop start size lines ∙ after.1));
      start_line = omega (arith, length-take start lines);
      same_head =
          sym (map-take f size (drop start lines))
          ∙ (ap (take size) (sym (map-drop f start lines)) ∙ parts.0);
      same_last =
          subst (λ line. last_window_line_matches line (window_last window) ≡ true)
            (line_at-map f lines (start + size) in_range) (parts.1);
    }

module _ (p : ℕ → Bool) where
  range_from-cons :
      (start count : ℕ)
      → ((p start ≡ true)
          × (filter p (range_from start (suc count))
              ≡ start ∷ filter p (range_from (suc start) count)))
        ⊎ ((p start ≡ false)
            × (filter p (range_from start (suc count)) ≡ filter p (range_from (suc start) count)))
  unfolding range_from
  range_from-cons start count = elim (Bool-cases (p start)) [
    | inl e ↦ inl (e, rw e refl)
    | inr e ↦ inr (e, rw e refl)
  ]

  filter-range_none :
      (start count i : ℕ)
      → filter p (range_from start count) ≡ []
      → start ≤ i
      → i < start + count
      → p i ≡ false
  filter-range_none start zero i h k l = absurd (omega arith)
  filter-range_none start (suc count) i h k l = elim (range_from-cons start count) [
    | inl e ↦ absurd (cc (h, e.1))
    | inr e ↦ elim (Bool-cases (start == i)) [
      | inl same ↦ subst (λ n. p n ≡ false) (==→≡ start i same) (e.0)
      | inr other ↦
          filter-range_none (suc start) count i (sym (e.1) ∙ h)
            (omega (arith, ==→≢ start i other, k)) (omega (arith, l))
    ]
  ]

  -- The filter keeps one number of a range.
  OnlyOne : ℕ → ℕ → ℕ → Type 0
  OnlyOne start count found =
      (p found ≡ true)
      × (start ≤ found)
      × (found < start + count)
      × ((i : ℕ) → start ≤ i → i < start + count → p i ≡ true → i ≡ found)

  filter-range_one :
      (start count found : ℕ)
      → filter p (range_from start count) ≡ found ∷ []
      → OnlyOne start count found
  unfolding range_from OnlyOne
  filter-range_one start zero found h = absurd (cc)
  filter-range_one start (suc count) found h = elim (range_from-cons start count) [
    | inl e ↦
        let whole = sym (e.1) ∙ h in
        let same = cons-head whole in
        (
          subst (λ n. p n ≡ true) same (e.0),
          omega (arith, same),
          omega (arith, same),
          λ i k l holds. elim (Bool-cases (start == i)) [
            | inl equal ↦ omega (arith, ==→≡ start i equal, same)
            | inr other ↦ absurd (
                cc (
                  holds,
                  filter-range_none (suc start) count i (cons-tail whole)
                      (omega (arith, ==→≢ start i other, k)) (omega (arith, l)),
                ))
          ],
        )
    | inr e ↦
        let later = filter-range_one (suc start) count found (sym (e.1) ∙ h) in
        (
          later.0,
          omega (arith, later.1),
          omega (arith, later.2),
          λ i k l holds. elim (Bool-cases (start == i)) [
            | inl equal ↦ absurd (cc (holds, e.0, ==→≡ start i equal))
            | inr other ↦ later.3 i (omega (arith, ==→≢ start i other, k)) (omega (arith, l)) holds
          ],
        )
  ]

-- One window matches, and it is the only one.
pub find_window_starts-one :
    (lines window : List Text) (start : ℕ)
    → find_window_starts lines window ≡ start ∷ []
    → (window_matches_at lines window start ≡ true)
      × (start + length window ≤ length lines)
      × ((i : ℕ)
          → i + length window ≤ length lines
          → window_matches_at lines window i ≡ true
          → i ≡ start)
unfolding find_window_starts OnlyOne
find_window_starts-one lines window start h =
    let one =
      filter-range_one (window_matches_at lines window) 0 (length lines + 1 - length window) start
        h in
    (one.0, omega (arith, one.2), λ i k holds. one.3 i (omega arith) (omega (arith, k)) holds)
