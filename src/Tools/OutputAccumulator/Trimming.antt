-- ===== src/Tools/OutputAccumulator/Trimming.antt =====
-- The lines and the retained end of a text's bytes, and how a new part changes them.
use tile.Prelude.{
  ℕ, zero, suc, ◌+◌, ◌-◌, ◌≤◌, ◌<◌, ◌≡◌, refl, sym, ap, ◌∙◌, inl, inr, Bool, true, List, [], ◌∷◌,
  ◌++◌, arith, leb, ◌==◌, if◌then◌else◌, Bool-cases, leb→le, length, get_elem?, drop, length-drop,
  ==_false, ==→≡, ==→≢, unwrap_or,
}
use tile.Tools.Text.{Text}
use tile.Tools.OutputAccumulator.{
  count_newlines, continuation_bytes, utf8_boundary_at_or_after, trim_start,
  starts_at_line_boundary,
}

-- The lines of an output: none before any text, and then one more than its newlines.
abbrev pub lines_total : Text → ℕ
lines_total [] = 0
lines_total (c ∷ text) = suc (count_newlines (c ∷ text))

-- Some bytes without their first ones begin at a line of the whole.
abbrev pub begins_line : List ℕ → ℕ → Bool
begins_line whole dropped =
    if dropped == 0 then true else unwrap_or (get_elem? whole (dropped - 1)) 0 == 0x0a

pub continuation_bytes-le : (content : List ℕ) → continuation_bytes content ≤ length content
unfolding continuation_bytes
continuation_bytes-le [] = omega arith
continuation_bytes-le (byte ∷ content) = ground (arith, continuation_bytes-le content)

pub trim_start-le : (content : List ℕ) (limit : ℕ) → trim_start content limit ≤ length content
unfolding trim_start utf8_boundary_at_or_after
trim_start-le content limit = elim (Bool-cases (leb (length content) limit)) [
  | inl e ↦ rw e (omega arith)
  | inr e ↦ rw e (
      omega (
        arith,
        continuation_bytes-le (drop (length content - limit) content),
        length-drop (length content - limit) content,
      ))
]

pub trim_start-bound :
    (content : List ℕ) (limit : ℕ) → length (drop (trim_start content limit) content) ≤ limit
unfolding trim_start utf8_boundary_at_or_after
trim_start-bound content limit = elim (Bool-cases (leb (length content) limit)) [
  | inl e ↦ rw e (leb→le (length content) limit e)
  | inr e ↦ rw e (
      omega (
        arith,
        length-drop
            ((length content - limit) + continuation_bytes (drop (length content - limit) content))
            content,
      ))
]

pub drop-append_le {ℓ} :
    {A : Type ℓ} (n : ℕ) (xs ys : List A) → n ≤ length xs → drop n xs ++ ys ≡ drop n (xs ++ ys)
drop-append_le zero xs ys h = refl
drop-append_le (suc n) [] ys h = absurd (omega arith)
drop-append_le (suc n) (x ∷ xs) ys h = drop-append_le n xs ys (omega arith)

pub get_elem?-append_left {ℓ} :
    {A : Type ℓ} (i : ℕ) (xs ys : List A) → i < length xs → get_elem? (xs ++ ys) i ≡ get_elem? xs i
get_elem?-append_left i [] ys h = absurd (omega arith)
get_elem?-append_left zero (x ∷ xs) ys h = refl
get_elem?-append_left (suc i) (x ∷ xs) ys h = get_elem?-append_left i xs ys (omega arith)

pub zero_plus : (n : ℕ) → n ≡ 0 + n
zero_plus n = omega arith

pub suc_plus : (a b : ℕ) → suc (a + b) ≡ suc a + b
suc_plus a b = omega arith

pub get_elem?-drop {ℓ} :
    {A : Type ℓ} (n i : ℕ) (xs : List A) → get_elem? (drop n xs) i ≡ get_elem? xs (n + i)
get_elem?-drop zero i xs = ap (get_elem? xs) (zero_plus i)
get_elem?-drop (suc n) i [] = refl
get_elem?-drop (suc n) i (x ∷ xs) = get_elem?-drop n i xs ∙ ap (get_elem? (x ∷ xs)) (suc_plus n i)

pub count_newlines-append :
    (s t : Text) → count_newlines (s ++ t) ≡ count_newlines s + count_newlines t
unfolding count_newlines
count_newlines-append [] t = omega arith
count_newlines-append (c ∷ s) t = ground (arith, count_newlines-append s t)

pub begins_line-append :
    (whole more : List ℕ) (dropped : ℕ)
    → dropped ≤ length whole
    → begins_line whole dropped ≡ begins_line (whole ++ more) dropped
begins_line-append whole more dropped h = elim (Bool-cases (dropped == 0)) [
  | inl e ↦ rw e refl
  | inr e ↦ rw e (
      ap (λ o. unwrap_or o 0 == 0x0a)
        (sym (get_elem?-append_left (dropped - 1) whole more (omega (arith, h, ==→≢ dropped 0 e)))))
]

pub starts_at_line_boundary_lem :
    (whole : List ℕ) (dropped start : ℕ) (previous : Bool)
    → previous ≡ begins_line whole dropped
    → starts_at_line_boundary (drop dropped whole) start previous
      ≡ begins_line whole (dropped + start)
unfolding starts_at_line_boundary
starts_at_line_boundary_lem whole dropped start previous h = elim (Bool-cases (start == 0)) [
  | inl e ↦ rw e (h ∙ ap (begins_line whole) (omega (arith, ==→≡ start 0 e)))
  | inr e ↦
      rw (e, ==_false (dropped + start) 0 (λ same. ==→≢ start 0 e (omega (arith, same))))
        (ap (λ o. unwrap_or o 0 == 0x0a)
          (get_elem?-drop dropped (start - 1) whole
            ∙ ap (get_elem? whole) (omega (arith, ==→≢ start 0 e))))
]

pub lines_total-append :
    (text more : Text)
    → 0 < length more
    → lines_total (text ++ more)
      ≡ (if lines_total text == 0 then 1 else lines_total text) + count_newlines more
lines_total-append [] [] h = absurd (omega arith)
lines_total-append [] (c ∷ more) h = omega arith
lines_total-append (c ∷ text) more h =
    rw (==_false (suc (count_newlines (c ∷ text))) 0 (λ e. absurd (omega (arith, e))))
      (omega (arith, count_newlines-append (c ∷ text) more))
