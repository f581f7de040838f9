-- ===== src/Tools/Edit/Spans/Fuel.antt =====
-- The fuel of the loop that finds the starts of an old text.
use tile.Prelude.{
  ℕ, zero, suc, ◌+◌, ◌≤◌, ◌<◌, ◌≡◌, refl, ap, Option, none, some, List, ◌∷◌, arith, length,
}
use tile.Tools.Text.{Text, find, find_from}
use tile.Tools.Text.Search.{OccursAt-bound, find-FirstAt, find_from-some}
use tile.Tools.Edit.Spans.{text_starts, find_text_starts}

-- Fuel that is enough from an offset on: each round moves the offset over an occurrence.
abbrev IsEnough : ℕ → Text → Text → Option ℕ → Type 0
IsEnough fuel content old_text none = 0 < fuel
IsEnough fuel content old_text (some offset) =
    (offset + length old_text ≤ length content) × (length content < fuel + offset)

next-IsEnough :
    (fuel : ℕ) (content old_text : Text) (offset : ℕ) (next : Option ℕ)
    → 0 < length old_text
    → IsEnough (suc fuel) content old_text (some offset)
    → find_from content old_text (offset + length old_text) ≡ next
    → IsEnough fuel content old_text next
next-IsEnough fuel content old_text offset none h k e = omega (arith, h, k.0, k.1)
next-IsEnough fuel content old_text offset (some next) h k e =
    let found = find_from-some content old_text (offset + length old_text) next e in
    (OccursAt-bound content old_text next h (found.1), omega (arith, h, k.1, found.0))

text_starts-enough :
    (fuel more : ℕ) (content old_text : Text) (offset : Option ℕ)
    → 0 < length old_text
    → fuel ≤ more
    → IsEnough fuel content old_text offset
    → text_starts more content old_text offset ≡ text_starts fuel content old_text offset
unfolding text_starts
text_starts-enough zero more content old_text none h l k = absurd (omega arith)
text_starts-enough zero more content old_text (some offset) h l k = absurd (omega (arith, k.0, k.1))
text_starts-enough (suc fuel) zero content old_text offset h l k = absurd (omega arith)
text_starts-enough (suc fuel) (suc more) content old_text none h l k = refl
text_starts-enough (suc fuel) (suc more) content old_text (some offset) h l k =
    ap (λ (starts : List ℕ). offset ∷ starts)
      (text_starts-enough fuel more content old_text _ h (omega arith)
        (next-IsEnough fuel content old_text offset _ h k refl))

find-IsEnough :
    (content old_text : Text) (found : Option ℕ)
    → 0 < length old_text
    → find content old_text ≡ found
    → IsEnough (suc (suc (length content))) content old_text found
find-IsEnough content old_text none h e = omega arith
find-IsEnough content old_text (some offset) h e = (
  OccursAt-bound content old_text offset h (find-FirstAt content old_text offset e).occurs,
  omega arith,
)

-- The loop of `_find_text_starts` ends for an old text that is not empty: the fuel that the model gives it
-- is two rounds more than the content has characters, and with any more it returns the same starts.
pub find_text_starts-enough :
    (more : ℕ) (content old_text : Text)
    → 0 < length old_text
    → length content + 2 ≤ more
    → text_starts more content old_text (find content old_text) ≡ find_text_starts content old_text
unfolding find_text_starts
find_text_starts-enough more content old_text h l =
    text_starts-enough (suc (suc (length content))) more content old_text (find content old_text) h
      (omega arith) (find-IsEnough content old_text _ h refl)
