-- ===== src/Tools/Edit/Spans/Occurs.antt =====
-- The place where an old text occurs, apart from occurrences that overlap it.
use tile.Prelude.{
  ℕ, suc, ◌+◌, ◌≤◌, ◌<◌, String, ◌≡◌, refl, ap, subst, Option, none, some, List, [], ◌∷◌, arith,
  length, ok, cons-head, cons-tail, ok_inj,
}
use tile.Tools.Text.{Text, find, find_from}
use tile.Tools.Text.Search.{OccursAt, find-FirstAt, find_from-none}
use tile.Tools.Edit.Endings.{normalize_to_lf, replace_crlf, replace_cr}
use tile.Tools.Edit.Spans.{text_starts, find_text_starts, require_unique_match}

-- The part occurs first at the position, and every other occurrence overlaps this one.
pub record OccursFirst (text part : Text) (start : ℕ) : Type 0 where
  pub occurs : OccursAt text part start
  pub only : (i : ℕ) → OccursAt text part i → (start ≤ i) × (i < start + length part)

pub text_starts-nil :
    (fuel : ℕ) (content old_text : Text) (offset : Option ℕ)
    → text_starts (suc fuel) content old_text offset ≡ []
    → offset ≡ none
unfolding text_starts
text_starts-nil fuel content old_text none h = refl
text_starts-nil fuel content old_text (some offset) h = absurd (cc)

pub text_starts-one :
    (fuel : ℕ) (content old_text : Text) (offset : Option ℕ) (start : ℕ)
    → text_starts (suc (suc fuel)) content old_text offset ≡ start ∷ []
    → (offset ≡ some start) × (find_from content old_text (start + length old_text) ≡ none)
unfolding text_starts
text_starts-one fuel content old_text none start h = absurd (cc)
text_starts-one fuel content old_text (some offset) start h =
    let same = cons-head h in
    (
      ap some same,
      subst (λ p. find_from content old_text (p + length old_text) ≡ none) same
          (text_starts-nil fuel content old_text _ (cons-tail h)),
    )

pub find_text_starts-OccursFirst :
    (content old_text : Text) (start : ℕ)
    → 0 < length old_text
    → find_text_starts content old_text ≡ start ∷ []
    → OccursFirst content old_text start
unfolding find_text_starts
find_text_starts-OccursFirst content old_text start h k =
    let found = text_starts-one (length content) content old_text (find content old_text) start k in
    let first_at = find-FirstAt content old_text start (found.0) in
    record {
      occurs = first_at.occurs;
      only = λ i occurs. (
        first_at.first i occurs,
        find_from-none content old_text (start + length old_text) i h (found.1) occurs,
      );
    }

pub require_unique_match-ok :
    (starts : List ℕ) (display_path : String) (edit_index total_edits start : ℕ)
    → require_unique_match starts display_path edit_index total_edits ≡ ok start
    → starts ≡ start ∷ []
unfolding require_unique_match
require_unique_match-ok [] display_path edit_index total_edits start h = absurd (cc)
require_unique_match-ok (first ∷ []) display_path edit_index total_edits start h =
    ap (λ s. s ∷ []) (ok_inj first start h)
require_unique_match-ok (first ∷ next ∷ starts) display_path edit_index total_edits start h =
    absurd (cc)

pub replace_crlf-nonempty : (text : Text) → 0 < length text → 0 < length (replace_crlf text)
unfolding replace_crlf
replace_crlf-nonempty [] h = absurd (omega arith)
replace_crlf-nonempty (c ∷ []) h = omega arith
replace_crlf-nonempty (c ∷ d ∷ text) h = ground arith

pub length-replace_cr : (text : Text) → length (replace_cr text) ≡ length text
unfolding replace_cr
length-replace_cr [] = refl
length-replace_cr (c ∷ text) = ap suc (length-replace_cr text)

pub normalize_to_lf-nonempty : (text : Text) → 0 < length text → 0 < length (normalize_to_lf text)
unfolding normalize_to_lf
normalize_to_lf-nonempty text h =
    omega (arith, length-replace_cr (replace_crlf text), replace_crlf-nonempty text h)
