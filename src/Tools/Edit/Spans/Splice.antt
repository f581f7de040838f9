-- ===== src/Tools/Edit/Spans/Splice.antt =====
-- Replacing spans from the last to the first, and the same text put together from left to right.
use tile.Prelude.{
  ℕ, ◌-◌, ◌≤◌, ◌<◌, String, ◌≡◌, refl, sym, ap, ◌∙◌, inl, inr, true, false, List, [], ◌∷◌, ◌++◌,
  reverse, append_assoc, arith, ltb, Bool-cases, ltb-false, length, take, drop, All,
  take-append-drop, ok, err, take-take_append, drop-take_append, take-drop-take, reverse-cons,
}
use tile.Tools.Text.{Text}
use tile.Tools.Edit.{MatchedSpan, tool_error, overlap_error}
use tile.Tools.Edit.Spans.{
  sort_spans, check_pairs, validate_non_overlapping, replace_span, replace_spans, splice_text_spans,
}
use tile.Tools.Edit.Spans.Sorting.{Ascending, sort_spans-All, sort_spans_reverse_lem}

-- What stands in the content from a position on, with the spans replaced one after the other.
unfoldable pub assemble : Text → ℕ → List MatchedSpan → Text
assemble content position [] = drop position content
assemble content position (span ∷ spans) =
    take (span.start - position) (drop position content)
    ++ span.replacement
    ++ assemble content span.end spans

abbrev InOrder : Text → ℕ → List MatchedSpan → Type 0
InOrder content position [] = position ≤ length content
InOrder content position (span ∷ spans) =
    (position ≤ span.start) × (span.start ≤ span.end) × InOrder content span.end spans

InOrder-bound :
    (content : Text) (position : ℕ) (spans : List MatchedSpan)
    → InOrder content position spans
    → position ≤ length content
InOrder-bound content position [] h = h
InOrder-bound content position (span ∷ spans) h =
    omega (arith, h.0, h.1, InOrder-bound content span.end spans (h.2))

replace_spans-append :
    (text : Text) (spans : List MatchedSpan) (span : MatchedSpan)
    → replace_spans text (spans ++ span ∷ []) ≡ replace_span (replace_spans text spans) span
unfolding replace_spans
replace_spans-append text [] span = refl
replace_spans-append text (first ∷ spans) span =
    replace_spans-append (replace_span text first) spans span

-- Replacing a span in a text whose part before the span's end is untouched.
replace_span-untouched :
    (content later : Text) (span : MatchedSpan)
    → span.start ≤ span.end
    → span.end ≤ length content
    → replace_span (take span.end content ++ later) span
      ≡ take span.start content ++ span.replacement ++ later
unfolding replace_span
replace_span-untouched content later span h k =
    rw
      (
        take-take_append span.start span.end content later h k,
        drop-take_append span.end content later k,
      )
      refl

replace_spans-assemble :
    (content : Text) (position : ℕ) (spans : List MatchedSpan)
    → InOrder content position spans
    → replace_spans content (reverse spans)
      ≡ take position content ++ assemble content position spans
unfolding replace_spans assemble
replace_spans-assemble content position [] h = sym (take-append-drop position content)
replace_spans-assemble content position (span ∷ spans) h = rw (reverse-cons span spans) (
    replace_spans-append content (reverse spans) span
    ∙ (ap (λ t. replace_span t span) (replace_spans-assemble content span.end spans (h.2))
        ∙ (replace_span-untouched content (assemble content span.end spans) span (h.1)
              (InOrder-bound content span.end spans (h.2))
            ∙ (ap (λ t. t ++ span.replacement ++ assemble content span.end spans)
                  (sym (take-drop-take position span.start content (h.0)))
                ∙ simp append_assoc))))

-- A span that covers some of the content.
abbrev pub IsInside : Text → MatchedSpan → Type 0
IsInside content span = (span.start < span.end) × (span.end ≤ length content)

check_pairs-overlap :
    (span next : MatchedSpan) (spans : List MatchedSpan) (display_path : String)
    → ltb next.start span.end ≡ true
    → check_pairs (span ∷ next ∷ spans) display_path
      ≡ err (tool_error (overlap_error span.edit_index next.edit_index display_path))
unfolding check_pairs
check_pairs-overlap span next spans display_path h = rw h refl

check_pairs-apart :
    (span next : MatchedSpan) (spans : List MatchedSpan) (display_path : String)
    → ltb next.start span.end ≡ false
    → check_pairs (span ∷ next ∷ spans) display_path ≡ check_pairs (next ∷ spans) display_path
unfolding check_pairs
check_pairs-apart span next spans display_path h = rw h refl

abbrev StartsFrom : ℕ → List MatchedSpan → Type 0
StartsFrom position [] = Unit
StartsFrom position (span ∷ spans) = position ≤ span.start

StartsFrom-zero : (spans : List MatchedSpan) → StartsFrom 0 spans
StartsFrom-zero [] = tt
StartsFrom-zero (span ∷ spans) = omega arith

check_pairs-cons :
    (span next : MatchedSpan) (spans : List MatchedSpan) (display_path : String)
    → check_pairs (span ∷ next ∷ spans) display_path ≡ ok tt
    → (span.end ≤ next.start) × (check_pairs (next ∷ spans) display_path ≡ ok tt)
unfolding check_pairs
check_pairs-cons span next spans display_path h = elim (Bool-cases (ltb next.start span.end)) [
  | inl e ↦ absurd (cc (h, check_pairs-overlap span next spans display_path e))
  | inr e ↦
      (ltb-false next.start span.end e, sym (check_pairs-apart span next spans display_path e) ∙ h)
]

check_pairs-Ascending :
    (content : Text) (spans : List MatchedSpan) (display_path : String)
    → All (IsInside content) spans
    → check_pairs spans display_path ≡ ok tt
    → Ascending spans
check_pairs-Ascending content [] display_path h k = tt
check_pairs-Ascending content (span ∷ []) display_path h k = tt
check_pairs-Ascending content (span ∷ next ∷ spans) display_path h k =
    let pair = check_pairs-cons span next spans display_path k in
    (
      omega (arith, h.0.0, pair.0),
      check_pairs-Ascending content (next ∷ spans) display_path (h.1) (pair.1),
    )

check_pairs-InOrder :
    (content : Text) (spans : List MatchedSpan) (display_path : String) (position : ℕ)
    → All (IsInside content) spans
    → check_pairs spans display_path ≡ ok tt
    → position ≤ length content
    → StartsFrom position spans
    → InOrder content position spans
check_pairs-InOrder content [] display_path position h k bound from = bound
check_pairs-InOrder content (span ∷ []) display_path position h k bound from =
    (from, omega (arith, h.0.0), h.0.1)
check_pairs-InOrder content (span ∷ next ∷ spans) display_path position h k bound from =
    let pair = check_pairs-cons span next spans display_path k in
    (
      from,
      omega (arith, h.0.0),
      check_pairs-InOrder content (next ∷ spans) display_path span.end (h.1) (pair.1) (h.0.1)
          (pair.0),
    )

pub splice_text_spans-assemble :
    (content : Text) (spans : List MatchedSpan) (display_path : String)
    → All (IsInside content) spans
    → validate_non_overlapping spans display_path ≡ ok tt
    → splice_text_spans content spans ≡ assemble content 0 (sort_spans spans)
unfolding validate_non_overlapping splice_text_spans
splice_text_spans-assemble content spans display_path h k =
    let inside = sort_spans-All (IsInside content) spans h in
    let ascending = check_pairs-Ascending content (sort_spans spans) display_path inside k in
    let in_order =
      check_pairs-InOrder content (sort_spans spans) display_path 0 inside k (omega arith)
        (StartsFrom-zero (sort_spans spans)) in
    ap (replace_spans content) (sort_spans_reverse_lem spans ascending)
    ∙ replace_spans-assemble content 0 (sort_spans spans) in_order
