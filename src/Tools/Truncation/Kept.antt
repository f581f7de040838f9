-- ===== src/Tools/Truncation/Kept.antt =====
-- What `truncate_text` keeps of a text, and how its metadata measures it.
use tile.Prelude.{
  ℕ, ◌≤◌, ◌<◌, ◌≡◌, refl, sym, ap, subst, ◌∙◌, ◌↔◌, ◌⊎◌, inl, inr, true, false, none, some, List,
  [], ◌∷◌, ◌++◌, reverse, append-nil, append_assoc, arith, Bool-cases, length-reverse, ltb→lt,
  length, length-append, List-cases, reverse-cons, reverse-append, reverse-reverse,
}
use tile.Tools.Text.{Text, utf8_length, split_lines, join_lines}
use tile.Tools.Text.Lines.{
  lines_length-append, lines_length-reverse, utf8_length-join_lines, join_lines-split_lines,
  split_lines-AreLines, utf8_length-nil,
}
use tile.Tools.Truncation.{
  Truncation, TruncationReason, by_lines, by_bytes, TruncationKeep, head, tail, truncate_text,
  measure_text, fits_limits, edge_line, edge_line_exceeds, edge_line_exceeded_result,
  untruncated_result, truncated_result, select_output_lines, iter_lines, first_line, last_line,
}
use tile.Tools.Truncation.Selection.{Selects, Stopped, select_lines-Selects}

-- `kept` stands at the retained edge of `lines`, and `next` is the line beside it.
abbrev pub IsBeside : TruncationKeep → List Text → List Text → Text → List Text → Type 0
IsBeside head lines kept next more = lines ≡ kept ++ next ∷ more
IsBeside tail lines kept next more = lines ≡ more ++ next ∷ kept

abbrev pub with_next : TruncationKeep → List Text → Text → List Text
with_next head kept next = kept ++ next ∷ []
with_next tail kept next = next ∷ kept

abbrev pub IsFull : TruncationReason → TruncationKeep → ℕ → ℕ → List Text → Text → Type 0
IsFull by_lines keep max_lines max_bytes kept next = length kept ≡ max_lines
IsFull by_bytes keep max_lines max_bytes kept next =
    max_bytes < utf8_length (join_lines (with_next keep kept next))

-- The content of a truncation is `kept`, complete lines from the retained edge: both limits allow
-- them, and the reason that the truncation gives is the limit that the next line does not meet.
pub record KeepsMost (keep : TruncationKeep) (max_lines max_bytes : ℕ) (lines : List Text)
    (t : Truncation) : Type 0 where
  pub kept : List Text
  pub next : Text
  pub more : List Text
  pub reason : TruncationReason
  pub beside : IsBeside keep lines kept next more
  pub content_kept : t.content ≡ join_lines kept
  pub line_count : t.output_lines ≡ length kept
  pub byte_count : t.output_bytes ≡ utf8_length (join_lines kept)
  pub line_bound : length kept ≤ max_lines
  pub byte_bound : utf8_length (join_lines kept) ≤ max_bytes
  pub given_reason : t.truncated_by ≡ some reason
  pub flagged : t.truncated ≡ true
  pub full : IsFull reason keep max_lines max_bytes kept next

-- A text that is returned whole.
pub record KeepsAll (max_lines max_bytes : ℕ) (text : Text) (t : Truncation) : Type 0 where
  pub same : t.content ≡ text
  pub no_reason : t.truncated_by ≡ none
  pub unflagged : t.truncated ≡ false
  pub line_count : t.output_lines ≡ length (split_lines text)
  pub byte_count : t.output_bytes ≡ utf8_length text
  pub line_bound : length (split_lines text) ≤ max_lines
  pub byte_bound : utf8_length text ≤ max_bytes

abbrev pub Fits : Text → ℕ → ℕ → Type 0
Fits text max_lines max_bytes =
    (length (split_lines text) ≤ max_lines) × (utf8_length text ≤ max_bytes)

fits_limits-Fits :
    (text : Text) (max_lines max_bytes : ℕ)
    → (fits_limits (measure_text text) max_lines max_bytes ≡ true) ↔ Fits text max_lines max_bytes
unfolding fits_limits measure_text
fits_limits-Fits text max_lines max_bytes = ground arith

-- The edge line leaves the others beside it.
edge_line-IsBeside :
    (keep : TruncationKeep) (lines : List Text)
    → 0 < length lines
    → (more : List Text) × IsBeside keep lines [] (edge_line lines keep) more
unfolding edge_line first_line last_line
edge_line-IsBeside keep [] h = absurd (omega arith)
edge_line-IsBeside head (line ∷ lines) h = (lines, refl)
edge_line-IsBeside tail (line ∷ []) h = ([], refl)
edge_line-IsBeside tail (line ∷ next ∷ lines) h =
    let more = edge_line-IsBeside tail (next ∷ lines) (omega arith) in
    (line ∷ more.0, ap (λ ls. line ∷ ls) (more.1))

utf8_length-reverse :
    (lines : List Text) → utf8_length (join_lines (reverse lines)) ≡ utf8_length (join_lines lines)
utf8_length-reverse lines = omega (
  arith,
  utf8_length-join_lines lines,
  utf8_length-join_lines (reverse lines),
  lines_length-reverse lines,
  length-reverse lines,
)

utf8_length-cons_reverse :
    (kept : List Text) (next : Text)
    → utf8_length (join_lines (next ∷ reverse kept)) ≡ utf8_length (join_lines (kept ++ next ∷ []))
utf8_length-cons_reverse kept next = omega (
  arith,
  utf8_length-join_lines (next ∷ reverse kept),
  utf8_length-join_lines (kept ++ next ∷ []),
  lines_length-append kept (next ∷ []),
  lines_length-reverse kept,
  length-reverse kept,
  length-append kept (next ∷ []),
)

reverse-split :
    (lines kept more : List Text) (next : Text)
    → reverse lines ≡ kept ++ next ∷ more
    → lines ≡ reverse more ++ next ∷ reverse kept
reverse-split lines kept more next h =
    sym (reverse-reverse lines)
    ∙ (ap (λ ls. reverse ls) h
        ∙ (reverse-append kept (next ∷ more)
            ∙ (ap (λ ls. ls ++ reverse kept) (reverse-cons next more)
                ∙ append_assoc (reverse more) (next ∷ []) (reverse kept))))

module _ (max_lines max_bytes : ℕ) where
  IsFull-head :
      (kept : List Text) (reason : TruncationReason) (next : Text) (more : List Text)
      → Stopped max_lines max_bytes kept reason (next ∷ more)
      → IsFull reason head max_lines max_bytes kept next
  IsFull-head kept by_lines next more (inl h) = absurd (cc)
  IsFull-head kept by_lines next more (inr h) = h
  IsFull-head kept by_bytes next more h = h

  IsFull-tail :
      (kept : List Text) (reason : TruncationReason) (next : Text) (more : List Text)
      → Stopped max_lines max_bytes kept reason (next ∷ more)
      → IsFull reason tail max_lines max_bytes (reverse kept) next
  IsFull-tail kept by_lines next more (inl h) = absurd (cc)
  IsFull-tail kept by_lines next more (inr h) = omega (arith, length-reverse kept, h)
  IsFull-tail kept by_bytes next more h = omega (arith, utf8_length-cons_reverse kept next, h)

  truncated_result-KeepsMost :
      (keep : TruncationKeep) (lines kept : List Text) (reason : TruncationReason) (m : _)
      (s : Selects max_lines max_bytes (iter_lines lines keep) kept reason) (next : Text)
      (more : List Text)
      → s.rest ≡ next ∷ more
      → KeepsMost keep max_lines max_bytes lines
          (truncated_result (iter_lines kept keep) reason m keep max_lines max_bytes)
  unfolding truncated_result iter_lines
  truncated_result-KeepsMost head lines kept reason m s next more h = record {
    kept = kept;
    next = next;
    more = more;
    reason = reason;
    beside = s.splits ∙ ap (λ ls. kept ++ ls) h;
    content_kept = refl;
    line_count = refl;
    byte_count = refl;
    line_bound = s.line_bound;
    byte_bound = s.byte_bound;
    given_reason = refl;
    flagged = refl;
    full =
        IsFull-head kept reason next more
          (subst (λ ls. Stopped max_lines max_bytes kept reason ls) h s.stopped);
  }
  truncated_result-KeepsMost tail lines kept reason m s next more h = record {
    kept = reverse kept;
    next = next;
    more = reverse more;
    reason = reason;
    beside = reverse-split lines kept more next (s.splits ∙ ap (λ ls. kept ++ ls) h);
    content_kept = refl;
    line_count = refl;
    byte_count = refl;
    line_bound = omega (arith, length-reverse kept, s.line_bound);
    byte_bound = omega (arith, utf8_length-reverse kept, s.byte_bound);
    given_reason = refl;
    flagged = refl;
    full =
        IsFull-tail kept reason next more
          (subst (λ ls. Stopped max_lines max_bytes kept reason ls) h s.stopped);
  }

  iter_lines-Fits :
      (text : Text) (keep : TruncationKeep)
      → length (iter_lines (split_lines text) keep) ≤ max_lines
      → utf8_length (join_lines (iter_lines (split_lines text) keep)) ≤ max_bytes
      → Fits text max_lines max_bytes
  unfolding iter_lines
  iter_lines-Fits text head h k =
      (h, subst (λ t. utf8_length t ≤ max_bytes) (join_lines-split_lines text) k)
  iter_lines-Fits text tail h k = (
    omega (arith, length-reverse (split_lines text), h),
    subst (λ t. utf8_length t ≤ max_bytes) (join_lines-split_lines text)
        (omega (arith, utf8_length-reverse (split_lines text), k)),
  )

  edge-IsFull :
      (keep : TruncationKeep) (line : Text)
      → max_bytes < utf8_length line
      → IsFull by_bytes keep max_lines max_bytes [] line
  unfolding join_lines
  edge-IsFull head line h = h
  edge-IsFull tail line h = h

  edge_exceeded-KeepsMost :
      (keep : TruncationKeep) (lines : List Text) (m : _)
      → 0 < length lines
      → max_bytes < utf8_length (edge_line lines keep)
      → KeepsMost keep max_lines max_bytes lines
          (edge_line_exceeded_result m keep max_lines max_bytes)
  unfolding edge_line_exceeded_result join_lines
  edge_exceeded-KeepsMost keep lines m h k =
      let beside = edge_line-IsBeside keep lines h in
      record {
        kept = [];
        next = edge_line lines keep;
        more = beside.0;
        reason = by_bytes;
        beside = beside.1;
        content_kept = refl;
        line_count = refl;
        byte_count = sym utf8_length-nil;
        line_bound = omega arith;
        byte_bound = omega (arith, utf8_length-nil);
        given_reason = refl;
        flagged = refl;
        full = edge-IsFull keep (edge_line lines keep) k;
      }

  selected-KeepsMost :
      (text : Text) (keep : TruncationKeep) (kept : List Text) (reason : TruncationReason) (m : _)
      → Selects max_lines max_bytes (iter_lines (split_lines text) keep) kept reason
      → ¬ Fits text max_lines max_bytes
      → KeepsMost keep max_lines max_bytes
          (split_lines text)
          (truncated_result (iter_lines kept keep) reason m keep max_lines max_bytes)
  selected-KeepsMost text keep kept reason m s excess = elim (List-cases s.rest) [
    | inl h ↦
        let same = s.splits ∙ (ap (λ ls. kept ++ ls) h ∙ append-nil kept) in
        absurd (
          excess (
            iter_lines-Fits text keep (subst (λ ls. length ls ≤ max_lines) (sym same) s.line_bound)
              (subst (λ ls. utf8_length (join_lines ls) ≤ max_bytes) (sym same) s.byte_bound)))
    | inr h ↦ truncated_result-KeepsMost keep (split_lines text) kept reason m s (h.0) (h.1) (h.2)
  ]

  not_Fits :
      (text : Text)
      → fits_limits (measure_text text) max_lines max_bytes ≡ false
      → ¬ Fits text max_lines max_bytes
  not_Fits text h k = absurd (cc ((fits_limits-Fits text max_lines max_bytes).1 k, h))

  edge_line_exceeds-lt :
      (lines : List Text) (keep : TruncationKeep)
      → edge_line_exceeds lines keep max_bytes ≡ true
      → max_bytes < utf8_length (edge_line lines keep)
  unfolding edge_line_exceeds
  edge_line_exceeds-lt lines keep h = ltb→lt max_bytes _ h

  -- A text within both limits is returned whole. Of any other text, `truncate_text` keeps complete
  -- lines from the retained edge, within both limits, and as many as the limit that it names as its
  -- reason allows; where the edge line itself is too long, none.
  pub truncate_text-Keeps :
      (text : Text) (keep : TruncationKeep)
      → (Fits text max_lines max_bytes
          × KeepsAll max_lines max_bytes text (truncate_text text keep max_lines max_bytes))
        ⊎ (¬ Fits text max_lines max_bytes
            × KeepsMost keep max_lines max_bytes
                (split_lines text)
                (truncate_text text keep max_lines max_bytes))
  unfolding truncate_text select_output_lines measure_text untruncated_result join_lines
  truncate_text-Keeps text keep =
      elim (Bool-cases (fits_limits (measure_text text) max_lines max_bytes)) [
        | inl fits ↦ rw fits (
            inl (
              (fits_limits-Fits text max_lines max_bytes).0 fits,
              record {
                same = refl;
                no_reason = refl;
                unflagged = refl;
                line_count = refl;
                byte_count = refl;
                line_bound = ((fits_limits-Fits text max_lines max_bytes).0 fits).0;
                byte_bound = ((fits_limits-Fits text max_lines max_bytes).0 fits).1;
              },
            ))
        | inr not_fit ↦ elim (Bool-cases (edge_line_exceeds (split_lines text) keep max_bytes)) [
          | inl exceeds ↦
              rw (not_fit, exceeds)
                (inr (
                  not_Fits text not_fit,
                  edge_exceeded-KeepsMost keep (split_lines text) _ ((split_lines-AreLines text).0)
                      (edge_line_exceeds-lt (split_lines text) keep exceeds),
                ))
          | inr within ↦
              rw (not_fit, within)
                (inr (
                  not_Fits text not_fit,
                  selected-KeepsMost text keep _ _ _
                      (select_lines-Selects max_lines max_bytes (iter_lines (split_lines text) keep)
                        [] 0 (sym utf8_length-nil) (omega arith) (omega arith))
                      (not_Fits text not_fit),
                ))
        ]
      ]
