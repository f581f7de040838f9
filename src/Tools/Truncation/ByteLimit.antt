-- ===== src/Tools/Truncation/ByteLimit.antt =====
-- `truncate_to_byte_limit` beside `truncate_head`.
use tile.Prelude.{
  ℕ, ◌+◌, ◌≤◌, ◌<◌, ◌≡◌, refl, ap, ◌∙◌, inl, inr, Bool, true, false, List, [], ◌∷◌, ◌++◌, arith,
  ltb, leb, if◌then◌else◌, Bool-cases, lt→leb-false, ltb→lt, lt→ltb, le→leb, length, length-append,
}
use tile.Tools.Text.{Text, utf8_length, split_lines, join_lines}
use tile.Tools.Text.Lines.{split_lines-AreLines}
use tile.Tools.Truncation.{
  complete_lines, truncate_to_byte_limit, truncate_head, truncate_text, select_lines,
  select_output_lines, separator_bytes, measure_text, fits_limits, untruncated_result,
  edge_line_exceeded_result, truncated_result, edge_line_exceeds, edge_line, first_line, head,
  iter_lines,
}

if-first :
    {A B : Type 0} (b : Bool) (x : A) (y : B) (r : A × B)
    → (if b then x else r.0) ≡ (if b then (x, y) else r).0
if-first true x y r = refl
if-first false x y r = refl

-- With room for all lines, the two loops select the same lines.
complete_lines-select_lines :
    (max_lines byte_limit : ℕ) (lines kept : List Text) (size : ℕ)
    → length kept + length lines ≤ max_lines
    → complete_lines byte_limit lines kept size
      ≡ (select_lines max_lines byte_limit lines kept size).0
unfolding complete_lines select_lines
complete_lines-select_lines max_lines byte_limit [] kept size h = refl
complete_lines-select_lines max_lines byte_limit (line ∷ lines) kept size h =
    let room = lt→leb-false (length kept) max_lines (omega arith) in
    rw room (
      ap
        (λ ls. if ltb byte_limit (size + separator_bytes kept + utf8_length line) then kept else ls)
        (complete_lines-select_lines max_lines byte_limit lines (kept ++ line ∷ []) _
          (omega (arith, length-append kept (line ∷ []), h)))
      ∙ if-first (ltb byte_limit (size + separator_bytes kept + utf8_length line)) _ _ _)

complete_lines-edge :
    (byte_limit : ℕ) (lines : List Text)
    → 0 < length lines
    → edge_line_exceeds lines head byte_limit ≡ true
    → complete_lines byte_limit lines [] 0 ≡ []
unfolding complete_lines edge_line_exceeds edge_line first_line separator_bytes
complete_lines-edge byte_limit [] h k = refl
complete_lines-edge byte_limit (line ∷ lines) h k =
    rw (lt→ltb byte_limit (0 + utf8_length line) (omega (arith, ltb→lt byte_limit _ k))) refl

-- `truncate_to_byte_limit` returns the content and the flag of `truncate_head` with the same limit of
-- bytes and no effective limit of lines.
pub truncate_to_byte_limit-truncate_head :
    (text : Text) (byte_limit : ℕ)
    → let t = truncate_head text (length (split_lines text)) byte_limit in
      truncate_to_byte_limit text byte_limit ≡ (t.content, t.truncated)
unfolding truncate_to_byte_limit truncate_head truncate_text measure_text fits_limits
    untruncated_result edge_line_exceeded_result truncated_result select_output_lines iter_lines
    join_lines
truncate_to_byte_limit-truncate_head text byte_limit =
    let all_lines = le→leb (length (split_lines text)) (length (split_lines text)) (omega arith) in
    elim (Bool-cases (leb (utf8_length text) byte_limit)) [
      | inl fits ↦ rw (all_lines, fits) refl
      | inr large ↦ elim (Bool-cases (edge_line_exceeds (split_lines text) head byte_limit)) [
        | inl exceeds ↦
            rw (all_lines, large, exceeds)
              (ap (λ ls. (join_lines ls, true))
                (complete_lines-edge byte_limit (split_lines text) ((split_lines-AreLines text).0)
                  exceeds))
        | inr within ↦
            rw (all_lines, large, within)
              (ap (λ ls. (join_lines ls, true))
                (complete_lines-select_lines (length (split_lines text)) byte_limit
                  (split_lines text) [] 0 (omega arith)))
      ]
    ]
