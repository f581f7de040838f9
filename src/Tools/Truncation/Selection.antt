-- ===== src/Tools/Truncation/Selection.antt =====
-- What the loop of `_select_output_lines` selects.
use tile.Prelude.{
  ℕ, ◌+◌, ◌≤◌, ◌<◌, ◌≡◌, refl, ◌⊎◌, inl, inr, List, [], ◌∷◌, ◌++◌, append_assoc, arith, ltb, leb,
  Bool-cases, ltb-false, leb-false, ltb→lt, leb→le, length, length-append,
}
use tile.Tools.Text.{Text, utf8_length, join_lines}
use tile.Tools.Text.Lines.{lines_length-append, utf8_length-join_lines}
use tile.Tools.Truncation.{TruncationReason, by_lines, by_bytes, separator_bytes, select_lines}

-- Why the selection ends before the rest of the lines.
abbrev pub Stopped : ℕ → ℕ → List Text → TruncationReason → List Text → Type 0
Stopped max_lines max_bytes kept by_lines rest = (rest ≡ []) ⊎ (length kept ≡ max_lines)
Stopped max_lines max_bytes kept by_bytes [] = ⊥
Stopped max_lines max_bytes kept by_bytes (next ∷ more) =
    max_bytes < utf8_length (join_lines (kept ++ next ∷ []))

-- The first lines of `lines` that both limits allow.
pub record Selects (max_lines max_bytes : ℕ) (lines kept : List Text) (reason : TruncationReason)
    : Type 0 where
  pub rest : List Text
  pub splits : lines ≡ kept ++ rest
  pub line_bound : length kept ≤ max_lines
  pub byte_bound : utf8_length (join_lines kept) ≤ max_bytes
  pub stopped : Stopped max_lines max_bytes kept reason rest

-- The size that the loop computes for one more line.
join_lines-size :
    (kept : List Text) (line : Text)
    → utf8_length (join_lines kept) + separator_bytes kept + utf8_length line
      ≡ utf8_length (join_lines (kept ++ line ∷ []))
unfolding separator_bytes
join_lines-size [] line =
    omega (arith, utf8_length-join_lines [], utf8_length-join_lines (line ∷ []))
join_lines-size (first ∷ kept) line = omega (
  arith,
  utf8_length-join_lines (first ∷ kept),
  utf8_length-join_lines (first ∷ kept ++ line ∷ []),
  lines_length-append kept (line ∷ []),
  length-append kept (line ∷ []),
)

module _ (max_lines max_bytes : ℕ) where
  pub select_lines-Selects :
      (lines kept : List Text) (size : ℕ)
      → size ≡ utf8_length (join_lines kept)
      → length kept ≤ max_lines
      → size ≤ max_bytes
      → let selected = select_lines max_lines max_bytes lines kept size in
        Selects max_lines max_bytes (kept ++ lines) (selected.0) (selected.1)
  unfolding select_lines
  select_lines-Selects [] kept size e lb bb = record {
    rest = [];
    splits = refl;
    line_bound = lb;
    byte_bound = omega (arith, e, bb);
    stopped = inl refl;
  }
  select_lines-Selects (line ∷ lines) kept size e lb bb =
      elim (Bool-cases (leb max_lines (length kept))) [
        | inl full ↦ rw full record {
          rest = line ∷ lines;
          splits = refl;
          line_bound = lb;
          byte_bound = omega (arith, e, bb);
          stopped = inr (omega (arith, lb, leb→le max_lines (length kept) full));
        }
        | inr room ↦
            elim (Bool-cases (ltb max_bytes (size + separator_bytes kept + utf8_length line))) [
              | inl large ↦
                  rw (room, large)
                    record {
                      rest = line ∷ lines;
                      splits = refl;
                      line_bound = lb;
                      byte_bound = omega (arith, e, bb);
                      stopped =
                          omega (arith, e, join_lines-size kept line, ltb→lt max_bytes _ large);
                    }
              | inr small ↦
                  rw (room, small, ← append_assoc kept (line ∷ []) lines)
                    (select_lines-Selects lines (kept ++ line ∷ []) _
                      (omega (arith, e, join_lines-size kept line))
                      (omega (
                        arith,
                        leb-false max_lines (length kept) room,
                        length-append kept (line ∷ []),
                      ))
                      (ltb-false max_bytes _ small))
            ]
      ]
