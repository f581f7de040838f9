-- ===== src/Tools/Edit/Fuzzy.antt =====
-- tile/tools/edit.py: the fallback that matches whole lines after normalizing them. Unicode's NFKC is a
-- parameter.
pub mod Lines
pub mod Windows
pub mod Matched
use tile.Prelude.{
  ℕ, zero, suc, ◌+◌, ◌-◌, String, Bool, true, false, not, ◌&&◌, ◌||◌, List, [], ◌∷◌, ◌++◌, map, leb,
  ◌==◌, if◌then◌else◌, length, get_elem?, take, drop, filter, Result, ok, ◌>>=◌, ◌>>◌, unwrap_or,
}
use tile.Tools.Text.{Text, newline, split_lines, join_lines, text_eq, ends_with_newline}
use tile.Tools.Edit.{EditReplacement, MatchedSpan, ReplacementApplication, EditError}
use tile.Tools.Edit.Endings.{normalize_to_lf}
use tile.Tools.Edit.Spans.{
  require_unique_match, validate_non_overlapping, splice_text_spans, build_application,
}

-- The characters that `str.rstrip` removes.
unfoldable pub is_space : ℕ → Bool
is_space c =
    (leb 9 c && leb c 13)
    || (leb 28 c && leb c 32)
    || (c == 0x85)
    || (c == 0xa0)
    || (c == 0x1680)
    || (leb 0x2000 c && leb c 0x200a)
    || (c == 0x2028)
    || (c == 0x2029)
    || (c == 0x202f)
    || (c == 0x205f)
    || (c == 0x3000)

-- `line.rstrip()`
unfoldable pub rstrip : Text → Text
rstrip [] = []
rstrip (c ∷ line) = let rest = rstrip line in if is_space c && text_eq rest [] then [] else c ∷ rest

unfoldable pub strip_trailing_line_whitespace : Text → Text
strip_trailing_line_whitespace text = join_lines (map rstrip (split_lines text))

unfoldable pub smart_single_quote : ℕ → Bool
smart_single_quote c = leb 0x2018 c && leb c 0x201b

unfoldable pub smart_double_quote : ℕ → Bool
smart_double_quote c = leb 0x201c c && leb c 0x201f

unfoldable pub unicode_dash : ℕ → Bool
unicode_dash c = (leb 0x2010 c && leb c 0x2015) || (c == 0x2212)

unfoldable pub fuzzy_unicode_space : ℕ → Bool
fuzzy_unicode_space c =
    (c == 0xa0) || (leb 0x2002 c && leb c 0x200a) || (c == 0x202f) || (c == 0x205f) || (c == 0x3000)

-- `pattern.sub(replacement, text)` for a class of characters.
unfoldable pub substitute : (ℕ → Bool) → ℕ → Text → Text
substitute in_class replacement text = map (λ c. if in_class c then replacement else c) text

unfoldable pub normalize_for_fuzzy_match : (Text → Text) → Text → Text
normalize_for_fuzzy_match nfkc text = substitute fuzzy_unicode_space 0x20 (
    substitute unicode_dash 0x2d (
      substitute smart_double_quote 0x22
        (substitute smart_single_quote 0x27 (strip_trailing_line_whitespace (nfkc text)))))

-- The parts of a text, each but the last with its newline; an empty last part is no line.
unfoldable pub terminated_parts : List Text → List Text
terminated_parts [] = []
terminated_parts (part ∷ []) = if text_eq part [] then [] else part ∷ []
terminated_parts (part ∷ next ∷ parts) = (part ++ newline ∷ []) ∷ terminated_parts (next ∷ parts)

unfoldable pub terminated_lines : Text → List Text
terminated_lines text = terminated_parts (split_lines text)

-- The loop of `_line_start_offsets`.
unfoldable pub offsets_from : ℕ → List Text → List ℕ
offsets_from offset [] = []
offsets_from offset (line ∷ lines) = offset ∷ offsets_from (offset + length line) lines

unfoldable pub line_start_offsets : List Text → List ℕ
line_start_offsets lines = offsets_from 0 lines

-- `lines[index]` and `offsets[index]`; the indices that the tool uses are in range.
unfoldable pub line_at : List Text → ℕ → Text
line_at lines index = unwrap_or (get_elem? lines index) []

unfoldable pub offset_at : List ℕ → ℕ → ℕ
offset_at offsets index = unwrap_or (get_elem? offsets index) 0

unfoldable pub window_char_span : List Text → List ℕ → ℕ → ℕ → Bool → ℕ × ℕ
window_char_span original_lines line_offsets start_line last_line old_terminated =
    let last = line_at original_lines last_line in
    let start = offset_at line_offsets start_line in
    let end = offset_at line_offsets last_line + length last in
    if not old_terminated && ends_with_newline last then (start, end - 1) else (start, end)

unfoldable pub last_window_line_matches : Text → Text → Bool
last_window_line_matches file_line old_line =
    if ends_with_newline old_line
    then text_eq file_line old_line
    else text_eq file_line old_line || text_eq file_line (old_line ++ newline ∷ [])

unfoldable pub lines_eq : List Text → List Text → Bool
lines_eq [] [] = true
lines_eq [] (other ∷ others) = false
lines_eq (line ∷ lines) [] = false
lines_eq (line ∷ lines) (other ∷ others) = text_eq line other && lines_eq lines others

-- `*head, last = window`
unfoldable pub window_head : List Text → List Text
window_head [] = []
window_head (line ∷ []) = []
window_head (line ∷ next ∷ lines) = line ∷ window_head (next ∷ lines)

unfoldable pub window_last : List Text → Text
window_last [] = []
window_last (line ∷ []) = line
window_last (line ∷ next ∷ lines) = window_last (next ∷ lines)

unfoldable pub window_matches_at : List Text → List Text → ℕ → Bool
window_matches_at normalized_lines window start =
    let head = window_head window in
    if not (lines_eq (take (length head) (drop start normalized_lines)) head)
    then false
    else last_window_line_matches (line_at normalized_lines (start + length head))
        (window_last window)

-- `range(start, start + count)`
unfoldable pub range_from : ℕ → ℕ → List ℕ
range_from start zero = []
range_from start (suc count) = start ∷ range_from (suc start) count

unfoldable pub find_window_starts : List Text → List Text → List ℕ
find_window_starts normalized_lines window =
    filter (window_matches_at normalized_lines window)
      (range_from 0 (length normalized_lines + 1 - length window))

module _ (nfkc : Text → Text) where
  unfoldable pub old_window : EditReplacement → List Text
  old_window edit =
      map (normalize_for_fuzzy_match nfkc) (terminated_lines (normalize_to_lf edit.old_text))

  -- The span of a window that matches from a line on.
  unfoldable pub fuzzy_span : List Text → ℕ → EditReplacement → ℕ → MatchedSpan
  fuzzy_span original_lines index edit start_line =
      let window = old_window edit in
      let span =
        window_char_span original_lines (line_start_offsets original_lines) start_line
          (start_line + length window - 1) (ends_with_newline (window_last window)) in
      record {
        edit_index = index;
        start = span.0;
        end = span.1;
        replacement = normalize_to_lf edit.new_text;
      }

  -- The loop of `_match_fuzzy_spans` over the edits from an index.
  unfoldable pub fuzzy_spans :
      List Text → String → ℕ → ℕ → List EditReplacement → Result EditError (List MatchedSpan)
  fuzzy_spans original_lines display_path total index [] = ok []
  fuzzy_spans original_lines display_path total index (edit ∷ edits) = do
    start_line ←
        require_unique_match
          (find_window_starts (map (normalize_for_fuzzy_match nfkc) original_lines)
            (old_window edit))
          display_path index total
    spans ← fuzzy_spans original_lines display_path total (suc index) edits
    ok (fuzzy_span original_lines index edit start_line ∷ spans)

  unfoldable pub match_fuzzy_spans :
      Text → List EditReplacement → String → Result EditError (List MatchedSpan)
  match_fuzzy_spans content replacements display_path = do
    spans ← fuzzy_spans (terminated_lines content) display_path (length replacements) 0 replacements
    validate_non_overlapping spans display_path
    ok spans

  unfoldable pub apply_fuzzy_replacements :
      Text → List EditReplacement → String → Result EditError ReplacementApplication
  apply_fuzzy_replacements content replacements display_path = do
    spans ← match_fuzzy_spans content replacements display_path
    build_application content (splice_text_spans content spans) replacements display_path
