-- ===== src/Tools/Edit/Spans.antt =====
-- tile/tools/edit.py: exact matches of the old texts, and the replacement of character spans.
pub mod Sorting
pub mod Splice
pub mod Occurs
pub mod Exact
pub mod Fuel
use tile.Prelude.{
  ℕ, zero, suc, ◌+◌, String, Option, none, some, List, [], ◌∷◌, ◌++◌, reverse, ltb, leb,
  if◌then◌else◌, length, take, drop, Result, ok, err, ◌>>=◌, ◌>>◌,
}
use tile.Tools.Text.{Text, find, find_from, text_eq}
use tile.Tools.Edit.{
  EditReplacement, MatchedSpan, ReplacementApplication, EditError, match_not_found, tool_error,
  not_found_error, duplicate_error, overlap_error, no_change_error,
}
use tile.Tools.Edit.Endings.{normalize_to_lf}

-- The loop of `_find_text_starts` on fuel, from the offset that `find` has given.
unfoldable pub text_starts : ℕ → Text → Text → Option ℕ → List ℕ
text_starts zero content old_text offset = []
text_starts (suc fuel) content old_text none = []
text_starts (suc fuel) content old_text (some offset) =
    offset
    ∷ text_starts fuel content old_text (find_from content old_text (offset + length old_text))

-- Every round but the last consumes a character of the content.
unfoldable pub find_text_starts : Text → Text → List ℕ
find_text_starts content old_text =
    text_starts (suc (suc (length content))) content old_text (find content old_text)

unfoldable pub require_unique_match : List ℕ → String → ℕ → ℕ → Result EditError ℕ
require_unique_match [] display_path edit_index total_edits =
    err (match_not_found (not_found_error display_path edit_index total_edits))
require_unique_match (start ∷ []) display_path edit_index total_edits = ok start
require_unique_match (start ∷ next ∷ starts) display_path edit_index total_edits = err (
    tool_error
      (duplicate_error display_path edit_index total_edits (length (start ∷ next ∷ starts))))

-- The span of an old text that starts at a position.
unfoldable pub exact_span : ℕ → EditReplacement → ℕ → MatchedSpan
exact_span index edit start = record {
  edit_index = index;
  start = start;
  end = start + length (normalize_to_lf edit.old_text);
  replacement = normalize_to_lf edit.new_text;
}

-- The loop of `_match_exact_spans` over the edits from an index.
unfoldable pub exact_spans :
    Text → String → ℕ → ℕ → List EditReplacement → Result EditError (List MatchedSpan)
exact_spans content display_path total index [] = ok []
exact_spans content display_path total index (edit ∷ edits) = do
  start ←
      require_unique_match (find_text_starts content (normalize_to_lf edit.old_text)) display_path
        index total
  spans ← exact_spans content display_path total (suc index) edits
  ok (exact_span index edit start ∷ spans)

-- `sorted(spans, key=lambda span: span.start)`, which is stable.
unfoldable pub insert_span : MatchedSpan → List MatchedSpan → List MatchedSpan
insert_span span [] = span ∷ []
insert_span span (next ∷ spans) =
    let rest = insert_span span spans in
    if leb span.start next.start then span ∷ next ∷ spans else next ∷ rest

unfoldable pub sort_spans : List MatchedSpan → List MatchedSpan
sort_spans [] = []
sort_spans (span ∷ spans) = insert_span span (sort_spans spans)

-- `sorted(spans, key=lambda span: span.start, reverse=True)`, which keeps the order of equals.
unfoldable pub sort_spans_reverse : List MatchedSpan → List MatchedSpan
sort_spans_reverse spans = reverse (sort_spans (reverse spans))

unfoldable pub check_pairs : List MatchedSpan → String → Result {0, 0} EditError Unit
check_pairs [] display_path = ok tt
check_pairs (span ∷ []) display_path = ok tt
check_pairs (previous ∷ current ∷ spans) display_path =
    let rest = check_pairs (current ∷ spans) display_path in
    if ltb current.start previous.end
    then err (tool_error (overlap_error previous.edit_index current.edit_index display_path))
    else rest

unfoldable pub validate_non_overlapping : List MatchedSpan → String → Result {0, 0} EditError Unit
validate_non_overlapping spans display_path = check_pairs (sort_spans spans) display_path

unfoldable pub match_exact_spans :
    Text → List EditReplacement → String → Result EditError (List MatchedSpan)
match_exact_spans content replacements display_path = do
  spans ← exact_spans content display_path (length replacements) 0 replacements
  validate_non_overlapping spans display_path
  ok spans

unfoldable pub replace_span : Text → MatchedSpan → Text
replace_span text span = take span.start text ++ span.replacement ++ drop span.end text

unfoldable pub replace_spans : Text → List MatchedSpan → Text
replace_spans text [] = text
replace_spans text (span ∷ spans) = replace_spans (replace_span text span) spans

unfoldable pub splice_text_spans : Text → List MatchedSpan → Text
splice_text_spans content spans = replace_spans content (sort_spans_reverse spans)

unfoldable pub build_application :
    Text → Text → List EditReplacement → String → Result EditError ReplacementApplication
build_application content new_content replacements display_path =
    if text_eq content new_content
    then err (tool_error (no_change_error display_path (length replacements)))
    else ok (record { base_content = content; new_content = new_content })

unfoldable pub apply_exact_replacements :
    Text → List EditReplacement → String → Result EditError ReplacementApplication
apply_exact_replacements content replacements display_path = do
  spans ← match_exact_spans content replacements display_path
  build_application content (splice_text_spans content spans) replacements display_path
