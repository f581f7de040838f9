-- ===== src/Examples/Editing.antt =====
-- The file tools on small texts.
use tile.Prelude.{
  String, ◌≡◌, refl, ◌⊎◌, inr, true, some, List, [], ◌∷◌, arith, length, All, ok, err,
}
use tile.Tools.Text.{Text, codes, utf8_length, split_lines, join_lines}
use tile.Tools.Truncation.{head, tail, truncate_text, truncate_head, truncate_to_byte_limit}
use tile.Tools.Truncation.Kept.{KeepsMost, KeepsAll, Fits, truncate_text-Keeps}
use tile.Tools.Truncation.ByteLimit.{truncate_to_byte_limit-truncate_head}
use tile.Tools.Edit.{
  EditReplacement, MatchedSpan, ReplacementApplication, EditError, EditExecutionResult,
  match_not_found, tool_error, system_error,
}
use tile.Tools.Text.{find, starts_with}
use tile.Tools.Text.Lines.{Lacks}
use tile.Tools.Edit.{not_found_error}
use tile.Tools.Edit.Endings.{strip_bom, replace_lf}
use tile.Tools.Edit.Endings.Reload.{IsUnmarked}
use tile.Tools.Edit.Endings.{load_text, stored_text, carriage_return}
use tile.Tools.Edit.Endings.RoundTrip.{stored_text-load_text}
use tile.Tools.Edit.Spans.{
  splice_text_spans, sort_spans, validate_non_overlapping, apply_exact_replacements,
  find_text_starts, text_starts,
}
use tile.Tools.Edit.Spans.Exact.{Edited}
use tile.Tools.Edit.Spans.Fuel.{find_text_starts-enough}
use tile.Tools.Edit.Files.{Files, edit_file, apply_replacements_with_fallback}
use tile.Tools.Edit.Files.Applied.{FuzzyEdited, apply_replacements_with_fallback-applied}
use tile.Tools.Edit.Files.Stored.{Unchanged, edit_file-Unchanged}
use tile.Tools.Edit.Files.Reloaded.{ReadsWritten, edit_file-reloaded}
use tile.Tools.Read.Paging.{read_pages, FitsLine, read_pages-whole}

abbrev three_lines : Text
three_lines = codes "one\ntwo\nthree"

truncate_text-Keeps_example :
    (Fits three_lines 2 6 × KeepsAll 2 6 three_lines (truncate_text three_lines tail 2 6))
    ⊎ (¬ Fits three_lines 2 6
        × KeepsMost tail 2 6 (split_lines three_lines) (truncate_text three_lines tail 2 6))
truncate_text-Keeps_example = truncate_text-Keeps 2 6 three_lines tail

tail_kept : (truncate_text three_lines tail 2 6).content ≡ codes "three"
unfolding tile.Tools.Text.encode_char tile.Tools.Text.encode tile.Tools.Text.utf8_length
    tile.Tools.Text.extend_first tile.Tools.Text.split_lines tile.Tools.Text.join_lines
    tile.Tools.Text.text_eq tile.Tools.Text.starts_with tile.Tools.Text.ends_with_newline
    tile.Tools.Text.find tile.Tools.Text.find_from tile.Tools.Text.concat
    tile.Tools.Truncation.from_truncation tile.Tools.Truncation.measure_text
    tile.Tools.Truncation.fits_limits tile.Tools.Truncation.untruncated_result
    tile.Tools.Truncation.first_line tile.Tools.Truncation.last_line tile.Tools.Truncation.edge_line
    tile.Tools.Truncation.edge_line_exceeds tile.Tools.Truncation.edge_line_exceeded_result
    tile.Tools.Truncation.truncated_result tile.Tools.Truncation.separator_bytes
    tile.Tools.Truncation.select_lines tile.Tools.Truncation.iter_lines
    tile.Tools.Truncation.select_output_lines tile.Tools.Truncation.truncate_text
    tile.Tools.Truncation.truncate_head tile.Tools.Truncation.truncate_tail
    tile.Tools.Truncation.complete_lines tile.Tools.Truncation.truncate_to_byte_limit
    tile.Tools.Truncation.truncate_line tile.Tools.Truncation.join_notices
    tile.Tools.Truncation.append_notice_block tile.Tools.Truncation.tenths
    tile.Tools.Truncation.format_tenths tile.Tools.Truncation.format_size
tail_kept = refl

truncate_to_byte_limit-truncate_head_example :
    let t = truncate_head three_lines (length (split_lines three_lines)) 8 in
    truncate_to_byte_limit three_lines 8 ≡ (t.content, t.truncated)
truncate_to_byte_limit-truncate_head_example = truncate_to_byte_limit-truncate_head three_lines 8

byte_limit_kept : truncate_to_byte_limit three_lines 8 ≡ (codes "one\ntwo", true)
unfolding truncate_to_byte_limit utf8_length tile.Tools.Text.encode tile.Tools.Text.encode_char
    join_lines tile.Tools.Truncation.complete_lines split_lines tile.Tools.Text.extend_first
    tile.Tools.Truncation.separator_bytes
byte_limit_kept = refl

fits_page : All (FitsLine 100) (split_lines three_lines)
unfolding tile.Tools.Text.encode_char tile.Tools.Text.encode tile.Tools.Text.utf8_length
    tile.Tools.Text.extend_first tile.Tools.Text.split_lines tile.Tools.Text.join_lines
    tile.Tools.Text.text_eq tile.Tools.Text.starts_with tile.Tools.Text.ends_with_newline
    tile.Tools.Text.find tile.Tools.Text.find_from tile.Tools.Text.concat
fits_page = (omega arith, (omega arith, (omega arith, tt)))

read_pages-whole_example :
    (pages : List Text) × (read_pages (length (split_lines three_lines)) 100 three_lines 2 1
      ≡ some pages)
    × (join_lines pages ≡ three_lines)
read_pages-whole_example = read_pages-whole 100 2 three_lines (omega arith) fits_page

two_pages : read_pages 3 100 three_lines 2 1 ≡ some (codes "one\ntwo" ∷ codes "three" ∷ [])
unfolding tile.Tools.Text.encode_char tile.Tools.Text.encode tile.Tools.Text.utf8_length
    tile.Tools.Text.extend_first tile.Tools.Text.split_lines tile.Tools.Text.join_lines
    tile.Tools.Text.text_eq tile.Tools.Text.starts_with tile.Tools.Text.ends_with_newline
    tile.Tools.Text.find tile.Tools.Text.find_from tile.Tools.Text.concat
    tile.Tools.Truncation.from_truncation tile.Tools.Truncation.measure_text
    tile.Tools.Truncation.fits_limits tile.Tools.Truncation.untruncated_result
    tile.Tools.Truncation.first_line tile.Tools.Truncation.last_line tile.Tools.Truncation.edge_line
    tile.Tools.Truncation.edge_line_exceeds tile.Tools.Truncation.edge_line_exceeded_result
    tile.Tools.Truncation.truncated_result tile.Tools.Truncation.separator_bytes
    tile.Tools.Truncation.select_lines tile.Tools.Truncation.iter_lines
    tile.Tools.Truncation.select_output_lines tile.Tools.Truncation.truncate_text
    tile.Tools.Truncation.truncate_head tile.Tools.Truncation.truncate_tail
    tile.Tools.Truncation.complete_lines tile.Tools.Truncation.truncate_to_byte_limit
    tile.Tools.Truncation.truncate_line tile.Tools.Truncation.join_notices
    tile.Tools.Truncation.append_notice_block tile.Tools.Truncation.tenths
    tile.Tools.Truncation.format_tenths tile.Tools.Truncation.format_size
    tile.Tools.Read.decimal_int tile.Tools.Read.decimal_offset tile.Tools.Read.start_index
    tile.Tools.Read.at_least_one tile.Tools.Read.select_content
    tile.Tools.Read.format_first_line_too_large tile.Tools.Read.truncation_notice
    tile.Tools.Read.next_offset tile.Tools.Read.format_truncated_selection
    tile.Tools.Read.build_output_text tile.Tools.Read.build_details tile.Tools.Read.build_result
    tile.Tools.Read.Paging.read_pages
two_pages = refl

abbrev mixed : Text
mixed = codes "a = 1\r\nb = 2  \r\n"

abbrev change : String → String → EditReplacement
change old new = record { old_text = codes old; new_text = codes new }

abbrev as_is : Text → Text
as_is text = text

mixed_lf : Lacks carriage_return (codes "a = 1\nb = 2  \n")
mixed_lf = ground arith

mixed_crlf : (strip_bom mixed).1 ≡ replace_lf (codes "a = 1\nb = 2  \n")
unfolding strip_bom replace_lf starts_with
mixed_crlf = refl

stored_text-load_text_example :
    let loaded = load_text mixed in stored_text loaded loaded.content ≡ mixed
stored_text-load_text_example =
    stored_text-load_text mixed (inr (codes "a = 1\nb = 2  \n", mixed_lf, mixed_crlf))

abbrev plain : Text
plain = codes "a = 1\nb = 2  \n"

-- Two edits in the other order than in the text.
abbrev two_edits : List EditReplacement
two_edits = change "2" "3" ∷ change "a" "x" ∷ []

abbrev exact_application : ReplacementApplication
exact_application = record { base_content = plain; new_content = codes "x = 1\nb = 3  \n" }

exact_applied : apply_replacements_with_fallback as_is plain two_edits "p" ≡ ok exact_application
unfolding tile.Tools.Text.encode_char tile.Tools.Text.encode tile.Tools.Text.utf8_length
    tile.Tools.Text.extend_first tile.Tools.Text.split_lines tile.Tools.Text.join_lines
    tile.Tools.Text.text_eq tile.Tools.Text.starts_with tile.Tools.Text.ends_with_newline
    tile.Tools.Text.find tile.Tools.Text.find_from tile.Tools.Text.concat
    tile.Tools.Edit.Endings.strip_bom tile.Tools.Edit.Endings.detect_line_ending
    tile.Tools.Edit.Endings.replace_crlf tile.Tools.Edit.Endings.replace_cr
    tile.Tools.Edit.Endings.replace_lf tile.Tools.Edit.Endings.normalize_to_lf
    tile.Tools.Edit.Endings.restore_line_endings tile.Tools.Edit.Endings.load_text
    tile.Tools.Edit.Endings.stored_text tile.Tools.Edit.Spans.text_starts
    tile.Tools.Edit.Spans.find_text_starts tile.Tools.Edit.Spans.require_unique_match
    tile.Tools.Edit.Spans.exact_span tile.Tools.Edit.Spans.exact_spans
    tile.Tools.Edit.Spans.insert_span tile.Tools.Edit.Spans.sort_spans
    tile.Tools.Edit.Spans.sort_spans_reverse tile.Tools.Edit.Spans.check_pairs
    tile.Tools.Edit.Spans.validate_non_overlapping tile.Tools.Edit.Spans.match_exact_spans
    tile.Tools.Edit.Spans.replace_span tile.Tools.Edit.Spans.replace_spans
    tile.Tools.Edit.Spans.splice_text_spans tile.Tools.Edit.Spans.build_application
    tile.Tools.Edit.Spans.apply_exact_replacements tile.Tools.Edit.Files.check_old_texts
    tile.Tools.Edit.Files.validate_non_empty_old_text tile.Tools.Edit.Files.on_match_not_found
    tile.Tools.Edit.Files.apply_replacements_with_fallback tile.Tools.Edit.Files.write_edited
    tile.Tools.Edit.Files.edit_loaded tile.Tools.Edit.Files.edit_read
    tile.Tools.Edit.Files.edit_file tile.Tools.Edit.Files.as_tool_error
    tile.Tools.Edit.Files.edit_result tile.Tools.Edit.Files.edit
exact_applied = refl

apply_replacements_with_fallback-applied_example :
    Edited plain two_edits exact_application
    ⊎ ((message : String) × (apply_exact_replacements plain two_edits "p"
          ≡ err (match_not_found message))
        × FuzzyEdited as_is plain two_edits exact_application)
apply_replacements_with_fallback-applied_example =
    apply_replacements_with_fallback-applied as_is plain two_edits "p" exact_application
      exact_applied

-- The line has blanks at its end that the old text does not have.
fuzzy_applied :
    apply_replacements_with_fallback as_is plain (change "b = 2\n" "c\n" ∷ []) "p"
    ≡ ok (record { base_content = plain; new_content = codes "a = 1\nc\n" })
unfolding tile.Tools.Text.encode_char tile.Tools.Text.encode tile.Tools.Text.utf8_length
    tile.Tools.Text.extend_first tile.Tools.Text.split_lines tile.Tools.Text.join_lines
    tile.Tools.Text.text_eq tile.Tools.Text.starts_with tile.Tools.Text.ends_with_newline
    tile.Tools.Text.find tile.Tools.Text.find_from tile.Tools.Text.concat
    tile.Tools.Edit.Endings.strip_bom tile.Tools.Edit.Endings.detect_line_ending
    tile.Tools.Edit.Endings.replace_crlf tile.Tools.Edit.Endings.replace_cr
    tile.Tools.Edit.Endings.replace_lf tile.Tools.Edit.Endings.normalize_to_lf
    tile.Tools.Edit.Endings.restore_line_endings tile.Tools.Edit.Endings.load_text
    tile.Tools.Edit.Endings.stored_text tile.Tools.Edit.Spans.text_starts
    tile.Tools.Edit.Spans.find_text_starts tile.Tools.Edit.Spans.require_unique_match
    tile.Tools.Edit.Spans.exact_span tile.Tools.Edit.Spans.exact_spans
    tile.Tools.Edit.Spans.insert_span tile.Tools.Edit.Spans.sort_spans
    tile.Tools.Edit.Spans.sort_spans_reverse tile.Tools.Edit.Spans.check_pairs
    tile.Tools.Edit.Spans.validate_non_overlapping tile.Tools.Edit.Spans.match_exact_spans
    tile.Tools.Edit.Spans.replace_span tile.Tools.Edit.Spans.replace_spans
    tile.Tools.Edit.Spans.splice_text_spans tile.Tools.Edit.Spans.build_application
    tile.Tools.Edit.Spans.apply_exact_replacements tile.Tools.Edit.Files.check_old_texts
    tile.Tools.Edit.Files.validate_non_empty_old_text tile.Tools.Edit.Files.on_match_not_found
    tile.Tools.Edit.Files.apply_replacements_with_fallback tile.Tools.Edit.Files.write_edited
    tile.Tools.Edit.Files.edit_loaded tile.Tools.Edit.Files.edit_read
    tile.Tools.Edit.Files.edit_file tile.Tools.Edit.Files.as_tool_error
    tile.Tools.Edit.Files.edit_result tile.Tools.Edit.Files.edit tile.Tools.Edit.Fuzzy.is_space
    tile.Tools.Edit.Fuzzy.rstrip tile.Tools.Edit.Fuzzy.strip_trailing_line_whitespace
    tile.Tools.Edit.Fuzzy.smart_single_quote tile.Tools.Edit.Fuzzy.smart_double_quote
    tile.Tools.Edit.Fuzzy.unicode_dash tile.Tools.Edit.Fuzzy.fuzzy_unicode_space
    tile.Tools.Edit.Fuzzy.substitute tile.Tools.Edit.Fuzzy.normalize_for_fuzzy_match
    tile.Tools.Edit.Fuzzy.terminated_parts tile.Tools.Edit.Fuzzy.terminated_lines
    tile.Tools.Edit.Fuzzy.offsets_from tile.Tools.Edit.Fuzzy.line_start_offsets
    tile.Tools.Edit.Fuzzy.line_at tile.Tools.Edit.Fuzzy.offset_at
    tile.Tools.Edit.Fuzzy.window_char_span tile.Tools.Edit.Fuzzy.last_window_line_matches
    tile.Tools.Edit.Fuzzy.lines_eq tile.Tools.Edit.Fuzzy.window_head
    tile.Tools.Edit.Fuzzy.window_last tile.Tools.Edit.Fuzzy.window_matches_at
    tile.Tools.Edit.Fuzzy.range_from tile.Tools.Edit.Fuzzy.find_window_starts
    tile.Tools.Edit.Fuzzy.old_window tile.Tools.Edit.Fuzzy.fuzzy_span
    tile.Tools.Edit.Fuzzy.fuzzy_spans tile.Tools.Edit.Fuzzy.match_fuzzy_spans
    tile.Tools.Edit.Fuzzy.apply_fuzzy_replacements
fuzzy_applied = refl

abbrev two_spans : List MatchedSpan
two_spans =
    record { edit_index = 0; start = 10; end = 11; replacement = codes "3" }
    ∷ record { edit_index = 1; start = 0; end = 1; replacement = codes "x" }
    ∷ []

find_text_starts-enough_example :
    text_starts 30 (codes "abab") (codes "ab") (find (codes "abab") (codes "ab"))
    ≡ find_text_starts (codes "abab") (codes "ab")
find_text_starts-enough_example =
    find_text_starts-enough 30 (codes "abab") (codes "ab") (omega arith) (omega arith)

-- Occurrences that overlap are counted once.
overlapping_occurrences : find_text_starts (codes "aaa") (codes "aa") ≡ 0 ∷ []
unfolding find_text_starts text_starts find starts_with tile.Tools.Text.find_from
overlapping_occurrences = refl

-- One file.
abbrev one_file : Files Text
one_file = record {
  read_text = λ path w. ok w;
  write_text = λ path text w. (ok tt, text);
  nfkc = as_is;
  unified_diff = λ old new path. [];
}

one_file-ReadsWritten : ReadsWritten one_file
one_file-ReadsWritten path text w h = refl

abbrev done : EditExecutionResult
done = record { path = "p"; replacement_count = 2; diff = [] }

loaded_applied :
    apply_replacements_with_fallback as_is (load_text mixed).content two_edits "p"
    ≡ ok exact_application
unfolding tile.Tools.Text.encode_char tile.Tools.Text.encode tile.Tools.Text.utf8_length
    tile.Tools.Text.extend_first tile.Tools.Text.split_lines tile.Tools.Text.join_lines
    tile.Tools.Text.text_eq tile.Tools.Text.starts_with tile.Tools.Text.ends_with_newline
    tile.Tools.Text.find tile.Tools.Text.find_from tile.Tools.Text.concat
    tile.Tools.Edit.Endings.strip_bom tile.Tools.Edit.Endings.detect_line_ending
    tile.Tools.Edit.Endings.replace_crlf tile.Tools.Edit.Endings.replace_cr
    tile.Tools.Edit.Endings.replace_lf tile.Tools.Edit.Endings.normalize_to_lf
    tile.Tools.Edit.Endings.restore_line_endings tile.Tools.Edit.Endings.load_text
    tile.Tools.Edit.Endings.stored_text tile.Tools.Edit.Spans.text_starts
    tile.Tools.Edit.Spans.find_text_starts tile.Tools.Edit.Spans.require_unique_match
    tile.Tools.Edit.Spans.exact_span tile.Tools.Edit.Spans.exact_spans
    tile.Tools.Edit.Spans.insert_span tile.Tools.Edit.Spans.sort_spans
    tile.Tools.Edit.Spans.sort_spans_reverse tile.Tools.Edit.Spans.check_pairs
    tile.Tools.Edit.Spans.validate_non_overlapping tile.Tools.Edit.Spans.match_exact_spans
    tile.Tools.Edit.Spans.replace_span tile.Tools.Edit.Spans.replace_spans
    tile.Tools.Edit.Spans.splice_text_spans tile.Tools.Edit.Spans.build_application
    tile.Tools.Edit.Spans.apply_exact_replacements tile.Tools.Edit.Files.check_old_texts
    tile.Tools.Edit.Files.validate_non_empty_old_text tile.Tools.Edit.Files.on_match_not_found
    tile.Tools.Edit.Files.apply_replacements_with_fallback tile.Tools.Edit.Files.write_edited
    tile.Tools.Edit.Files.edit_loaded tile.Tools.Edit.Files.edit_read
    tile.Tools.Edit.Files.edit_file tile.Tools.Edit.Files.as_tool_error
    tile.Tools.Edit.Files.edit_result tile.Tools.Edit.Files.edit
loaded_applied = refl

edited_file : (edit_file one_file "p" two_edits "p" mixed).0 ≡ ok done
unfolding tile.Tools.Text.encode_char tile.Tools.Text.encode tile.Tools.Text.utf8_length
    tile.Tools.Text.extend_first tile.Tools.Text.split_lines tile.Tools.Text.join_lines
    tile.Tools.Text.text_eq tile.Tools.Text.starts_with tile.Tools.Text.ends_with_newline
    tile.Tools.Text.find tile.Tools.Text.find_from tile.Tools.Text.concat
    tile.Tools.Edit.Endings.strip_bom tile.Tools.Edit.Endings.detect_line_ending
    tile.Tools.Edit.Endings.replace_crlf tile.Tools.Edit.Endings.replace_cr
    tile.Tools.Edit.Endings.replace_lf tile.Tools.Edit.Endings.normalize_to_lf
    tile.Tools.Edit.Endings.restore_line_endings tile.Tools.Edit.Endings.load_text
    tile.Tools.Edit.Endings.stored_text tile.Tools.Edit.Spans.text_starts
    tile.Tools.Edit.Spans.find_text_starts tile.Tools.Edit.Spans.require_unique_match
    tile.Tools.Edit.Spans.exact_span tile.Tools.Edit.Spans.exact_spans
    tile.Tools.Edit.Spans.insert_span tile.Tools.Edit.Spans.sort_spans
    tile.Tools.Edit.Spans.sort_spans_reverse tile.Tools.Edit.Spans.check_pairs
    tile.Tools.Edit.Spans.validate_non_overlapping tile.Tools.Edit.Spans.match_exact_spans
    tile.Tools.Edit.Spans.replace_span tile.Tools.Edit.Spans.replace_spans
    tile.Tools.Edit.Spans.splice_text_spans tile.Tools.Edit.Spans.build_application
    tile.Tools.Edit.Spans.apply_exact_replacements tile.Tools.Edit.Files.check_old_texts
    tile.Tools.Edit.Files.validate_non_empty_old_text tile.Tools.Edit.Files.on_match_not_found
    tile.Tools.Edit.Files.apply_replacements_with_fallback tile.Tools.Edit.Files.write_edited
    tile.Tools.Edit.Files.edit_loaded tile.Tools.Edit.Files.edit_read
    tile.Tools.Edit.Files.edit_file tile.Tools.Edit.Files.as_tool_error
    tile.Tools.Edit.Files.edit_result tile.Tools.Edit.Files.edit
edited_file = refl

unmarked : IsUnmarked exact_application.new_content
unfolding starts_with
unmarked = refl

edit_file-reloaded_example :
    (text : Text) × (one_file.read_text "p" (edit_file one_file "p" two_edits "p" mixed).1
      ≡ ok text)
    × ((load_text text).content ≡ exact_application.new_content)
    × ((load_text text).bom ≡ (load_text mixed).bom)
edit_file-reloaded_example =
    edit_file-reloaded one_file one_file-ReadsWritten "p" two_edits "p" mixed mixed
      exact_application done refl loaded_applied edited_file unmarked

abbrev absent : EditReplacement
absent = change "zzz" "y"

abbrev not_found : EditError
not_found = match_not_found (not_found_error "p" 0 1)

absent_edit : (edit_file one_file "p" (absent ∷ []) "p" mixed).0 ≡ err not_found
unfolding tile.Tools.Text.encode_char tile.Tools.Text.encode tile.Tools.Text.utf8_length
    tile.Tools.Text.extend_first tile.Tools.Text.split_lines tile.Tools.Text.join_lines
    tile.Tools.Text.text_eq tile.Tools.Text.starts_with tile.Tools.Text.ends_with_newline
    tile.Tools.Text.find tile.Tools.Text.find_from tile.Tools.Text.concat
    tile.Tools.Edit.Endings.strip_bom tile.Tools.Edit.Endings.detect_line_ending
    tile.Tools.Edit.Endings.replace_crlf tile.Tools.Edit.Endings.replace_cr
    tile.Tools.Edit.Endings.replace_lf tile.Tools.Edit.Endings.normalize_to_lf
    tile.Tools.Edit.Endings.restore_line_endings tile.Tools.Edit.Endings.load_text
    tile.Tools.Edit.Endings.stored_text tile.Tools.Edit.Spans.text_starts
    tile.Tools.Edit.Spans.find_text_starts tile.Tools.Edit.Spans.require_unique_match
    tile.Tools.Edit.Spans.exact_span tile.Tools.Edit.Spans.exact_spans
    tile.Tools.Edit.Spans.insert_span tile.Tools.Edit.Spans.sort_spans
    tile.Tools.Edit.Spans.sort_spans_reverse tile.Tools.Edit.Spans.check_pairs
    tile.Tools.Edit.Spans.validate_non_overlapping tile.Tools.Edit.Spans.match_exact_spans
    tile.Tools.Edit.Spans.replace_span tile.Tools.Edit.Spans.replace_spans
    tile.Tools.Edit.Spans.splice_text_spans tile.Tools.Edit.Spans.build_application
    tile.Tools.Edit.Spans.apply_exact_replacements tile.Tools.Edit.Files.check_old_texts
    tile.Tools.Edit.Files.validate_non_empty_old_text tile.Tools.Edit.Files.on_match_not_found
    tile.Tools.Edit.Files.apply_replacements_with_fallback tile.Tools.Edit.Files.write_edited
    tile.Tools.Edit.Files.edit_loaded tile.Tools.Edit.Files.edit_read
    tile.Tools.Edit.Files.edit_file tile.Tools.Edit.Files.as_tool_error
    tile.Tools.Edit.Files.edit_result tile.Tools.Edit.Files.edit tile.Tools.Edit.Fuzzy.is_space
    tile.Tools.Edit.Fuzzy.rstrip tile.Tools.Edit.Fuzzy.strip_trailing_line_whitespace
    tile.Tools.Edit.Fuzzy.smart_single_quote tile.Tools.Edit.Fuzzy.smart_double_quote
    tile.Tools.Edit.Fuzzy.unicode_dash tile.Tools.Edit.Fuzzy.fuzzy_unicode_space
    tile.Tools.Edit.Fuzzy.substitute tile.Tools.Edit.Fuzzy.normalize_for_fuzzy_match
    tile.Tools.Edit.Fuzzy.terminated_parts tile.Tools.Edit.Fuzzy.terminated_lines
    tile.Tools.Edit.Fuzzy.offsets_from tile.Tools.Edit.Fuzzy.line_start_offsets
    tile.Tools.Edit.Fuzzy.line_at tile.Tools.Edit.Fuzzy.offset_at
    tile.Tools.Edit.Fuzzy.window_char_span tile.Tools.Edit.Fuzzy.last_window_line_matches
    tile.Tools.Edit.Fuzzy.lines_eq tile.Tools.Edit.Fuzzy.window_head
    tile.Tools.Edit.Fuzzy.window_last tile.Tools.Edit.Fuzzy.window_matches_at
    tile.Tools.Edit.Fuzzy.range_from tile.Tools.Edit.Fuzzy.find_window_starts
    tile.Tools.Edit.Fuzzy.old_window tile.Tools.Edit.Fuzzy.fuzzy_span
    tile.Tools.Edit.Fuzzy.fuzzy_spans tile.Tools.Edit.Fuzzy.match_fuzzy_spans
    tile.Tools.Edit.Fuzzy.apply_fuzzy_replacements tile.Tools.Edit.not_found_error
    tile.Tools.Edit.duplicate_error tile.Tools.Edit.empty_old_text_error
    tile.Tools.Edit.overlap_error tile.Tools.Edit.no_change_error
absent_edit = refl

edit_file-Unchanged_example :
    Unchanged one_file "p" mixed not_found (edit_file one_file "p" (absent ∷ []) "p" mixed).1
edit_file-Unchanged_example =
    edit_file-Unchanged one_file "p" (absent ∷ []) "p" mixed not_found absent_edit
