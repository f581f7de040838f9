-- ===== src/Examples/Searches.antt =====
-- A search whose events are raw lines of one letter: m is a match, c a context line.
use tile.Prelude.{◌≡◌, refl, Option, none, some, [], ◌∷◌, ◌==◌, if◌then◌else◌, decimal, ok, err}
use tile.Tools.Grep.Limit.{CutAt, event_lines, parse_output-CutAt}
use tile.Tools.Text.{
  Text, codes, extend_first, join_lines, encode, encode_char, text_eq, utf8_length, split_lines,
  starts_with,
}
use tile.Tools.Text.Breaks.{splitlines, is_line_boundary}
use tile.Tools.Read.{pos, decimal_int}
use tile.Tools.Truncation.{
  append_notice_block, truncate_head, truncate_text, fits_limits, measure_text, edge_line,
  edge_line_exceeded_result, edge_line_exceeds, first_line, from_truncation, iter_lines,
  join_notices, last_line, select_lines, select_output_lines, separator_bytes, truncate_line,
  truncated_result, untruncated_result,
}
use tile.Tools.Grep.{
  LineKind, match_line, context_line, SearchEvent, build_result, parse_output, parse_lines,
  parse_line, build_line, build_found, build_notices, any_truncated, build_details, format_line,
  rstrip_newlines,
}
use tile.Tools.Find
use tile.Tools.Ls
use tile.Tools.Executables.{execute, exit_code_in, text_or, read_capped_stdout, read_capped_stderr}

abbrev event_of : LineKind → SearchEvent
event_of kind = record {
  kind = kind;
  data_fields = record { path = codes "a"; line_number = pos 7; lines = codes "x\n" };
}

abbrev validate_letter : Text → Option SearchEvent
validate_letter [] = none
validate_letter (c ∷ raw_line) =
    if c == 109
    then some (event_of match_line)
    else if c == 99
    then some (event_of context_line)
    else none

three_matches :
    (build_result validate_letter (codes "m\n?\r\nc\nm\nm\n") 2).0
    ≡ codes
        "a:7: x\na-7- x\na:7: x\n\n[2 matches limit reached. Use limit=4 for more, or refine pattern]"
unfolding build_result parse_output parse_lines splitlines is_line_boundary extend_first parse_line
    build_line build_found append_notice_block build_notices truncate_head truncate_text fits_limits
    measure_text split_lines join_lines decimal any_truncated build_details format_line
    rstrip_newlines decimal_int encode encode_char text_eq utf8_length edge_line
    edge_line_exceeded_result edge_line_exceeds first_line from_truncation iter_lines join_notices
    last_line select_lines select_output_lines separator_bytes truncate_line truncated_result
    untruncated_result
three_matches = refl

no_match : (build_result validate_letter (codes "?") 2).0 ≡ codes "No matches found"
unfolding build_result parse_output parse_lines splitlines parse_line is_line_boundary
no_match = refl

found_paths : (Find.build_result (codes "./b\\c\r\n\nd\n") 10).0 ≡ codes "b/c\nd"
unfolding Find.build_result Find.normalized_paths Find.normalize_path Find.rstrip_returns
    Find.replace_backslashes Find.limit_notices Find.build_details append_notice_block truncate_head
    truncate_text fits_limits measure_text select_lines select_output_lines separator_bytes
    iter_lines truncated_result untruncated_result edge_line edge_line_exceeds
    edge_line_exceeded_result first_line from_truncation join_notices encode encode_char utf8_length
    split_lines join_lines extend_first splitlines is_line_boundary decimal text_eq starts_with
found_paths = refl

full_pattern : Find.build_effective_pattern (codes "src/*.py") ≡ codes "**/src/*.py"
unfolding Find.build_effective_pattern Find.matches_full_path starts_with
full_pattern = refl

listed :
    (Ls.build_result (codes "a" ∷ codes "b/" ∷ []) 1).0
    ≡ codes "a\n\n[1 entries limit reached. Use limit=2 for more]"
unfolding Ls.build_result Ls.limit_notices Ls.build_details append_notice_block truncate_head
    truncate_text fits_limits measure_text select_lines select_output_lines separator_bytes
    iter_lines truncated_result untruncated_result edge_line edge_line_exceeds
    edge_line_exceeded_result first_line from_truncation join_notices encode encode_char utf8_length
    split_lines join_lines extend_first splitlines is_line_boundary decimal text_eq starts_with
listed = refl

failed :
    execute
      (λ bytes. bytes)
      (λ text. text)
      (ok (record { executable = codes "rg"; stdout = []; stderr = []; exit_code = pos 2 }))
      (0 ∷ 1 ∷ [])
    ≡ err (codes "rg exited with code 2")
unfolding execute exit_code_in text_or read_capped_stdout read_capped_stderr decimal_int decimal
failed = refl

parse_output-CutAt_example :
    CutAt 2
      (event_lines validate_letter (splitlines (codes "m\n?\r\nc\nm\nm\n")))
      (parse_output validate_letter (codes "m\n?\r\nc\nm\nm\n") 2)
parse_output-CutAt_example = parse_output-CutAt validate_letter (codes "m\n?\r\nc\nm\nm\n") 2
