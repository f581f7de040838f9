-- ===== src/Tools/Read.antt =====
-- tile/tools/read.py: the selection and the output of a text file.
pub mod Images
pub mod Variants
pub mod Paging
use tile.Prelude.{
  ℕ, suc, ◌+◌, ◌-◌, not, Option, none, some, [], ◌∷◌, ◌++◌, leb, if◌then◌else◌, decimal, length,
  drop, Result, ok, err, ◌>>=◌, ◌>>◌, max,
}
use tile.Tools.Text.{Text, codes, utf8_length, split_lines, join_lines}
use tile.Tools.Truncation.{
  Truncation, TruncationReason, by_lines, by_bytes, ToolOutputDetails, from_truncation,
  truncate_head, output_byte_limit, output_byte_limit_label, append_notice_block, format_size,
  first_line,
}

-- Python's integers.
pub data ℤ : Type 0 where
  pos : ℕ → ℤ
  negsuc : ℕ → ℤ

unfoldable pub decimal_int : ℤ → Text
decimal_int (pos n) = codes (decimal n)
decimal_int (negsuc n) = codes "-" ++ codes (decimal (suc n))

unfoldable pub decimal_offset : Option ℤ → Text
decimal_offset none = codes "None"
decimal_offset (some offset) = decimal_int offset

pub record ReadSelection : Type 0 where
  pub content : Text
  pub start_line : ℕ
  pub total_lines : ℕ

-- `max(0, offset - 1)`
unfoldable pub start_index : Option ℤ → ℕ
start_index none = 0
start_index (some (pos n)) = n - 1
start_index (some (negsuc n)) = 0

-- `max(1, limit)`
unfoldable pub at_least_one : ℤ → ℕ
at_least_one (pos n) = max 1 n
at_least_one (negsuc n) = 1

-- The error is the message of a `ToolError`.
unfoldable pub select_content : Text → Option ℤ → Result Text ReadSelection
select_content content offset =
    let lines = split_lines content in
    let start = start_index offset in
    if leb (length lines) start
    then err (
        codes "Offset "
        ++ decimal_offset offset
        ++ codes " is beyond end of file ("
        ++ codes (decimal (length lines))
        ++ codes " lines total)")
    else ok (record {
      content = join_lines (drop start lines);
      start_line = start + 1;
      total_lines = length lines;
    })

unfoldable pub format_first_line_too_large : ReadSelection → Text → Text
format_first_line_too_large selection path =
    let line = codes (decimal selection.start_line) in
    codes "[Line "
    ++ line
    ++ codes " is "
    ++ format_size (utf8_length (first_line (split_lines selection.content)))
    ++ codes ", exceeds "
    ++ output_byte_limit_label
    ++ codes " limit. Use bash: sed -n '"
    ++ line
    ++ codes "p' "
    ++ path
    ++ codes " | head -c "
    ++ codes (decimal output_byte_limit)
    ++ codes "]"

unfoldable pub truncation_notice : ReadSelection → Truncation → ℕ → ℕ → Text
truncation_notice selection truncation end_line next_offset =
    let lines =
      codes "Showing lines "
      ++ codes (decimal selection.start_line)
      ++ codes "-"
      ++ codes (decimal end_line)
      ++ codes " of "
      ++ codes (decimal selection.total_lines) in
    elim truncation.truncated_by [
      | some by_lines ↦
          lines ++ codes ". Use offset=" ++ codes (decimal next_offset) ++ codes " to continue."
      | _ ↦
          lines
          ++ codes " ("
          ++ output_byte_limit_label
          ++ codes " limit). Use offset="
          ++ codes (decimal next_offset)
          ++ codes " to continue."
    ]

-- `next_offset` of `_format_truncated_selection`; `end_line` is one less.
unfoldable pub next_offset : ReadSelection → Truncation → ℕ
next_offset selection truncation = selection.start_line + truncation.output_lines - 1 + 1

unfoldable pub format_truncated_selection : ReadSelection → Truncation → Text
format_truncated_selection selection truncation =
    let end_line = selection.start_line + truncation.output_lines - 1 in
    let next = next_offset selection truncation in
    append_notice_block truncation.content
      (truncation_notice selection truncation end_line next ∷ [])

unfoldable pub build_output_text : ReadSelection → Truncation → Text → Text
build_output_text selection truncation path =
    if truncation.edge_line_exceeds_limit
    then format_first_line_too_large selection path
    else if truncation.truncated
    then format_truncated_selection selection truncation
    else truncation.content

unfoldable pub build_details : Truncation → Option ToolOutputDetails
build_details truncation =
    let output_details = from_truncation truncation in
    if not output_details.truncated then none else some output_details

-- `_build_result`: the text of the result and its details.
unfoldable pub build_result :
    Text → Option ℤ → Text → ℕ → Result Text (Text × Option ToolOutputDetails)
build_result content offset path limit = do
  selection ← select_content content offset
  let truncation = truncate_head selection.content limit output_byte_limit
  ok (build_output_text selection truncation path, build_details truncation)
