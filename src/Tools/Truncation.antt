-- ===== src/Tools/Truncation.antt =====
-- tile/tools/support/truncation.py, with the types of tile/tool_truncation.py.
pub mod Selection
pub mod Kept
pub mod ByteLimit
use tile.Prelude.{
  ℕ, suc, ◌+◌, ◌*◌, ◌/◌, ◌%◌, Bool, true, false, ◌&&◌, Option, none, some, List, [], ◌∷◌, ◌++◌,
  reverse, ltb, leb, if◌then◌else◌, decimal, length, take,
}
use tile.Tools.Text.{Text, utf8_length, split_lines, join_lines, codes}

pub data TruncationReason : Type 0 where
  by_lines by_bytes : TruncationReason

pub data TruncationKeep : Type 0 where
  head tail : TruncationKeep

pub record Truncation : Type 0 where
  pub content : Text
  pub truncated : Bool
  pub truncated_by : Option TruncationReason
  pub keep : TruncationKeep
  pub total_lines : ℕ
  pub total_bytes : ℕ
  pub output_lines : ℕ
  pub output_bytes : ℕ
  pub edge_line_exceeds_limit : Bool
  pub max_lines : ℕ
  pub max_bytes : ℕ

pub record ToolOutputDetails : Type 0 where
  pub truncated : Bool
  pub truncated_by : Option TruncationReason
  pub keep : TruncationKeep
  pub total_lines : ℕ
  pub total_bytes : ℕ
  pub output_lines : ℕ
  pub output_bytes : ℕ
  pub edge_line_exceeds_limit : Bool
  pub max_lines : ℕ
  pub max_bytes : ℕ

unfoldable pub from_truncation : Truncation → ToolOutputDetails
from_truncation t = record {
  truncated = t.truncated;
  truncated_by = t.truncated_by;
  keep = t.keep;
  total_lines = t.total_lines;
  total_bytes = t.total_bytes;
  output_lines = t.output_lines;
  output_bytes = t.output_bytes;
  edge_line_exceeds_limit = t.edge_line_exceeds_limit;
  max_lines = t.max_lines;
  max_bytes = t.max_bytes;
}

abbrev pub output_line_limit : ℕ
output_line_limit = 2000

abbrev pub output_byte_limit : ℕ
output_byte_limit = 50 * 1024

abbrev pub output_byte_limit_label : Text
output_byte_limit_label = codes "50.0KB"

abbrev pub grep_line_character_limit : ℕ
grep_line_character_limit = 500

pub record TextMeasurements : Type 0 where
  pub lines : List Text
  pub total_lines : ℕ
  pub total_bytes : ℕ

unfoldable pub measure_text : Text → TextMeasurements
measure_text text =
    let lines = split_lines text in
    record { lines = lines; total_lines = length lines; total_bytes = utf8_length text }

unfoldable pub fits_limits : TextMeasurements → ℕ → ℕ → Bool
fits_limits m max_lines max_bytes = leb m.total_lines max_lines && leb m.total_bytes max_bytes

unfoldable pub untruncated_result : Text → TextMeasurements → TruncationKeep → ℕ → ℕ → Truncation
untruncated_result text m keep max_lines max_bytes = record {
  content = text;
  truncated = false;
  truncated_by = none;
  keep = keep;
  total_lines = m.total_lines;
  total_bytes = m.total_bytes;
  output_lines = m.total_lines;
  output_bytes = m.total_bytes;
  edge_line_exceeds_limit = false;
  max_lines = max_lines;
  max_bytes = max_bytes;
}

-- `lines[0]` or `lines[-1]`; the lines of a text are never none.
unfoldable pub first_line : List Text → Text
first_line [] = []
first_line (line ∷ lines) = line

unfoldable pub last_line : List Text → Text
last_line [] = []
last_line (line ∷ []) = line
last_line (line ∷ next ∷ lines) = last_line (next ∷ lines)

unfoldable pub edge_line : List Text → TruncationKeep → Text
edge_line lines head = first_line lines
edge_line lines tail = last_line lines

unfoldable pub edge_line_exceeds : List Text → TruncationKeep → ℕ → Bool
edge_line_exceeds lines keep max_bytes = ltb max_bytes (utf8_length (edge_line lines keep))

unfoldable pub edge_line_exceeded_result : TextMeasurements → TruncationKeep → ℕ → ℕ → Truncation
edge_line_exceeded_result m keep max_lines max_bytes = record {
  content = [];
  truncated = true;
  truncated_by = some by_bytes;
  keep = keep;
  total_lines = m.total_lines;
  total_bytes = m.total_bytes;
  output_lines = 0;
  output_bytes = 0;
  edge_line_exceeds_limit = true;
  max_lines = max_lines;
  max_bytes = max_bytes;
}

unfoldable pub truncated_result :
    List Text → TruncationReason → TextMeasurements → TruncationKeep → ℕ → ℕ → Truncation
truncated_result output_lines truncated_by m keep max_lines max_bytes =
    let content = join_lines output_lines in
    record {
      content = content;
      truncated = true;
      truncated_by = some truncated_by;
      keep = keep;
      total_lines = m.total_lines;
      total_bytes = m.total_bytes;
      output_lines = length output_lines;
      output_bytes = utf8_length content;
      edge_line_exceeds_limit = false;
      max_lines = max_lines;
      max_bytes = max_bytes;
    }

-- `1 if output_lines else 0`
unfoldable pub separator_bytes : List Text → ℕ
separator_bytes [] = 0
separator_bytes (line ∷ lines) = 1

-- The loop over the lines from the retained edge, with its two variables.
unfoldable pub select_lines : ℕ → ℕ → List Text → List Text → ℕ → List Text × TruncationReason
select_lines max_lines max_bytes [] output_lines output_bytes = (output_lines, by_lines)
select_lines max_lines max_bytes (line ∷ lines) output_lines output_bytes =
    let size = output_bytes + separator_bytes output_lines + utf8_length line in
    let rest = select_lines max_lines max_bytes lines (output_lines ++ line ∷ []) size in
    if leb max_lines (length output_lines)
    then (output_lines, by_lines)
    else if ltb max_bytes size
    then (output_lines, by_bytes)
    else rest

unfoldable pub iter_lines : List Text → TruncationKeep → List Text
iter_lines lines head = lines
iter_lines lines tail = reverse lines

unfoldable pub select_output_lines :
    List Text → TruncationKeep → ℕ → ℕ → List Text × TruncationReason
select_output_lines lines keep max_lines max_bytes =
    let selected = select_lines max_lines max_bytes (iter_lines lines keep) [] 0 in
    (iter_lines (selected.0) keep, selected.1)

unfoldable pub truncate_text : Text → TruncationKeep → ℕ → ℕ → Truncation
truncate_text text keep max_lines max_bytes =
    let m = measure_text text in
    let selected = select_output_lines m.lines keep max_lines max_bytes in
    if fits_limits m max_lines max_bytes
    then untruncated_result text m keep max_lines max_bytes
    else if edge_line_exceeds m.lines keep max_bytes
    then edge_line_exceeded_result m keep max_lines max_bytes
    else truncated_result (selected.0) (selected.1) m keep max_lines max_bytes

unfoldable pub truncate_head : Text → ℕ → ℕ → Truncation
truncate_head text max_lines max_bytes = truncate_text text head max_lines max_bytes

unfoldable pub truncate_tail : Text → ℕ → ℕ → Truncation
truncate_tail text max_lines max_bytes = truncate_text text tail max_lines max_bytes

-- The loop of `truncate_to_byte_limit`.
unfoldable pub complete_lines : ℕ → List Text → List Text → ℕ → List Text
complete_lines byte_limit [] output_lines output_bytes = output_lines
complete_lines byte_limit (line ∷ lines) output_lines output_bytes =
    let size = output_bytes + separator_bytes output_lines + utf8_length line in
    let rest = complete_lines byte_limit lines (output_lines ++ line ∷ []) size in
    if ltb byte_limit size then output_lines else rest

unfoldable pub truncate_to_byte_limit : Text → ℕ → Text × Bool
truncate_to_byte_limit text byte_limit =
    if leb (utf8_length text) byte_limit
    then (text, false)
    else (join_lines (complete_lines byte_limit (split_lines text) [] 0), true)

unfoldable pub truncate_line : Text → ℕ → Text × Bool
truncate_line line character_limit =
    if leb (length line) character_limit
    then (line, false)
    else (take character_limit line ++ codes "... [truncated]", true)

-- `". ".join(notices)`
unfoldable pub join_notices : List Text → Text
join_notices [] = []
join_notices (notice ∷ []) = notice
join_notices (notice ∷ next ∷ notices) = notice ++ codes ". " ++ join_notices (next ∷ notices)

unfoldable pub append_notice_block : Text → List Text → Text
append_notice_block text [] = text
append_notice_block text (notice ∷ notices) =
    text ++ codes "\n\n[" ++ join_notices (notice ∷ notices) ++ codes "]"

-- The tenths of `count / unit`, rounded to the nearest and half to even as the format `.1f` does;
-- the quotient of a count below 2 ^ 53 by a power of two is exact.
unfoldable pub tenths : ℕ → ℕ → ℕ
tenths count unit =
    let whole = count * 10 / unit in
    let doubled = 2 * (count * 10 % unit) in
    if ltb doubled unit then whole else if ltb unit doubled then suc whole else whole + whole % 2

unfoldable pub format_tenths : ℕ → Text
format_tenths n = codes (decimal (n / 10)) ++ codes "." ++ codes (decimal (n % 10))

unfoldable pub format_size : ℕ → Text
format_size byte_count =
    if ltb byte_count 1024
    then codes (decimal byte_count) ++ codes "B"
    else if ltb byte_count (1024 * 1024)
    then format_tenths (tenths byte_count 1024) ++ codes "KB"
    else format_tenths (tenths byte_count (1024 * 1024)) ++ codes "MB"
