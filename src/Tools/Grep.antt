-- ===== src/Tools/Grep.antt =====
-- tile/tools/grep.py: the arguments of a search, its events and the building of its result. The
-- validation of an event's JSON is a parameter.
pub mod Limit
use mathlib.Core.Option
use tile.Prelude.{
  ℕ, zero, suc, ◌+◌, ◌-◌, ◌*◌, Bool, true, false, not, ◌&&◌, ◌||◌, Option, none, some, List, [],
  ◌∷◌, ◌++◌, map, leb, ◌==◌, if◌then◌else◌, decimal, length,
}
use tile.Tools.Text.{Text, newline, codes, join_lines, text_eq}
use tile.Tools.Text.Breaks.{splitlines}
use tile.Tools.Truncation.{
  Truncation, ToolOutputDetails, from_truncation, truncate_head, output_byte_limit,
  output_byte_limit_label, append_notice_block, grep_line_character_limit, truncate_line,
}
use tile.Tools.Read.{ℤ, pos, negsuc, decimal_int, at_least_one}

pub record GrepDetails : Type 0 where
  pub output : ToolOutputDetails
  pub match_limit_reached : Option ℕ
  pub lines_truncated : Bool

-- "match" or "context"
pub data LineKind : Type 0 where
  match_line context_line : LineKind

pub record Line : Type 0 where
  pub kind : LineKind
  pub path : Text
  pub line_number : ℤ
  pub text : Text

pub record Results : Type 0 where
  pub lines : List Line
  pub truncated : Bool

pub record EventData : Type 0 where
  pub path : Text
  pub line_number : ℤ
  pub lines : Text

pub record SearchEvent : Type 0 where
  pub kind : LineKind
  pub data_fields : EventData

pub record GrepInput : Type 0 where
  pub pattern : Text
  pub path : Text
  pub glob : Option Text
  pub ignore_case : Bool
  pub literal : Bool
  pub context : ℤ
  pub limit : ℤ

-- `text.rstrip("\n")`
unfoldable pub rstrip_newlines : Text → Text
rstrip_newlines [] = []
rstrip_newlines (c ∷ text) =
    let rest = rstrip_newlines text in if (c == newline) && text_eq rest [] then [] else c ∷ rest

unfoldable pub build_line : SearchEvent → Line
build_line event = record {
  kind = event.kind;
  path = event.data_fields.path;
  line_number = event.data_fields.line_number;
  text = rstrip_newlines event.data_fields.lines;
}

unfoldable pub parse_line : (Text → Option SearchEvent) → Text → Option Line
parse_line validate raw_line = Option.map build_line (validate raw_line)

-- The loop of `_parse_output`, with the lines and the matches so far.
unfoldable pub parse_lines : (Text → Option SearchEvent) → ℕ → List Text → List Line → ℕ → Results
parse_lines validate limit [] lines match_count = record { lines = lines; truncated = false }
parse_lines validate limit (raw_line ∷ raw_lines) lines match_count =
    elim (parse_line validate raw_line) [
      | none ↦ parse_lines validate limit raw_lines lines match_count
      | some line ↦ elim line.kind [
        | context_line ↦ parse_lines validate limit raw_lines (lines ++ line ∷ []) match_count
        | match_line ↦
            let rest =
              parse_lines validate limit raw_lines (lines ++ line ∷ []) (suc match_count) in
            if leb limit match_count then record { lines = lines; truncated = true } else rest
      ]
    ]

unfoldable pub parse_output : (Text → Option SearchEvent) → Text → ℕ → Results
parse_output validate output limit = parse_lines validate limit (splitlines output) [] 0

unfoldable pub format_line : Line → Text × Bool
format_line line =
    let shown = truncate_line line.text grep_line_character_limit in
    let number = decimal_int line.line_number in
    elim line.kind [
      | match_line ↦ (line.path ++ codes ":" ++ number ++ codes ": " ++ shown.0, shown.1)
      | context_line ↦ (line.path ++ codes "-" ++ number ++ codes "- " ++ shown.0, shown.1)
    ]

-- `[notice] if test else []`
abbrev notice_if : Bool → Text → List Text
notice_if test notice = if test then notice ∷ [] else []

unfoldable pub build_notices : Results → ℕ → Truncation → Bool → List Text
build_notices results limit truncation lines_truncated =
    notice_if results.truncated (
      codes (decimal limit)
      ++ codes " matches limit reached. Use limit="
      ++ codes (decimal (limit * 2))
      ++ codes " for more, or refine pattern")
    ++ notice_if truncation.truncated (output_byte_limit_label ++ codes " limit reached")
    ++ notice_if lines_truncated (
        codes "Some lines truncated to "
        ++ codes (decimal grep_line_character_limit)
        ++ codes " chars. Use read tool to see full lines")

unfoldable pub build_details : Results → ℕ → Truncation → Bool → Option GrepDetails
build_details results limit truncation lines_truncated =
    let output_details = from_truncation truncation in
    if not results.truncated && not output_details.truncated && not lines_truncated
    then none
    else some (record {
      output = output_details;
      match_limit_reached = if results.truncated then some limit else none;
      lines_truncated = lines_truncated;
    })

-- `any(line_limit_results)`
unfoldable pub any_truncated : List (Text × Bool) → Bool
any_truncated [] = false
any_truncated (shown ∷ rest) = shown.1 || any_truncated rest

-- The result of a search that found some lines.
unfoldable pub build_found : Results → ℕ → Text × Option GrepDetails
build_found results limit =
    let formatted = map format_line results.lines in
    let raw_output = join_lines (map (λ shown. shown.0) formatted) in
    let truncation = truncate_head raw_output (length formatted) output_byte_limit in
    let lines_truncated = any_truncated formatted in
    (
      append_notice_block truncation.content
          (build_notices results limit truncation lines_truncated),
      build_details results limit truncation lines_truncated,
    )

unfoldable pub build_result : (Text → Option SearchEvent) → Text → ℕ → Text × Option GrepDetails
build_result validate output limit =
    let results = parse_output validate output limit in
    elim results.lines [ [] ↦ (codes "No matches found", none) | _ ∷ _ ↦ build_found results limit ]

abbrev flag_if : Bool → Text → List Text
flag_if test flag = if test then flag ∷ [] else []

unfoldable pub glob_args : Option Text → List Text
glob_args none = []
glob_args (some []) = []
glob_args (some (c ∷ glob)) = codes "--glob" ∷ (c ∷ glob) ∷ []

unfoldable pub context_args : ℤ → List Text
context_args (pos zero) = []
context_args (pos (suc n)) = codes "--context" ∷ codes (decimal (suc n)) ∷ []
context_args (negsuc n) = []

unfoldable pub build_args : GrepInput → List Text
build_args params =
    codes "--json"
      ∷ codes "--line-number"
      ∷ codes "--color=never"
      ∷ codes "--hidden"
      ∷ flag_if params.ignore_case (codes "--ignore-case")
    ++ flag_if params.literal (codes "--fixed-strings")
    ++ glob_args params.glob
    ++ context_args params.context
    ++ codes "--" ∷ params.pattern ∷ params.path ∷ []
