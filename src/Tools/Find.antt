-- ===== src/Tools/Find.antt =====
-- tile/tools/find.py: the arguments of a search for files and the building of its result.
use tile.Prelude.{
  ℕ, ◌+◌, ◌*◌, Bool, false, not, ◌&&◌, ◌||◌, Option, none, some, List, [], ◌∷◌, ◌++◌, ◌==◌,
  if◌then◌else◌, decimal, drop,
}
use tile.Tools.Text.{Text, codes, join_lines, text_eq, starts_with}
use tile.Tools.Text.Breaks.{splitlines}
use tile.Tools.Truncation.{
  Truncation, TruncationReason, by_lines, by_bytes, ToolOutputDetails, from_truncation,
  truncate_head, output_byte_limit, output_byte_limit_label, append_notice_block,
}

abbrev slash : ℕ
slash = 47

abbrev backslash : ℕ
backslash = 92

-- `"/" in pattern`
unfoldable pub matches_full_path : Text → Bool
matches_full_path [] = false
matches_full_path (c ∷ pattern) = (c == slash) || matches_full_path pattern

unfoldable pub build_effective_pattern : Text → Text
build_effective_pattern pattern =
    if not (matches_full_path pattern) || starts_with pattern (codes "**/")
    then pattern
    else if starts_with pattern (codes "/")
    then codes "**" ++ pattern
    else codes "**/" ++ pattern

unfoldable pub build_args : Text → Text → ℕ → List Text
build_args pattern path limit =
    codes "--glob"
      ∷ codes "--color=never"
      ∷ codes "--hidden"
      ∷ codes "--no-require-git"
      ∷ codes "--max-results"
      ∷ codes (decimal (limit + 1))
      ∷ (if matches_full_path pattern then codes "--full-path" ∷ [] else [])
    ++ codes "--" ∷ build_effective_pattern pattern ∷ path ∷ []

-- `path.rstrip("\r")`
unfoldable pub rstrip_returns : Text → Text
rstrip_returns [] = []
rstrip_returns (c ∷ path) =
    let rest = rstrip_returns path in if (c == 13) && text_eq rest [] then [] else c ∷ rest

-- `path.replace("\\", "/")`
unfoldable pub replace_backslashes : Text → Text
replace_backslashes [] = []
replace_backslashes (c ∷ path) = (if c == backslash then slash else c) ∷ replace_backslashes path

unfoldable pub normalize_path : Text → Text
normalize_path path =
    let normalized = replace_backslashes (rstrip_returns path) in
    if starts_with normalized (codes "./") then drop 2 normalized else normalized

unfoldable pub build_details : Truncation → Option ToolOutputDetails
build_details truncation =
    let output_details = from_truncation truncation in
    if not output_details.truncated then none else some output_details

unfoldable pub limit_notices : Option TruncationReason → ℕ → List Text
limit_notices none limit = []
limit_notices (some by_lines) limit =
    (codes (decimal limit)
      ++ codes " results limit reached. Use limit="
      ++ codes (decimal (limit * 2))
      ++ codes " for more, or refine pattern")
    ∷ []
limit_notices (some by_bytes) limit = (output_byte_limit_label ++ codes " limit reached") ∷ []

-- `[_normalize_path(line) for line in output.splitlines() if line]`
unfoldable pub normalized_paths : List Text → List Text
normalized_paths [] = []
normalized_paths ([] ∷ lines) = normalized_paths lines
normalized_paths ((c ∷ line) ∷ lines) = normalize_path (c ∷ line) ∷ normalized_paths lines

unfoldable pub build_result : Text → ℕ → Text × Option ToolOutputDetails
build_result output limit =
    let paths = normalized_paths (splitlines output) in
    let truncation = truncate_head (join_lines paths) limit output_byte_limit in
    elim paths [
      | [] ↦ (codes "No files found matching pattern", none)
      | _ ∷ _ ↦ (
        append_notice_block truncation.content (limit_notices truncation.truncated_by limit),
        build_details truncation,
      )
    ]
