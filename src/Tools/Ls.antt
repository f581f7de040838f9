-- ===== src/Tools/Ls.antt =====
-- tile/tools/ls.py: the building of the result from the entries of a directory.
use tile.Prelude.{
  ℕ, ◌*◌, Bool, true, false, not, Option, none, some, List, [], ◌∷◌, ◌++◌, if◌then◌else◌, decimal,
  length,
}
use tile.Tools.Text.{Text, codes, join_lines}
use tile.Tools.Truncation.{
  Truncation, TruncationReason, by_lines, by_bytes, ToolOutputDetails, from_truncation,
  truncate_head, output_byte_limit, output_byte_limit_label, append_notice_block,
}

-- An entry is its name and whether it is a directory.
unfoldable pub format_directory_entry : Text × Bool → Text
format_directory_entry (name, true) = name ++ codes "/"
format_directory_entry (name, false) = name

unfoldable pub build_details : Truncation → Option ToolOutputDetails
build_details truncation =
    let output_details = from_truncation truncation in
    if not output_details.truncated then none else some output_details

unfoldable pub limit_notices : Option TruncationReason → ℕ → ℕ → List Text
limit_notices none limit entries = []
limit_notices (some by_lines) limit entries =
    (codes (decimal limit)
      ++ codes " entries limit reached. Use limit="
      ++ codes (decimal (limit * 2))
      ++ codes " for more")
    ∷ []
limit_notices (some by_bytes) limit entries =
    (output_byte_limit_label
      ++ codes " limit reached. Directory has "
      ++ codes (decimal entries)
      ++ codes " entries")
    ∷ []

unfoldable pub build_result : List Text → ℕ → Text × Option ToolOutputDetails
build_result [] limit = (codes "(empty directory)", none)
build_result (entry ∷ entries) limit =
    let truncation = truncate_head (join_lines (entry ∷ entries)) limit output_byte_limit in
    (
      append_notice_block truncation.content
          (limit_notices truncation.truncated_by limit (length (entry ∷ entries))),
      build_details truncation,
    )
