-- ===== src/Tools/Edit.antt =====
-- tile/tools/edit.py: the types of the edit tool and its messages.
pub mod Endings
pub mod Spans
pub mod Fuzzy
pub mod Files
use tile.Prelude.{ℕ, ◌+◌, String, not, ◌==◌, if◌then◌else◌, decimal}
use Prim.Native.String.{◌++◌}
use tile.Tools.Text.{Text}

pub record EditReplacement : Type 0 where
  pub old_text : Text
  pub new_text : Text

pub data LineEnding : Type 0 where
  lf crlf : LineEnding

pub record LoadedFile : Type 0 where
  pub bom : Text
  pub content : Text
  pub line_ending : LineEnding

pub record MatchedSpan : Type 0 where
  pub edit_index : ℕ
  pub start : ℕ
  pub end : ℕ
  pub replacement : Text

pub record EditExecutionResult : Type 0 where
  pub path : String
  pub replacement_count : ℕ
  pub diff : Text

pub record ReplacementApplication : Type 0 where
  pub base_content : Text
  pub new_content : Text

-- What the tool raises: `MatchNotFound`, another `ToolError`, or an `OSError` or `UnicodeError`.
pub data EditError : Type 0 where
  match_not_found : String → EditError
  tool_error : String → EditError
  system_error : String → EditError

unfoldable pub not_found_error : String → ℕ → ℕ → String
not_found_error path edit_index total_edits =
    if total_edits == 1
    then "Could not find the exact text in "
      ++ (path
          ++ ". The old text must match exactly including all whitespace and newlines. Near matches that differ in quotes, dashes, or whitespace are only found when the old text covers whole lines.")
    else "Could not find edits["
      ++ (decimal edit_index
          ++ ("] in "
              ++ (path
                  ++ ". The old_text must match exactly including all whitespace and newlines. Near matches that differ in quotes, dashes, or whitespace are only found when old_text covers whole lines.")))

unfoldable pub duplicate_error : String → ℕ → ℕ → ℕ → String
duplicate_error path edit_index total_edits occurrences =
    if total_edits == 1
    then "Found "
      ++ (decimal occurrences
          ++ (" occurrences of the text in "
              ++ (path
                  ++ ". The text must be unique. Please provide more context to make it unique.")))
    else "Found "
      ++ (decimal occurrences
          ++ (" occurrences of edits["
              ++ (decimal edit_index
                  ++ ("] in "
                      ++ (path
                          ++ ". Each old_text must be unique. Please provide more context to make it unique.")))))

unfoldable pub empty_old_text_error : String → ℕ → ℕ → String
empty_old_text_error path edit_index total_edits =
    if total_edits == 1
    then "old_text must not be empty in " ++ (path ++ ".")
    else "edits[" ++ (decimal edit_index ++ ("].old_text must not be empty in " ++ (path ++ ".")))

unfoldable pub overlap_error : ℕ → ℕ → String → String
overlap_error first_index second_index path =
    "edits["
    ++ (decimal first_index
        ++ ("] and edits["
            ++ (decimal second_index
                ++ ("] overlap in "
                    ++ (path ++ ". Merge them into one edit or target disjoint regions.")))))

unfoldable pub no_change_error : String → ℕ → String
no_change_error path total_edits =
    if total_edits == 1
    then "No changes made to " ++ (path ++ ". The replacement produced identical content.")
    else "No changes made to " ++ (path ++ ". The replacements produced identical content.")
