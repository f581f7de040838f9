-- ===== src/Tools/Edit/Files.antt =====
-- tile/tools/edit.py: the edit of a file. Reading and writing texts, the unified diff and NFKC are
-- parameters.
pub mod Applied
pub mod Stored
pub mod Reloaded
use Prim.Native.String.{◌++◌}
use tile.Prelude.{
  ℕ, suc, ◌+◌, ◌-◌, String, List, [], ◌∷◌, if◌then◌else◌, decimal, length, Result, ok, err, ◌>>=◌,
  ◌>>◌,
}
use tile.Tools.Text.{Text, text_eq}
use tile.Tools.Edit.{
  EditReplacement, LoadedFile, EditExecutionResult, ReplacementApplication, EditError,
  match_not_found, tool_error, system_error, empty_old_text_error,
}
use tile.Tools.Edit.Endings.{load_text, stored_text}
use tile.Tools.Edit.Spans.{apply_exact_replacements}
use tile.Tools.Edit.Fuzzy.{apply_fuzzy_replacements}

-- `EditDetails`
pub record EditDetails : Type 0 where
  pub diff : Text

unfoldable pub check_old_texts :
    String → ℕ → ℕ → List EditReplacement → Result {0, 0} EditError Unit
check_old_texts display_path total index [] = ok tt
check_old_texts display_path total index (edit ∷ edits) =
    let rest = check_old_texts display_path total (suc index) edits in
    if text_eq edit.old_text []
    then err (tool_error (empty_old_text_error display_path index total))
    else rest

unfoldable pub validate_non_empty_old_text :
    List EditReplacement → String → Result {0, 0} EditError Unit
validate_non_empty_old_text replacements display_path =
    check_old_texts display_path (length replacements) 0 replacements

-- `except MatchNotFound`
unfoldable pub on_match_not_found {ℓ} :
    {A : Type ℓ} → Result EditError A → Result EditError A → Result EditError A
on_match_not_found (err (match_not_found message)) fallback = fallback
on_match_not_found (err (tool_error message)) fallback = err (tool_error message)
on_match_not_found (err (system_error message)) fallback = err (system_error message)
on_match_not_found (ok a) fallback = ok a

unfoldable pub apply_replacements_with_fallback :
    (Text → Text) → Text → List EditReplacement → String → Result EditError ReplacementApplication
apply_replacements_with_fallback nfkc content replacements display_path = do
  validate_non_empty_old_text replacements display_path
  on_match_not_found (apply_exact_replacements content replacements display_path)
      (apply_fuzzy_replacements nfkc content replacements display_path)

-- The files, and what the tool asks of them.
pub record Files (W : Type 0) : Type 1 where
  pub read_text : String → W → Result EditError Text
  pub write_text : String → Text → W → Result {0, 0} EditError Unit × W
  pub nfkc : Text → Text
  pub unified_diff : Text → Text → String → Text

-- `except (OSError, UnicodeError) as error: raise ToolError(str(error))`
unfoldable pub as_tool_error {ℓ} : {A : Type ℓ} → Result EditError A → Result EditError A
as_tool_error (err (system_error message)) = err (tool_error message)
as_tool_error (err (tool_error message)) = err (tool_error message)
as_tool_error (err (match_not_found message)) = err (match_not_found message)
as_tool_error (ok a) = ok a

unfoldable pub edit_result : EditExecutionResult → String → String × EditDetails
edit_result result path = (
  "Successfully replaced "
      ++ (decimal result.replacement_count ++ (" block(s) in " ++ (path ++ "."))),
  record { diff = result.diff },
)

module _ {W : Type 0} (files : Files W) where
  -- `_write_loaded_file`, the diff and the result.
  unfoldable pub write_edited :
      String
      → LoadedFile
      → ReplacementApplication
      → ℕ
      → String
      → W
      → Result EditError EditExecutionResult × W
  write_edited path loaded application count display_path w =
      let written = files.write_text path (stored_text loaded application.new_content) w in
      (
        written.0
            >> ok (record {
              path = path;
              replacement_count = count;
              diff =
                  files.unified_diff application.base_content application.new_content display_path;
            }),
        written.1,
      )

  unfoldable pub edit_loaded :
      String
      → LoadedFile
      → List EditReplacement
      → String
      → W
      → Result EditError ReplacementApplication
      → Result EditError EditExecutionResult × W
  edit_loaded path loaded replacements display_path w (ok application) =
      write_edited path loaded application (length replacements) display_path w
  edit_loaded path loaded replacements display_path w (err e) = (err e, w)

  unfoldable pub edit_read :
      String
      → List EditReplacement
      → String
      → W
      → Result EditError Text
      → Result EditError EditExecutionResult × W
  edit_read path replacements display_path w (ok raw_content) =
      let loaded = load_text raw_content in
      edit_loaded path loaded replacements display_path w
        (apply_replacements_with_fallback files.nfkc loaded.content replacements display_path)
  edit_read path replacements display_path w (err e) = (err e, w)

  unfoldable pub edit_file :
      String → List EditReplacement → String → W → Result EditError EditExecutionResult × W
  edit_file path replacements display_path w =
      edit_read path replacements display_path w (files.read_text path w)

  -- `fn`, for a path that has been resolved.
  unfoldable pub edit :
      String → List EditReplacement → String → W → Result EditError (String × EditDetails) × W
  edit resolved_path edits path w =
      let done = edit_file resolved_path edits path w in
      (as_tool_error (done.0 >>= λ result. ok (edit_result result path)), done.1)
