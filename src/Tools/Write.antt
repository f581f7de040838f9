-- ===== src/Tools/Write.antt =====
-- tile/tools/write.py on a file system that is a parameter, with its state.
use tile.Prelude.{ℕ, ◌++◌, decimal, Result, ok, err, ◌>>=◌}
use tile.Tools.Text.{Text, codes, utf8_length}
use tile.Tools.Paths.{Paths, resolve_to_cwd}

-- The calls of the file system; an error is the message of an `OSError` or a `UnicodeError`.
pub record WriteCalls (P W : Type 0) : Type 0 where
  pub resolve : P → W → P
  pub make_parents : P → W → Result {0, 0} Text Unit × W
  pub write_text : P → Text → W → Result {0, 0} Text Unit × W

module _ {P W : Type 0} (paths : Paths P) (calls : WriteCalls P W) where
  unfoldable pub write_file : P → Text → W → Result Text ℕ × W
  write_file path content w =
      let made = calls.make_parents path w in
      let written = calls.write_text path content (made.1) in
      elim made.0 [
        | err message ↦ (err message, made.1)
        | ok _ ↦ (written.0 >>= λ done. ok (utf8_length content), written.1)
      ]

  unfoldable pub build_result : ℕ → P → Text
  build_result bytes_written path =
      codes "Successfully wrote "
      ++ codes (decimal bytes_written)
      ++ codes " bytes to "
      ++ paths.text path

  -- `fn`; the error is the message of a `ToolError`.
  unfoldable pub write : Text → Text → P → W → Result Text Text × W
  write path content cwd w =
      let resolved_path = calls.resolve (resolve_to_cwd paths path cwd) w in
      let written = write_file resolved_path content w in
      (written.0 >>= λ bytes_written. ok (build_result bytes_written resolved_path), written.1)
