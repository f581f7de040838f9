-- ===== src/Tools/Bash.antt =====
-- tile/tools/bash.py: the output of a shell command and the result of its end. What the process writes is
-- a list of the chunks that are read; how it ends is given with it, as is the text of the timeout.
use tile.Prelude.{
  ℕ, ◌+◌, ◌-◌, String, Bool, true, false, not, Option, none, some, List, [], ◌∷◌, ◌++◌, ◌==◌,
  if◌then◌else◌, decimal, Result, ok, err, ◌>>=◌, ◌>>◌,
}
use tile.Tools.Text.{Text, codes}
use tile.Tools.Read.{ℤ, pos, negsuc, decimal_int}
use tile.Tools.Truncation.{
  Truncation, by_lines, ToolOutputDetails, from_truncation, output_line_limit, output_byte_limit,
  output_byte_limit_label, format_size,
}
use tile.Tools.OutputAccumulator.{
  OutputSnapshot, OutputAccumulator, Decoding, new_accumulator, accumulate, finish,
}

-- `exit_code` is `process.returncode` after the wait.
pub record ShellProcess : Type 0 where
  pub chunks : List (List ℕ)
  pub timed_out : Bool
  pub exit_code : Option ℤ

-- What `fn` can raise: a `ToolError`, or the `RuntimeError` of the accumulator.
pub data BashError : Type 0 where
  tool_error : Text → BashError
  runtime_error : String → BashError

unfoldable pub append_status : Text → Text → Text
append_status [] status = status
append_status (c ∷ output) status = (c ∷ output) ++ codes "\n\n" ++ status

unfoldable pub truncation_notice : Truncation → Text
truncation_notice truncation =
    let shown =
      codes "[Showing lines "
      ++ codes (decimal (truncation.total_lines - truncation.output_lines + 1))
      ++ codes "-"
      ++ codes (decimal truncation.total_lines)
      ++ codes " of "
      ++ codes (decimal truncation.total_lines) in
    if truncation.edge_line_exceeds_limit
    then codes "[Output omitted: last line exceeds " ++ output_byte_limit_label ++ codes " limit]"
    else elim truncation.truncated_by [
      | some by_lines ↦ shown ++ codes "]"
      | _ ↦ shown ++ codes " (" ++ format_size truncation.max_bytes ++ codes " limit)]"
    ]

unfoldable pub build_error_output_text : OutputSnapshot → Text
build_error_output_text snapshot =
    if not snapshot.truncation.truncated
    then snapshot.content
    else append_status snapshot.content (truncation_notice snapshot.truncation)

unfoldable pub timeout_status : Text → Text
timeout_status timeout = codes "Command timed out after " ++ timeout ++ codes " seconds"

-- `exit_code in (0, None)`
unfoldable pub is_success : Option ℤ → Bool
is_success none = true
is_success (some (pos code)) = code == 0
is_success (some (negsuc code)) = false

unfoldable pub decimal_exit_code : Option ℤ → Text
decimal_exit_code none = codes "None"
decimal_exit_code (some code) = decimal_int code

unfoldable pub raise_for_execution_failure :
    OutputSnapshot → Option ℤ → Bool → Text → Result {0, 0} BashError Unit
raise_for_execution_failure snapshot exit_code timed_out timeout =
    if timed_out
    then err
        (tool_error (append_status (build_error_output_text snapshot) (timeout_status timeout)))
    else if not (is_success exit_code)
    then err (
        tool_error (
          append_status (build_error_output_text snapshot)
            (codes "Command exited with code " ++ decimal_exit_code exit_code)))
    else ok tt

unfoldable pub content_or : Text → Text
content_or [] = codes "(no output)"
content_or (c ∷ content) = c ∷ content

-- The text of the result and its details.
unfoldable pub build_result : OutputSnapshot → Text × Option ToolOutputDetails
build_result snapshot =
    if not snapshot.truncation.truncated then (content_or snapshot.content, none) else (
      append_status snapshot.content (truncation_notice snapshot.truncation),
      some (from_truncation snapshot.truncation),
    )

module _ {D : Type 0} (decoding : Decoding D) where
  unfoldable pub read_output :
      List (List ℕ) → OutputAccumulator D → Result BashError (OutputAccumulator D)
  read_output [] output = ok output
  read_output (chunk ∷ chunks) output = elim (accumulate decoding output chunk) [
    | ok more ↦ read_output chunks more
    | err message ↦ err (runtime_error message)
  ]

  unfoldable pub wait_for_process : ShellProcess → Result BashError (OutputSnapshot × Bool)
  wait_for_process process = do
    output ←
        read_output process.chunks (new_accumulator decoding output_line_limit output_byte_limit)
    ok ((finish decoding output).0, process.timed_out)

  unfoldable pub execute : ShellProcess → Text → Result BashError OutputSnapshot
  execute process timeout = do
    ended ← wait_for_process process
    raise_for_execution_failure (ended.0) process.exit_code (ended.1) timeout
    ok (ended.0)

  -- `fn`, for a process that has been started.
  unfoldable pub bash : ShellProcess → Text → Result BashError (Text × Option ToolOutputDetails)
  bash process timeout = do snapshot ← execute process timeout; ok (build_result snapshot)
