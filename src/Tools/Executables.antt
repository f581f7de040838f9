-- ===== src/Tools/Executables.antt =====
-- tile/tools/support/executables.py: the capped output of a process. What a process writes is a list of
-- the chunks that are read, none of them empty; decoding and stripping are parameters.
use tile.Prelude.{
  ℕ, ◌-◌, ◌*◌, Bool, true, false, not, ◌||◌, Option, none, some, List, [], ◌∷◌, ◌++◌, ltb, leb,
  ◌==◌, if◌then◌else◌, decimal, length, take, Result, ok, err, ◌>>=◌,
}
use tile.Tools.Read.{ℤ, pos, negsuc, decimal_int}
use tile.Tools.Text.{Text, newline, codes}

abbrev pub stdout_byte_cap : ℕ
stdout_byte_cap = 16 * 1024 * 1024

abbrev pub stderr_byte_cap : ℕ
stderr_byte_cap = 64 * 1024

-- A process that has been started: its executable, its chunks and the code it exits with.
pub record Process : Type 0 where
  pub executable : Text
  pub stdout : List (List ℕ)
  pub stderr : List (List ℕ)
  pub exit_code : ℤ

-- Also returns whether the cap was reached.
unfoldable pub read_capped_stdout : ℕ → List (List ℕ) → List ℕ → List ℕ × Bool
read_capped_stdout cap [] collected = (collected, false)
read_capped_stdout cap (chunk ∷ chunks) collected =
    let more = collected ++ chunk in
    let rest = read_capped_stdout cap chunks more in
    if leb cap (length more) then (more, true) else rest

unfoldable pub read_capped_stderr : ℕ → List (List ℕ) → List ℕ → List ℕ
read_capped_stderr cap [] kept = kept
read_capped_stderr cap (chunk ∷ chunks) kept =
    let more = if ltb (length kept) cap then kept ++ take (cap - length kept) chunk else kept in
    read_capped_stderr cap chunks more

-- `data[: data.rfind(b"\n") + 1]`, or nothing where `rfind` returns -1.
unfoldable pub complete_data : List ℕ → Option (List ℕ)
complete_data [] = none
complete_data (byte ∷ bytes) = elim (complete_data bytes) [
  | some rest ↦ some (byte ∷ rest)
  | none ↦ if byte == newline then some (byte ∷ []) else none
]

unfoldable pub decode_complete_lines : (List ℕ → Text) → List ℕ → Text → Result Text Text
decode_complete_lines decode bytes executable = elim (complete_data bytes) [
  | some complete ↦ ok (decode complete)
  | none ↦ err (
      executable
      ++ codes " output exceeded "
      ++ codes (decimal stdout_byte_cap)
      ++ codes " bytes without a complete line")
]

-- `text or message`
unfoldable pub text_or : Text → Text → Text
text_or [] message = message
text_or (c ∷ text) message = c ∷ text

-- `exit_code in allowed_exit_codes`, of codes that are not negative.
unfoldable pub exit_code_in : ℤ → List ℕ → Bool
exit_code_in exit_code [] = false
exit_code_in (pos code) (allowed ∷ others) = (code == allowed) || exit_code_in (pos code) others
exit_code_in (negsuc code) (allowed ∷ others) = false

-- `execute` from the start of the process on; a failure to start it is the message of the `OSError`.
unfoldable pub execute :
    (List ℕ → Text) → (Text → Text) → Result Text Process → List ℕ → Result Text Text
execute decode strip started allowed_exit_codes = do
  process ← started
  let collected = read_capped_stdout stdout_byte_cap process.stdout []
  let stderr_bytes = read_capped_stderr stderr_byte_cap process.stderr []
  if collected.1
      then decode_complete_lines decode (collected.0) process.executable
      else if not (exit_code_in process.exit_code allowed_exit_codes)
      then err (
          text_or (strip (decode stderr_bytes))
            (process.executable ++ codes " exited with code " ++ decimal_int process.exit_code))
      else ok (decode (collected.0))
