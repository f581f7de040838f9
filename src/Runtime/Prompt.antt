-- ===== src/Runtime/Prompt.antt =====
-- tile/prompt.py: the system prompt.
use tile.Prelude.{
  String, Bool, Option, none, some, List, [], ◌∷◌, Result, ok, str_eq, join, if◌then◌else◌,
}
use Prim.Native.String.{◌++◌ as text_append}
use tile.Outcome.{Raised}
use tile.Runtime.Environment.{Environment}
use tile.Runtime.Monad.{Code, pure, call, ◌>>=◌}

abbrev pub auto_mode_text : String
auto_mode_text =
    "You are operating inside Tile, a headless agent runtime. No one is watching the run and no one can answer questions mid-task.\n- Work autonomously: never ask questions or wait for user input. When the task is ambiguous, pick the most reasonable interpretation and state the assumption in your final message.\n- If you are blocked on something only the caller can provide, stop and name exactly what is missing.\n- Your final message is the deliverable: everything the caller needs must be in it. Text emitted between tool calls may never be seen.\n- Report outcomes faithfully: if a command or test fails, say so with the relevant output. Never present unverified work as done."

abbrev pub project_context_filenames : List String
project_context_filenames = "AGENTS.md" ∷ "CLAUDE.md" ∷ []

abbrev pub text_or_empty : Option String → String
text_or_empty none = ""
text_or_empty (some s) = s

module _ {W : Type 0} (env : Environment W) where
  -- `"\n\n".join(part.strip() for part in parts if part and part.strip())`
  unfoldable pub stripped_parts : List (Option String) → List String
  stripped_parts [] = []
  stripped_parts (part ∷ parts) =
      let text = text_or_empty part in
      let rest = stripped_parts parts in
      if str_eq text ""
      then rest
      else if str_eq (env.strip text) ""
      then rest
      else env.strip text ∷ rest

  abbrev pub context_part : Option String → List String → List String
  context_part none parts = parts
  context_part (some text) parts =
      let content = env.strip text in if str_eq content "" then parts else content ∷ parts

  unfoldable pub context_parts : List String → Code W (List String)
  context_parts [] = pure []
  context_parts (filename ∷ filenames) = do
    content ← call (env.project_file filename)
    parts ← context_parts filenames
    pure (context_part content parts)

  unfoldable pub read_project_context : Code W String
  unfolding context_parts
  read_project_context = do
    parts ← context_parts project_context_filenames
    pure (join "\n\n" parts)

  abbrev today_line : W → Result Raised String × W
  today_line w = (
    ok (
        text_append "Current date: "
          (text_append (env.today w) (text_append "\nCurrent working directory: " env.cwd))),
    w,
  )

  unfoldable pub build_system_prompt : String → Bool → Code W String
  unfolding read_project_context stripped_parts
  build_system_prompt instructions auto_mode = do
    environment ← call today_line
    context ← read_project_context
    let parts =
        (if auto_mode then some auto_mode_text else none)
        ∷ some instructions
        ∷ some context
        ∷ some environment
        ∷ []
    pure (join "\n\n" (stripped_parts parts))
