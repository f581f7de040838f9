-- ===== src/Tools/Edit/Endings.antt =====
-- The byte order mark and the line endings of an edited file.
pub mod RoundTrip
pub mod Reload
use tile.Prelude.{ℕ, ◌+◌, ◌&&◌, Option, none, some, [], ◌∷◌, ◌++◌, ltb, ◌==◌, if◌then◌else◌, drop}
use tile.Tools.Text.{Text, newline, find, starts_with, codes}
use tile.Tools.Edit.{LineEnding, lf, crlf, LoadedFile}

abbrev pub carriage_return : ℕ
carriage_return = 13

abbrev pub byte_order_mark : Text
byte_order_mark = 0xfeff ∷ []

unfoldable pub strip_bom : Text → Text × Text
strip_bom content =
    if starts_with content byte_order_mark then (byte_order_mark, drop 1 content) else ([], content)

-- The ending, from where the first CRLF and the first LF stand.
abbrev first_ending : Option ℕ → Option ℕ → LineEnding
first_ending crlf_index none = lf
first_ending none (some lf_index) = lf
first_ending (some crlf_index) (some lf_index) = if ltb crlf_index lf_index then crlf else lf

unfoldable pub detect_line_ending : Text → LineEnding
detect_line_ending content = first_ending (find content (codes "\r\n")) (find content (codes "\n"))

-- `text.replace("\r\n", "\n")`
unfoldable pub replace_crlf : Text → Text
replace_crlf [] = []
replace_crlf (c ∷ []) = c ∷ []
replace_crlf (c ∷ d ∷ text) =
    let pair = newline ∷ replace_crlf text in
    let single = c ∷ replace_crlf (d ∷ text) in
    if (c == carriage_return) && (d == newline) then pair else single

-- `text.replace("\r", "\n")`
unfoldable pub replace_cr : Text → Text
replace_cr [] = []
replace_cr (c ∷ text) = (if c == carriage_return then newline else c) ∷ replace_cr text

-- `text.replace("\n", "\r\n")`
unfoldable pub replace_lf : Text → Text
replace_lf [] = []
replace_lf (c ∷ text) =
    let rest = replace_lf text in
    if c == newline then carriage_return ∷ newline ∷ rest else c ∷ rest

unfoldable pub normalize_to_lf : Text → Text
normalize_to_lf content = replace_cr (replace_crlf content)

unfoldable pub restore_line_endings : Text → LineEnding → Text
restore_line_endings content crlf = replace_lf content
restore_line_endings content lf = content

-- `_load_file` on the text that was read.
unfoldable pub load_text : Text → LoadedFile
load_text raw_content =
    let parts = strip_bom raw_content in
    record {
      bom = parts.0;
      content = normalize_to_lf (parts.1);
      line_ending = detect_line_ending (parts.1);
    }

-- The text that `_write_loaded_file` writes.
unfoldable pub stored_text : LoadedFile → Text → Text
stored_text loaded content = loaded.bom ++ restore_line_endings content loaded.line_ending
