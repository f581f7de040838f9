-- ===== src/Tools/Text.antt =====
-- Python's texts as lists of code points, and the operations of `str` that the tools use.
pub mod Lines
pub mod Search
pub mod Breaks
use Prim.Native.Char.{code}
use mathlib.Core.Option
use tile.Prelude.{
  ℕ, suc, ◌+◌, ◌/◌, ◌%◌, String, Bool, true, false, ◌&&◌, Option, none, some, List, [], ◌∷◌, ◌++◌,
  map, ltb, leb, ◌==◌, if◌then◌else◌, length, drop,
}

abbrev pub Text : Type 0
Text = List ℕ

-- The code points of a literal.
abbrev pub codes : String → Text
codes String.[] = []
codes (String.◌∷◌ c s) = code c ∷ codes s

abbrev pub newline : ℕ
newline = 10

-- UTF-8 of a code point that is no surrogate.
unfoldable pub encode_char : ℕ → List ℕ
encode_char c =
    if ltb c 0x80
    then c ∷ []
    else if ltb c 0x800
    then (0xc0 + c / 64) ∷ (0x80 + c % 64) ∷ []
    else if ltb c 0x1_0000
    then (0xe0 + c / 4096) ∷ (0x80 + c / 64 % 64) ∷ (0x80 + c % 64) ∷ []
    else (0xf0 + c / 262144) ∷ (0x80 + c / 4096 % 64) ∷ (0x80 + c / 64 % 64) ∷ (0x80 + c % 64) ∷ []

-- `text.encode("utf-8")`
unfoldable pub encode : Text → List ℕ
encode [] = []
encode (c ∷ text) = encode_char c ++ encode text

-- `len(text.encode("utf-8"))`
unfoldable pub utf8_length : Text → ℕ
utf8_length text = length (encode text)

-- Puts a character before the first of some lines.
unfoldable pub extend_first : ℕ → List Text → List Text
extend_first c [] = (c ∷ []) ∷ []
extend_first c (line ∷ lines) = (c ∷ line) ∷ lines

-- `text.split("\n")`
unfoldable pub split_lines : Text → List Text
split_lines [] = [] ∷ []
split_lines (c ∷ text) =
    let rest = split_lines text in if c == newline then [] ∷ rest else extend_first c rest

-- `"\n".join(lines)`
unfoldable pub join_lines : List Text → Text
join_lines [] = []
join_lines (line ∷ []) = line
join_lines (line ∷ next ∷ lines) = line ++ newline ∷ join_lines (next ∷ lines)

-- `text == other`
unfoldable pub text_eq : Text → Text → Bool
text_eq [] [] = true
text_eq [] (d ∷ other) = false
text_eq (c ∷ text) [] = false
text_eq (c ∷ text) (d ∷ other) = (c == d) && text_eq text other

-- `text.startswith(prefix)`
unfoldable pub starts_with : Text → Text → Bool
starts_with text [] = true
starts_with [] (p ∷ prefix) = false
starts_with (c ∷ text) (p ∷ prefix) = (c == p) && starts_with text prefix

-- `text.endswith("\n")`
unfoldable pub ends_with_newline : Text → Bool
ends_with_newline [] = false
ends_with_newline (c ∷ []) = c == newline
ends_with_newline (c ∷ d ∷ text) = ends_with_newline (d ∷ text)

-- `text.find(part)`; none where Python returns -1.
unfoldable pub find : Text → Text → Option ℕ
find [] part = if starts_with [] part then some 0 else none
find (c ∷ text) part =
    let later = Option.map suc (find text part) in
    if starts_with (c ∷ text) part then some 0 else later

-- `text.find(part, start)`
unfoldable pub find_from : Text → Text → ℕ → Option ℕ
find_from text part start =
    if leb start (length text)
    then Option.map (λ i. start + i) (find (drop start text) part)
    else none

-- `"".join(parts)`
unfoldable pub concat : List Text → Text
concat [] = []
concat (part ∷ parts) = part ++ concat parts
