-- ===== src/Tools/Text/Breaks.antt =====
-- Splitting a text at all line boundaries that Python knows.
use tile.Prelude.{ℕ, Bool, ◌&&◌, ◌||◌, List, [], ◌∷◌, leb, ◌==◌, if◌then◌else◌}
use tile.Tools.Text.{Text, extend_first}

-- The single characters that end a line for `str.splitlines`.
unfoldable pub is_line_boundary : ℕ → Bool
is_line_boundary c =
    (leb 10 c && leb c 13)
    || (leb 0x1c c && leb c 0x1e)
    || (c == 0x85)
    || (c == 0x2028)
    || (c == 0x2029)

-- `text.splitlines()`
unfoldable pub splitlines : Text → List Text
splitlines [] = []
splitlines (c ∷ []) = (if is_line_boundary c then [] else c ∷ []) ∷ []
splitlines (c ∷ d ∷ text) =
    let pair = [] ∷ splitlines text in
    let rest = splitlines (d ∷ text) in
    if (c == 13) && (d == 10)
    then pair
    else if is_line_boundary c
    then [] ∷ rest
    else extend_first c rest
