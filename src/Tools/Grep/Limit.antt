-- ===== src/Tools/Grep/Limit.antt =====
-- The limit on the matches of a search.
use tile.Prelude.{
  ℕ, suc, ◌+◌, ◌≤◌, ◌≡◌, refl, sym, subst, ◌⊎◌, inl, inr, true, false, Option, none, some, List, [],
  ◌∷◌, ◌++◌, append-nil, append_assoc, arith, leb, Bool-cases, Option-cases, leb-false, leb→le,
}
use tile.Tools.Text.{Text}
use tile.Tools.Text.Breaks.{splitlines}
use tile.Tools.Grep.{
  LineKind, match_line, context_line, Line, Results, SearchEvent, parse_line, parse_lines,
  parse_output,
}

-- The lines of the events among some raw lines.
unfoldable pub event_lines : (Text → Option SearchEvent) → List Text → List Line
event_lines validate [] = []
event_lines validate (raw_line ∷ raw_lines) = elim (parse_line validate raw_line) [
  | none ↦ event_lines validate raw_lines
  | some line ↦ line ∷ event_lines validate raw_lines
]

unfoldable pub one_match : LineKind → ℕ
one_match match_line = 1
one_match context_line = 0

unfoldable pub matches : List Line → ℕ
matches [] = 0
matches (line ∷ lines) = one_match line.kind + matches lines

-- Some lines are all that a search found, or all in front of the first match beyond the limit.
pub data CutAt (limit : ℕ) : List Line → Results → Type 0 where
  whole :
      (lines : List Line)
      → matches lines ≤ limit
      → CutAt limit lines (record { lines = lines; truncated = false })
  cut :
      (lines : List Line) (line : Line) (rest : List Line)
      → matches lines ≡ limit
      → line.kind ≡ match_line
      → CutAt limit (lines ++ line ∷ rest) (record { lines = lines; truncated = true })

matches-append :
    (lines others : List Line) → matches (lines ++ others) ≡ matches lines + matches others
unfolding matches
matches-append [] others = omega arith
matches-append (line ∷ lines) others = rw (matches-append lines others) (omega arith)

matches-next :
    (lines : List Line) (line : Line) (kind : LineKind)
    → line.kind ≡ kind
    → matches (lines ++ line ∷ []) ≡ one_match kind + matches lines
unfolding matches
matches-next lines line kind h = rw (matches-append lines (line ∷ []), h) (omega arith)

LineKind-cases : (kind : LineKind) → (kind ≡ match_line) ⊎ (kind ≡ context_line)
LineKind-cases match_line = inl refl
LineKind-cases context_line = inr refl

-- A loop that goes on with one more line.
CutAt-next :
    {limit : ℕ} {results : Results} (lines rest : List Line) (line : Line)
    → CutAt limit ((lines ++ line ∷ []) ++ rest) results
    → CutAt limit (lines ++ line ∷ rest) results
CutAt-next {limit} {results} lines rest line h =
    subst (λ all. CutAt limit all results) (append_assoc lines (line ∷ []) rest) h

parse_lines-CutAt :
    (validate : Text → Option SearchEvent) (limit : ℕ) (raw_lines : List Text) (lines : List Line)
    (match_count : ℕ)
    → match_count ≡ matches lines
    → match_count ≤ limit
    → CutAt limit
        (lines ++ event_lines validate raw_lines)
        (parse_lines validate limit raw_lines lines match_count)
unfolding parse_lines event_lines one_match
parse_lines-CutAt validate limit [] lines match_count h k =
    subst (λ all. CutAt limit all (record { lines = lines; truncated = false }))
      (sym (append-nil lines)) (whole lines (omega arith))
parse_lines-CutAt validate limit (raw_line ∷ raw_lines) lines match_count h k =
    elim (Option-cases (parse_line validate raw_line)) [
      | inl absent ↦
          rw (absent, parse_lines, event_lines)
            (parse_lines-CutAt validate limit raw_lines lines match_count h k)
      | inr (line, parsed) ↦
          rw (parsed, parse_lines, event_lines)
            (let go = parse_lines-CutAt validate limit raw_lines (lines ++ line ∷ []) in
              elim (LineKind-cases line.kind) [
                | inr context ↦ simp context (
                    CutAt-next lines _ line (
                      go match_count
                        (let next = matches-next lines line context_line context in omega arith) k))
                | inl matching ↦ simp matching (elim (Bool-cases (leb limit match_count)) [
                  | inl full ↦ rw full (
                      cut lines line (event_lines validate raw_lines)
                        (let n = leb→le limit match_count full in omega arith) matching)
                  | inr room ↦ rw room (
                      CutAt-next lines _ line (
                        go (suc match_count)
                          (let next = matches-next lines line match_line matching in omega arith)
                          (let n = leb-false limit match_count room in omega arith)))
                ])
              ])
    ]

-- A search returns all lines of its events, if at most `limit` of them are matches; else it returns the
-- lines in front of the match after the first `limit` and is marked as truncated.
pub parse_output-CutAt :
    (validate : Text → Option SearchEvent) (output : Text) (limit : ℕ)
    → CutAt limit (event_lines validate (splitlines output)) (parse_output validate output limit)
unfolding parse_output matches
parse_output-CutAt validate output limit =
    parse_lines-CutAt validate limit (splitlines output) [] 0 refl (omega arith)
