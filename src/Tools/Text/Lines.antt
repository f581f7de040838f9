-- ===== src/Tools/Text/Lines.antt =====
-- Splitting a text at its newlines, joining the lines, and measuring them in bytes.
use tile.Prelude.{
  ℕ, suc, ◌+◌, ◌-◌, ◌<◌, ◌≡◌, refl, sym, ap, ◌∙◌, ◌≢◌, inl, inr, List, [], ◌∷◌, ◌++◌, reverse,
  append_assoc, arith, ◌==◌, Bool-cases, ==_iff, length, All, length-append, ==_false, reverse-cons,
}
use mathlib.Core.List.{reverse-cons}
use tile.Tools.Text.{
  Text, newline, encode, utf8_length, encode_char, split_lines, extend_first, join_lines,
}

abbrev pub Lacks : ℕ → Text → Type 0
Lacks b text = All (λ c. c ≢ b) text

-- A list of lines is one that `split_lines` can return.
abbrev pub AreLines : List Text → Type 0
AreLines lines = (0 < length lines) × All (Lacks newline) lines

extend_first-AreLines :
    (c : ℕ) (lines : List Text) → c ≢ newline → AreLines lines → AreLines (extend_first c lines)
unfolding extend_first
extend_first-AreLines c [] h k = (omega arith, ((h, tt), tt))
extend_first-AreLines c (line ∷ lines) h k = (omega arith, ((h, k.1.0), k.1.1))

pub split_lines-AreLines : (text : Text) → AreLines (split_lines text)
unfolding split_lines
split_lines-AreLines [] = (omega arith, (tt, tt))
split_lines-AreLines (c ∷ text) = elim (Bool-cases (c == newline)) [
  | inl h ↦ rw h (omega arith, (tt, (split_lines-AreLines text).1))
  | inr h ↦ rw h (
      extend_first-AreLines c (split_lines text) (λ e. absurd (cc ((==_iff c newline).1 e, h)))
        (split_lines-AreLines text))
]

join_lines-extend_first :
    (c : ℕ) (lines : List Text)
    → 0 < length lines
    → join_lines (extend_first c lines) ≡ c ∷ join_lines lines
unfolding join_lines extend_first
join_lines-extend_first c [] h = absurd (omega arith)
join_lines-extend_first c (line ∷ []) h = refl
join_lines-extend_first c (line ∷ next ∷ lines) h = refl

pub join_lines-cons :
    (line : Text) (lines : List Text)
    → 0 < length lines
    → join_lines (line ∷ lines) ≡ line ++ newline ∷ join_lines lines
unfolding join_lines
join_lines-cons line [] h = absurd (omega arith)
join_lines-cons line (next ∷ lines) h = refl

pub join_lines-split_lines : (text : Text) → join_lines (split_lines text) ≡ text
unfolding split_lines join_lines
join_lines-split_lines [] = refl
join_lines-split_lines (c ∷ text) = elim (Bool-cases (c == newline)) [
  | inl h ↦ rw h (
      join_lines-cons [] (split_lines text) ((split_lines-AreLines text).0)
      ∙ (ap (λ t. newline ∷ t) (join_lines-split_lines text)
          ∙ ap (λ d. d ∷ text) (sym ((==_iff c newline).0 h))))
  | inr h ↦ rw h (
      join_lines-extend_first c (split_lines text) ((split_lines-AreLines text).0)
      ∙ ap (λ t. c ∷ t) (join_lines-split_lines text))
]

pub encode-append : (s t : Text) → encode (s ++ t) ≡ encode s ++ encode t
unfolding encode
encode-append [] t = refl
encode-append (c ∷ s) t =
    rw (encode-append s t) (sym (append_assoc (encode_char c) (encode s) (encode t)))

pub utf8_length-append : (s t : Text) → utf8_length (s ++ t) ≡ utf8_length s + utf8_length t
unfolding utf8_length
utf8_length-append s t = rw (encode-append s t) (length-append (encode s) (encode t))

utf8_length-newline : (t : Text) → utf8_length (newline ∷ t) ≡ suc (utf8_length t)
unfolding utf8_length encode encode_char
utf8_length-newline t = refl

pub utf8_length-nil : utf8_length [] ≡ 0
unfolding utf8_length encode
utf8_length-nil = refl

-- The bytes of some lines, without what stands between them.
abbrev pub lines_length : List Text → ℕ
lines_length [] = 0
lines_length (line ∷ lines) = utf8_length line + lines_length lines

-- A newline stands between any two lines.
pub utf8_length-join_lines :
    (lines : List Text) → utf8_length (join_lines lines) ≡ lines_length lines + (length lines - 1)
unfolding join_lines
utf8_length-join_lines [] = utf8_length-nil
utf8_length-join_lines (line ∷ []) = omega arith
utf8_length-join_lines (line ∷ next ∷ lines) = omega (
  arith,
  utf8_length-append line (newline ∷ join_lines (next ∷ lines)),
  utf8_length-newline (join_lines (next ∷ lines)),
  utf8_length-join_lines (next ∷ lines),
)

pub lines_length-append :
    (xs ys : List Text) → lines_length (xs ++ ys) ≡ lines_length xs + lines_length ys
lines_length-append [] ys = omega arith
lines_length-append (x ∷ xs) ys = omega (arith, lines_length-append xs ys)

pub lines_length-reverse : (lines : List Text) → lines_length (reverse lines) ≡ lines_length lines
lines_length-reverse [] = refl
lines_length-reverse (line ∷ lines) =
    rw (reverse-cons line lines)
      (omega (arith, lines_length-append (reverse lines) (line ∷ []), lines_length-reverse lines))

split_lines-Lacks : (line : Text) → Lacks newline line → split_lines line ≡ line ∷ []
unfolding split_lines extend_first
split_lines-Lacks [] h = refl
split_lines-Lacks (c ∷ line) h =
    rw (==_false c newline (h.0)) (ap (extend_first c) (split_lines-Lacks line (h.1)))

split_lines-append :
    (line text : Text)
    → Lacks newline line
    → split_lines (line ++ newline ∷ text) ≡ line ∷ split_lines text
unfolding split_lines extend_first
split_lines-append [] text h = refl
split_lines-append (c ∷ line) text h =
    rw (==_false c newline (h.0)) (ap (extend_first c) (split_lines-append line text (h.1)))

-- Lines that are joined are split again.
pub split_lines-join_lines :
    (lines : List Text) → AreLines lines → split_lines (join_lines lines) ≡ lines
unfolding join_lines
split_lines-join_lines [] h = absurd (omega (arith, h.0))
split_lines-join_lines (line ∷ []) h = split_lines-Lacks line (h.1.0)
split_lines-join_lines (line ∷ next ∷ lines) h =
    split_lines-append line (join_lines (next ∷ lines)) (h.1.0)
    ∙ ap (λ ls. line ∷ ls) (split_lines-join_lines (next ∷ lines) (omega arith, h.1.1))

pub join_lines-append :
    (xs ys : List Text)
    → 0 < length xs
    → 0 < length ys
    → join_lines (xs ++ ys) ≡ join_lines xs ++ newline ∷ join_lines ys
unfolding join_lines
join_lines-append [] ys h k = absurd (omega arith)
join_lines-append (x ∷ []) ys h k = join_lines-cons x ys k
join_lines-append (x ∷ next ∷ xs) ys h k =
    rw (join_lines-append (next ∷ xs) ys (omega arith) k) (sym (append_assoc x _ _))
