-- ===== src/Tools/Edit/Fuzzy/Lines.antt =====
-- The terminated lines of a text, and the character spans of windows of them.
use tile.Prelude.{
  ℕ, suc, ◌+◌, ◌-◌, ◌<◌, ◌≡◌, refl, sym, ap, ◌∙◌, inl, inr, Bool, true, not, ◌&&◌, List, [], ◌∷◌,
  ◌++◌, append-nil, append_assoc, arith, if◌then◌else◌, Bool-cases, length, take, length-append,
  length-take, and_true,
}
use tile.Tools.Text.{Text, newline, split_lines, join_lines, concat, text_eq, ends_with_newline}
use tile.Tools.Text.Lines.{join_lines-split_lines}
use tile.Tools.Text.Search.{text_eq_sound}
use tile.Tools.Edit.Fuzzy.{
  terminated_parts, terminated_lines, offsets_from, line_start_offsets, line_at, offset_at,
  window_char_span,
}

concat-terminated_parts : (parts : List Text) → concat (terminated_parts parts) ≡ join_lines parts
unfolding concat terminated_parts join_lines
concat-terminated_parts [] = refl
concat-terminated_parts (part ∷ []) = elim (Bool-cases (text_eq part [])) [
  | inl e ↦ rw e (sym (text_eq_sound part [] e))
  | inr e ↦ rw e (append-nil part)
]
concat-terminated_parts (part ∷ next ∷ parts) =
    rw (concat-terminated_parts (next ∷ parts))
      (append_assoc part (newline ∷ []) (join_lines (next ∷ parts)))

-- The terminated lines of a text, put together again, are the text.
pub concat-terminated_lines : (text : Text) → concat (terminated_lines text) ≡ text
unfolding terminated_lines
concat-terminated_lines text =
    concat-terminated_parts (split_lines text) ∙ join_lines-split_lines text

pub concat-append : (xs ys : List Text) → concat (xs ++ ys) ≡ concat xs ++ concat ys
unfolding concat
concat-append [] ys = refl
concat-append (x ∷ xs) ys = rw (concat-append xs ys) (sym (append_assoc x (concat xs) (concat ys)))

length-concat_cons :
    (x : Text) (xs : List Text) → length (concat (x ∷ xs)) ≡ length x + length (concat xs)
unfolding concat
length-concat_cons x xs = length-append x (concat xs)

length-concat_nil : length (concat []) ≡ 0
unfolding concat
length-concat_nil = refl

offset_at-cons :
    (offset index : ℕ) (line : Text) (lines : List Text)
    → offset_at (offsets_from offset (line ∷ lines)) (suc index)
      ≡ offset_at (offsets_from (offset + length line) lines) index
unfolding offset_at offsets_from
offset_at-cons offset index line lines = refl

offset_at-append :
    (offset : ℕ) (before rest : List Text)
    → 0 < length rest
    → offset_at (offsets_from offset (before ++ rest)) (length before)
      ≡ offset + length (concat before)
unfolding offset_at offsets_from
offset_at-append offset [] [] h = absurd (omega arith)
offset_at-append offset [] (line ∷ rest) h = omega (arith, length-concat_nil)
offset_at-append offset (line ∷ before) rest h =
    omega
      (arith, offset_at-append (offset + length line) before rest h, length-concat_cons line before)

pub line_at-append :
    (before rest : List Text) (line : Text) → line_at (before ++ line ∷ rest) (length before) ≡ line
unfolding line_at
line_at-append [] rest line = refl
line_at-append (first ∷ before) rest line = line_at-append before rest line

-- What the span of a matched last line covers: all of it, or all but a newline that the old text
-- does not claim.
abbrev pub claimed : Bool → Text → Text
claimed old_terminated line =
    if not old_terminated && ends_with_newline line then take (length line - 1) line else line

ends_with_newline-nonempty : (line : Text) → ends_with_newline line ≡ true → 0 < length line
unfolding ends_with_newline
ends_with_newline-nonempty [] h = absurd (cc)
ends_with_newline-nonempty (c ∷ line) h = omega arith

and_right : (a b : Bool) → (a && b) ≡ true → b ≡ true
and_right a b h = (and_true a b h).1

window_char_span-at :
    (lines : List Text) (offsets : List ℕ) (start_line last_line : ℕ) (old_terminated : Bool)
    (start offset : ℕ) (last : Text)
    → offset_at offsets start_line ≡ start
    → offset_at offsets last_line ≡ offset
    → line_at lines last_line ≡ last
    → window_char_span lines offsets start_line last_line old_terminated
      ≡ (start, offset + length (claimed old_terminated last))
unfolding window_char_span
window_char_span-at lines offsets start_line last_line old_terminated start offset last h k l =
    elim (Bool-cases (not old_terminated && ends_with_newline last)) [
      | inl e ↦
          rw (l, h, k, e)
            (ap (λ (end : ℕ). (start, end))
              (omega (
                arith,
                length-take (length last - 1) last,
                ends_with_newline-nonempty last (and_right (not old_terminated) _ e),
              )))
      | inr e ↦ rw (l, h, k, e) refl
    ]

zero_plus : (n : ℕ) → 0 + n ≡ n
zero_plus n = omega arith

pub length-concat_append :
    (xs ys : List Text) → length (concat (xs ++ ys)) ≡ length (concat xs) + length (concat ys)
length-concat_append xs ys = rw (concat-append xs ys) (length-append (concat xs) (concat ys))

offset_at-window :
    (before head rest : List Text)
    → 0 < length rest
    → offset_at (offsets_from 0 (before ++ (head ++ rest))) (length before + length head)
      ≡ length (concat before) + length (concat head)
offset_at-window before head rest h =
    ap (λ ls. offset_at (offsets_from 0 ls) (length before + length head))
      (sym (append_assoc before head rest))
    ∙ (ap (offset_at (offsets_from 0 ((before ++ head) ++ rest))) (sym (length-append before head))
        ∙ (offset_at-append 0 (before ++ head) rest h
            ∙ omega (arith, length-concat_append before head)))

line_at-window :
    (before head after : List Text) (last : Text)
    → line_at (before ++ (head ++ last ∷ after)) (length before + length head) ≡ last
line_at-window before head after last =
    ap (λ ls. line_at ls (length before + length head))
      (sym (append_assoc before head (last ∷ after)))
    ∙ (ap (line_at ((before ++ head) ++ last ∷ after)) (sym (length-append before head))
        ∙ line_at-append (before ++ head) after last)

-- The span of a window of the lines starts behind the lines before the window, and it is as long as
-- the lines of the window, less a newline at the end that the old text does not claim.
pub window_char_span_lem :
    (before window_head : List Text) (window_last : Text) (after : List Text)
    (old_terminated : Bool)
    → let lines = before ++ (window_head ++ window_last ∷ after) in
      window_char_span lines
        (line_start_offsets lines)
        (length before)
        (length before + length window_head)
        old_terminated
      ≡ (
        length (concat before),
        length (concat before)
            + length (concat window_head)
            + length (claimed old_terminated window_last),
      )
unfolding line_start_offsets
window_char_span_lem before window_head window_last after old_terminated =
    window_char_span-at (before ++ (window_head ++ window_last ∷ after)) _ (length before) _
      old_terminated (length (concat before)) _ window_last
      (offset_at-append 0 before (window_head ++ window_last ∷ after)
          (omega (arith, length-append window_head (window_last ∷ after)))
        ∙ zero_plus (length (concat before)))
      (offset_at-window before window_head (window_last ∷ after) (omega arith))
      (line_at-window before window_head after window_last)
