-- ===== src/Tools/Edit/Endings/RoundTrip.antt =====
-- Loading a file and storing its content again.
use mathlib.Core.Option
use tile.Prelude.{
  ℕ, suc, ◌≡◌, refl, sym, ap, ◌∙◌, ◌≢◌, ◌⊎◌, inl, inr, true, none, some, [], ◌∷◌, ◌++◌, arith, ◌==◌,
  Bool-cases, Option-cases, lt→ltb, length, drop, and_true, ==_false, ==→≡, ==→≢,
}
use tile.Tools.Text.{Text, newline, find, starts_with, codes}
use tile.Tools.Text.Lines.{Lacks}
use tile.Tools.Edit.{lf}
use tile.Tools.Edit.Endings.{
  carriage_return, byte_order_mark, strip_bom, detect_line_ending, replace_crlf, replace_cr,
  replace_lf, normalize_to_lf, restore_line_endings, load_text, stored_text,
}

-- Every line ends in LF alone, or every line ends in CRLF, and there is no other CR.
abbrev pub IsConsistent : Text → Type 0
IsConsistent body =
    Lacks carriage_return body
    ⊎ ((text : Text) × Lacks carriage_return text × (body ≡ replace_lf text))

starts_with-split :
    (text prefix : Text)
    → starts_with text prefix ≡ true
    → prefix ++ drop (length prefix) text ≡ text
unfolding starts_with
starts_with-split text [] h = refl
starts_with-split [] (p ∷ prefix) h = absurd (cc)
starts_with-split (c ∷ text) (p ∷ prefix) h =
    let both = and_true _ _ h in
    ap (λ d. d ∷ (prefix ++ drop (length prefix) text)) (sym (==→≡ c p (both.0)))
    ∙ ap (λ t. c ∷ t) (starts_with-split text prefix (both.1))

strip_bom-parts : (raw : Text) → (strip_bom raw).0 ++ (strip_bom raw).1 ≡ raw
unfolding strip_bom
strip_bom-parts raw = elim (Bool-cases (starts_with raw byte_order_mark)) [
  | inl h ↦ rw h (starts_with-split raw byte_order_mark h)
  | inr h ↦ rw h refl
]

pub replace_cr-Lacks : (text : Text) → Lacks carriage_return text → replace_cr text ≡ text
unfolding replace_cr
replace_cr-Lacks [] h = refl
replace_cr-Lacks (c ∷ text) h = ground (arith, replace_cr-Lacks text, h)

pub replace_crlf-Lacks : (text : Text) → Lacks carriage_return text → replace_crlf text ≡ text
unfolding replace_crlf
replace_crlf-Lacks [] h = refl
replace_crlf-Lacks (c ∷ []) h = refl
replace_crlf-Lacks (c ∷ d ∷ text) h = ground (arith, replace_crlf-Lacks (d ∷ text), h)

replace_crlf-cons :
    (c : ℕ) (text : Text) → c ≢ carriage_return → replace_crlf (c ∷ text) ≡ c ∷ replace_crlf text
unfolding replace_crlf
replace_crlf-cons c [] h = refl
replace_crlf-cons c (d ∷ text) h = ground arith

pub replace_crlf-replace_lf :
    (text : Text) → Lacks carriage_return text → replace_crlf (replace_lf text) ≡ text
unfolding replace_crlf replace_lf
replace_crlf-replace_lf [] h = refl
replace_crlf-replace_lf (c ∷ text) h = elim (Bool-cases (c == newline)) [
  | inl e ↦ rw e (
      ap (λ t. newline ∷ t) (replace_crlf-replace_lf text (h.1))
      ∙ ap (λ d. d ∷ text) (sym (==→≡ c newline e)))
  | inr e ↦ rw e (
      replace_crlf-cons c (replace_lf text) (h.0)
      ∙ ap (λ t. c ∷ t) (replace_crlf-replace_lf text (h.1)))
]

find-crlf_none : (text : Text) → Lacks carriage_return text → find text (codes "\r\n") ≡ none
unfolding find starts_with
find-crlf_none [] h = refl
find-crlf_none (c ∷ text) h =
    rw (==_false c carriage_return (h.0)) (ap (λ o. Option.map suc o) (find-crlf_none text (h.1)))

-- The first line ending of a text that `replace_lf` has made.
FirstEnding : Text → Text → Type 0
FirstEnding text body =
    ((find body (codes "\n") ≡ none) × (body ≡ text))
    ⊎ ((i : ℕ) × (find body (codes "\r\n") ≡ some i) × (find body (codes "\n") ≡ some (suc i)))

FirstEnding-cons :
    (c : ℕ) (text body : Text)
    → c ≢ carriage_return
    → c ≢ newline
    → FirstEnding text body
    → FirstEnding (c ∷ text) (c ∷ body)
unfolding FirstEnding find starts_with
FirstEnding-cons c text body h k (inl e) =
    rw (==_false c newline k) (inl (ap (λ o. Option.map suc o) (e.0), ap (λ t. c ∷ t) (e.1)))
FirstEnding-cons c text body h k (inr (i, e, f)) =
    rw (==_false c newline k, ==_false c carriage_return h)
      (inr (suc i, ap (λ o. Option.map suc o) e, ap (λ o. Option.map suc o) f))

replace_lf-FirstEnding :
    (text : Text) → Lacks carriage_return text → FirstEnding text (replace_lf text)
unfolding replace_lf FirstEnding find starts_with
replace_lf-FirstEnding [] h = inl (refl, refl)
replace_lf-FirstEnding (c ∷ text) h = elim (Bool-cases (c == newline)) [
  | inl e ↦ rw e (inr (0, refl, refl))
  | inr e ↦ rw e (
      FirstEnding-cons c text (replace_lf text) (h.0) (==→≢ c newline e)
        (replace_lf-FirstEnding text (h.1)))
]

FirstEnding-restores :
    (text : Text)
    → FirstEnding text (replace_lf text)
    → restore_line_endings text (detect_line_ending (replace_lf text)) ≡ replace_lf text
unfolding FirstEnding detect_line_ending restore_line_endings
FirstEnding-restores text (inl e) = rw (e.0) (sym (e.1))
FirstEnding-restores text (inr (i, e, f)) = rw (f, e, lt→ltb i (suc i) (omega arith)) refl

detect-Lacks : (body : Text) → Lacks carriage_return body → detect_line_ending body ≡ lf
unfolding detect_line_ending
detect-Lacks body h = elim (Option-cases (find body (codes "\n"))) [
  | inl e ↦ rw e refl
  | inr e ↦ rw (e.1, find-crlf_none body h) refl
]

restore-normalize :
    (body : Text)
    → IsConsistent body
    → restore_line_endings (normalize_to_lf body) (detect_line_ending body) ≡ body
unfolding normalize_to_lf restore_line_endings
restore-normalize body (inl h) =
    rw (detect-Lacks body h, replace_crlf-Lacks body h) (replace_cr-Lacks body h)
restore-normalize body (inr (text, h, e)) =
    rw (e, replace_crlf-replace_lf text h, replace_cr-Lacks text h)
      (FirstEnding-restores text (replace_lf-FirstEnding text h))

-- A file with consistent line endings that is loaded and stored with its own content is written as it
-- was read, byte order mark and line endings included.
pub stored_text-load_text :
    (raw_content : Text)
    → IsConsistent ((strip_bom raw_content).1)
    → let loaded = load_text raw_content in stored_text loaded loaded.content ≡ raw_content
unfolding stored_text load_text
stored_text-load_text raw_content h =
    ap (λ t. (strip_bom raw_content).0 ++ t) (restore-normalize ((strip_bom raw_content).1) h)
    ∙ strip_bom-parts raw_content
