-- ===== src/Tools/Edit/Endings/Reload.antt =====
-- Storing an edited content and loading it again.
use tile.Prelude.{
  ℕ, ◌≡◌, refl, ap, ◌∙◌, ◌≢◌, ◌⊎◌, inl, inr, false, [], ◌∷◌, ◌++◌, arith, ◌==◌, if◌then◌else◌,
  Bool-cases,
}
use tile.Tools.Text.{Text, newline, starts_with}
use tile.Tools.Text.Lines.{Lacks}
use tile.Tools.Edit.{LineEnding, lf, crlf}
use tile.Tools.Edit.Endings.{
  carriage_return, byte_order_mark, strip_bom, replace_crlf, replace_cr, replace_lf,
  normalize_to_lf, restore_line_endings, load_text, stored_text, detect_line_ending,
}
use tile.Tools.Edit.Endings.RoundTrip.{
  replace_cr-Lacks, replace_crlf-Lacks, replace_crlf-replace_lf,
}

normalize-restore :
    (content : Text) (line_ending : LineEnding)
    → Lacks carriage_return content
    → normalize_to_lf (restore_line_endings content line_ending) ≡ content
unfolding normalize_to_lf restore_line_endings
normalize-restore content lf h = rw (replace_crlf-Lacks content h) (replace_cr-Lacks content h)
normalize-restore content crlf h =
    rw (replace_crlf-replace_lf content h) (replace_cr-Lacks content h)

-- The content has no byte order mark of its own at its front.
abbrev pub IsUnmarked : Text → Type 0
IsUnmarked content = starts_with content byte_order_mark ≡ false

restore-IsUnmarked :
    (content : Text) (line_ending : LineEnding)
    → IsUnmarked content
    → IsUnmarked (restore_line_endings content line_ending)
unfolding restore_line_endings replace_lf starts_with
restore-IsUnmarked content lf h = h
restore-IsUnmarked [] crlf h = refl
restore-IsUnmarked (c ∷ content) crlf h = elim (Bool-cases (c == newline)) [
  | inl e ↦ rw e refl
  | inr e ↦ rw e h
]

strip_bom-marked : (body : Text) → strip_bom (byte_order_mark ++ body) ≡ (byte_order_mark, body)
unfolding strip_bom starts_with
strip_bom-marked body = refl

strip_bom-unmarked : (body : Text) → IsUnmarked body → strip_bom body ≡ ([], body)
unfolding strip_bom
strip_bom-unmarked body h = rw h refl

strip_bom-mark : (raw : Text) → ((strip_bom raw).0 ≡ byte_order_mark) ⊎ ((strip_bom raw).0 ≡ [])
unfolding strip_bom
strip_bom-mark raw = elim (Bool-cases (starts_with raw byte_order_mark)) [
  | inl h ↦ rw h (inl refl)
  | inr h ↦ rw h (inr refl)
]

strip_bom-again :
    (raw body : Text)
    → IsUnmarked body
    → strip_bom ((strip_bom raw).0 ++ body) ≡ ((strip_bom raw).0, body)
strip_bom-again raw body h = elim (strip_bom-mark raw) [
  | inl e ↦ rw e (strip_bom-marked body)
  | inr e ↦ rw e (strip_bom-unmarked body h)
]

-- A content without carriage returns and without a byte order mark of its own, stored as the new
-- content of a loaded file, is what loading the file again gives, with the same byte order mark.
pub load_text-stored_text :
    (raw_content content : Text)
    → Lacks carriage_return content
    → IsUnmarked content
    → let again = load_text (stored_text (load_text raw_content) content) in
      (again.content ≡ content) × (again.bom ≡ (load_text raw_content).bom)
unfolding load_text stored_text
load_text-stored_text raw_content content h k =
    let line_ending = detect_line_ending ((strip_bom raw_content).1) in
    let again =
      strip_bom-again raw_content (restore_line_endings content line_ending)
        (restore-IsUnmarked content line_ending k) in
    (
      ap (λ (p : Text × Text). normalize_to_lf (p.1)) again
          ∙ normalize-restore content line_ending h,
      ap (λ (p : Text × Text). p.0) again,
    )

replaced_char : (c : ℕ) → (if c == carriage_return then newline else c) ≢ carriage_return
replaced_char c = ground arith

replace_cr-Lacks_cr : (text : Text) → Lacks carriage_return (replace_cr text)
unfolding replace_cr
replace_cr-Lacks_cr [] = tt
replace_cr-Lacks_cr (c ∷ text) = (replaced_char c, replace_cr-Lacks_cr text)

-- A normalized text has no carriage return.
pub normalize_to_lf-Lacks : (text : Text) → Lacks carriage_return (normalize_to_lf text)
unfolding normalize_to_lf
normalize_to_lf-Lacks text = replace_cr-Lacks_cr (replace_crlf text)
