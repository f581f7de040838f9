-- ===== src/Tools/Edit/Files/Applied.antt =====
-- What the edits of a content have done.
use tile.Prelude.{
  ℕ, suc, ◌<◌, String, ◌≡◌, refl, sym, ◌∙◌, ◌≢◌, ◌⊎◌, inl, inr, true, false, List, [], ◌∷◌, arith,
  Bool-cases, length, All, Result, ok, err, bind_ok,
}
use tile.Tools.Text.{Text, text_eq}
use tile.Tools.Edit.{
  EditReplacement, MatchedSpan, ReplacementApplication, EditError, match_not_found, tool_error,
  system_error, empty_old_text_error,
}
use tile.Tools.Edit.Spans.{apply_exact_replacements, splice_text_spans}
use tile.Tools.Edit.Spans.Exact.{
  HasOldText, Edited, apply_exact_replacements-Edited, build_application-ok,
}
use tile.Tools.Edit.Fuzzy.{apply_fuzzy_replacements, match_fuzzy_spans}
use tile.Tools.Edit.Fuzzy.Matched.{FuzzyMatchAll, match_fuzzy_spans-FuzzyMatchAll}
use tile.Tools.Edit.Files.{
  check_old_texts, validate_non_empty_old_text, on_match_not_found,
  apply_replacements_with_fallback,
}

text_eq-nonempty : (text : Text) → text_eq text [] ≡ false → 0 < length text
unfolding text_eq
text_eq-nonempty [] h = absurd (cc)
text_eq-nonempty (c ∷ text) h = omega arith

check_old_texts-empty :
    (display_path : String) (total index : ℕ) (edit : EditReplacement)
    (edits : List EditReplacement)
    → text_eq edit.old_text [] ≡ true
    → check_old_texts display_path total index (edit ∷ edits)
      ≡ err (tool_error (empty_old_text_error display_path index total))
unfolding check_old_texts
check_old_texts-empty display_path total index edit edits h = rw h refl

check_old_texts-next :
    (display_path : String) (total index : ℕ) (edit : EditReplacement)
    (edits : List EditReplacement)
    → text_eq edit.old_text [] ≡ false
    → check_old_texts display_path total index (edit ∷ edits)
      ≡ check_old_texts display_path total (suc index) edits
unfolding check_old_texts
check_old_texts-next display_path total index edit edits h = rw h refl

check_old_texts-cons :
    (display_path : String) (total index : ℕ) (edit : EditReplacement)
    (edits : List EditReplacement)
    → check_old_texts display_path total index (edit ∷ edits) ≡ ok tt
    → HasOldText edit × (check_old_texts display_path total (suc index) edits ≡ ok tt)
check_old_texts-cons display_path total index edit edits h =
    elim (Bool-cases (text_eq edit.old_text [])) [
      | inl e ↦ absurd (cc (h, check_old_texts-empty display_path total index edit edits e))
      | inr e ↦ (
        text_eq-nonempty edit.old_text e,
        sym (check_old_texts-next display_path total index edit edits e) ∙ h,
      )
    ]

check_old_texts-HasOldText :
    (display_path : String) (total index : ℕ) (edits : List EditReplacement)
    → check_old_texts display_path total index edits ≡ ok tt
    → All HasOldText edits
check_old_texts-HasOldText display_path total index [] h = tt
check_old_texts-HasOldText display_path total index (edit ∷ edits) h =
    let parts = check_old_texts-cons display_path total index edit edits h in
    (parts.0, check_old_texts-HasOldText display_path total (suc index) edits (parts.1))

-- The result of a fuzzy edit: the content with its matched windows of lines replaced.
pub record FuzzyEdited (nfkc : Text → Text) (content : Text) (edits : List EditReplacement)
    (application : ReplacementApplication) : Type 0 where
  pub spans : List MatchedSpan
  pub matched : FuzzyMatchAll nfkc content edits spans
  pub base : application.base_content ≡ content
  pub replaced : application.new_content ≡ splice_text_spans content spans
  pub changed : application.base_content ≢ application.new_content

apply_fuzzy_replacements-FuzzyEdited :
    (nfkc : Text → Text) (content : Text) (edits : List EditReplacement) (display_path : String)
    (application : ReplacementApplication)
    → All HasOldText edits
    → apply_fuzzy_replacements nfkc content edits display_path ≡ ok application
    → FuzzyEdited nfkc content edits application
unfolding apply_fuzzy_replacements
apply_fuzzy_replacements-FuzzyEdited nfkc content edits display_path application h k =
    let matched = bind_ok (match_fuzzy_spans nfkc content edits display_path) _ application k in
    let built =
      build_application-ok content (splice_text_spans content (matched.0)) edits display_path
        application (matched.2) in
    record {
      spans = matched.0;
      matched =
          match_fuzzy_spans-FuzzyMatchAll nfkc content edits display_path (matched.0) h (matched.1);
      base = built.0;
      replaced = built.1;
      changed = built.2;
    }

on_match_not_found-ok :
    {A : Type 0} (first fallback : Result EditError A) (a : A)
    → on_match_not_found first fallback ≡ ok a
    → (first ≡ ok a)
      ⊎ ((message : String) × (first ≡ err (match_not_found message)) × (fallback ≡ ok a))
unfolding on_match_not_found
on_match_not_found-ok (ok b) fallback a h = inl h
on_match_not_found-ok (err (match_not_found message)) fallback a h = inr (message, refl, h)
on_match_not_found-ok (err (tool_error message)) fallback a h = absurd (cc)
on_match_not_found-ok (err (system_error message)) fallback a h = absurd (cc)

-- Edits that succeed on a content have either all matched exactly, each at the first occurrence of its
-- old text where every other occurrence overlaps that one, or the exact match has raised `MatchNotFound`
-- and all have matched unique windows of lines after normalization. In the first case
-- the new content is put together from left to right.
pub apply_replacements_with_fallback-applied :
    (nfkc : Text → Text) (content : Text) (edits : List EditReplacement) (display_path : String)
    (application : ReplacementApplication)
    → apply_replacements_with_fallback nfkc content edits display_path ≡ ok application
    → Edited content edits application
      ⊎ ((message : String) × (apply_exact_replacements content edits display_path
            ≡ err (match_not_found message))
          × FuzzyEdited nfkc content edits application)
unfolding apply_replacements_with_fallback validate_non_empty_old_text
apply_replacements_with_fallback-applied nfkc content edits display_path application h =
    let checked = bind_ok (check_old_texts display_path (length edits) 0 edits) _ application h in
    let old_texts = check_old_texts-HasOldText display_path (length edits) 0 edits (checked.1) in
    elim (on_match_not_found-ok _ _ application (checked.2)) [
      | inl exact ↦
          inl
            (apply_exact_replacements-Edited content edits display_path application old_texts exact)
      | inr fuzzy ↦ inr (
        fuzzy.0,
        fuzzy.1,
        apply_fuzzy_replacements-FuzzyEdited nfkc content edits display_path application old_texts
            (fuzzy.2),
      )
    ]
