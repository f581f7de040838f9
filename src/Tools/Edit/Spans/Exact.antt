-- ===== src/Tools/Edit/Spans/Exact.antt =====
-- What an exact edit has matched and written.
use tile.Prelude.{
  ℕ, suc, ◌+◌, ◌<◌, String, ◌≡◌, refl, sym, ap, subst, ◌∙◌, ◌≢◌, inl, inr, true, false, List, [],
  ◌∷◌, arith, Bool-cases, length, All, ok, err, bind_ok, ok_inj,
}
use tile.Tools.Text.{Text, text_eq}
use tile.Tools.Text.Search.{OccursAt-bound, text_eq-true}
use tile.Tools.Edit.{
  EditReplacement, MatchedSpan, ReplacementApplication, tool_error, no_change_error,
}
use tile.Tools.Edit.Endings.{normalize_to_lf}
use tile.Tools.Edit.Spans.{
  find_text_starts, require_unique_match, exact_span, exact_spans, sort_spans,
  validate_non_overlapping, match_exact_spans, splice_text_spans, build_application,
  apply_exact_replacements,
}
use tile.Tools.Edit.Spans.Splice.{IsInside, assemble, splice_text_spans-assemble}
use tile.Tools.Edit.Spans.Occurs.{
  OccursFirst, find_text_starts-OccursFirst, require_unique_match-ok, normalize_to_lf-nonempty,
}

-- A span stands for an edit: it covers the first occurrence of the edit's old text,
-- and every other occurrence overlaps it.
pub record Matches (content : Text) (edit : EditReplacement) (span : MatchedSpan) : Type 0 where
  pub place : OccursFirst content (normalize_to_lf edit.old_text) span.start
  pub covers : span.end ≡ span.start + length (normalize_to_lf edit.old_text)
  pub replaces : span.replacement ≡ normalize_to_lf edit.new_text

abbrev pub MatchAll : Text → List EditReplacement → List MatchedSpan → Type 0
MatchAll content [] [] = Unit
MatchAll content [] (span ∷ spans) = ⊥
MatchAll content (edit ∷ edits) [] = ⊥
MatchAll content (edit ∷ edits) (span ∷ spans) =
    Matches content edit span × MatchAll content edits spans

abbrev pub HasOldText : EditReplacement → Type 0
HasOldText edit = 0 < length edit.old_text

exact_spans-MatchAll :
    (content : Text) (display_path : String) (total index : ℕ) (edits : List EditReplacement)
    (spans : List MatchedSpan)
    → All HasOldText edits
    → exact_spans content display_path total index edits ≡ ok spans
    → MatchAll content edits spans
unfolding exact_spans exact_span
exact_spans-MatchAll content display_path total index [] spans h k =
    subst (MatchAll content []) (ok_inj [] spans k) tt
exact_spans-MatchAll content display_path total index (edit ∷ edits) spans h k =
    let old_text = normalize_to_lf edit.old_text in
    let unique =
      bind_ok (require_unique_match (find_text_starts content old_text) display_path index total) _
        spans k in
    let later =
      bind_ok (exact_spans content display_path total (suc index) edits) _ spans (unique.2) in
    let starts = require_unique_match-ok _ display_path index total (unique.0) (unique.1) in
    let first : Matches content edit (exact_span index edit (unique.0)) = record {
      place =
          find_text_starts-OccursFirst content old_text (unique.0)
            (normalize_to_lf-nonempty edit.old_text (h.0)) starts;
      covers = refl;
      replaces = refl;
    } in
    subst (MatchAll content (edit ∷ edits)) (ok_inj _ spans (later.2)) (
      first,
      exact_spans-MatchAll content display_path total (suc index) edits (later.0) (h.1) (later.1),
    )

Matches-IsInside :
    (content : Text) (edit : EditReplacement) (span : MatchedSpan)
    → HasOldText edit
    → Matches content edit span
    → IsInside content span
Matches-IsInside content edit span h m =
    let size = normalize_to_lf-nonempty edit.old_text h in
    (
      omega (arith, size, m.covers),
      omega (
        arith,
        m.covers,
        OccursAt-bound content (normalize_to_lf edit.old_text) span.start size m.place.occurs,
      ),
    )

MatchAll-IsInside :
    (content : Text) (edits : List EditReplacement) (spans : List MatchedSpan)
    → All HasOldText edits
    → MatchAll content edits spans
    → All (IsInside content) spans
MatchAll-IsInside content [] [] h m = tt
MatchAll-IsInside content [] (span ∷ spans) h m = absurd m
MatchAll-IsInside content (edit ∷ edits) [] h m = absurd m
MatchAll-IsInside content (edit ∷ edits) (span ∷ spans) h m = (
  Matches-IsInside content edit span (h.0) (m.0),
  MatchAll-IsInside content edits spans (h.1) (m.1),
)

-- The result of an exact edit: the content with every old text replaced.
pub record Edited (content : Text) (edits : List EditReplacement)
    (application : ReplacementApplication) : Type 0 where
  pub spans : List MatchedSpan
  pub matched : MatchAll content edits spans
  pub base : application.base_content ≡ content
  pub replaced : application.new_content ≡ assemble content 0 (sort_spans spans)
  pub changed : application.base_content ≢ application.new_content

build_application-same :
    (content new_content : Text) (edits : List EditReplacement) (display_path : String)
    → text_eq content new_content ≡ true
    → build_application content new_content edits display_path
      ≡ err (tool_error (no_change_error display_path (length edits)))
unfolding build_application
build_application-same content new_content edits display_path h = rw h refl

build_application-new :
    (content new_content : Text) (edits : List EditReplacement) (display_path : String)
    → text_eq content new_content ≡ false
    → build_application content new_content edits display_path
      ≡ ok (record { base_content = content; new_content = new_content })
unfolding build_application
build_application-new content new_content edits display_path h = rw h refl

pub build_application-ok :
    (content new_content : Text) (edits : List EditReplacement) (display_path : String)
    (application : ReplacementApplication)
    → build_application content new_content edits display_path ≡ ok application
    → (application.base_content ≡ content)
      × (application.new_content ≡ new_content)
      × (application.base_content ≢ application.new_content)
unfolding build_application
build_application-ok content new_content edits display_path application h =
    elim (Bool-cases (text_eq content new_content)) [
      | inl e ↦ absurd (cc (h, build_application-same content new_content edits display_path e))
      | inr e ↦
          let same =
            ok_inj _ application
              (sym (build_application-new content new_content edits display_path e) ∙ h) in
          let base = ap (λ (a : ReplacementApplication). a.base_content) same in
          let new = ap (λ (a : ReplacementApplication). a.new_content) same in
          (
            sym base,
            sym new,
            λ equal. absurd (cc (text_eq-true content new_content (base ∙ (equal ∙ sym new)), e)),
          )
    ]

-- An exact edit that succeeds has taken each old text at its first occurrence in the content, and every
-- other occurrence overlaps that one; the new content is the content with these places replaced, put
-- together from left to right, and it differs from the content.
pub apply_exact_replacements-Edited :
    (content : Text) (edits : List EditReplacement) (display_path : String)
    (application : ReplacementApplication)
    → All HasOldText edits
    → apply_exact_replacements content edits display_path ≡ ok application
    → Edited content edits application
unfolding apply_exact_replacements match_exact_spans
apply_exact_replacements-Edited content edits display_path application h k =
    let outer = bind_ok (match_exact_spans content edits display_path) _ application k in
    let spans =
      bind_ok (exact_spans content display_path (length edits) 0 edits) _ (outer.0) (outer.1) in
    let valid = bind_ok (validate_non_overlapping (spans.0) display_path) _ (outer.0) (spans.2) in
    let same = ok_inj (spans.0) (outer.0) (valid.2) in
    let matched =
      exact_spans-MatchAll content display_path (length edits) 0 edits (spans.0) h (spans.1) in
    let inside = MatchAll-IsInside content edits (spans.0) h matched in
    let built =
      build_application-ok content (splice_text_spans content (outer.0)) edits display_path
        application (outer.2) in
    record {
      spans = spans.0;
      matched = matched;
      base = built.0;
      replaced =
          built.1
          ∙ (ap (splice_text_spans content) (sym same)
              ∙ splice_text_spans-assemble content (spans.0) display_path inside (valid.1));
      changed = built.2;
    }
