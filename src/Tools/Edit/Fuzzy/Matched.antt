-- ===== src/Tools/Edit/Fuzzy/Matched.antt =====
-- What a fuzzy edit has matched.
use tile.Prelude.{
  ℕ, suc, ◌+◌, ◌-◌, ◌≤◌, ◌<◌, String, ◌≡◌, refl, sym, ap, subst, ◌∙◌, inl, inr, Bool, true, not,
  ◌&&◌, List, [], ◌∷◌, ◌++◌, map, append-nil, append_assoc, arith, Bool-cases, length, take, drop,
  All, length-append, take-append-drop, take-append, drop-append, ok, bind_ok, ok_inj, List-cases,
}
use tile.Tools.Text.{Text, concat, ends_with_newline}
use tile.Tools.Edit.{EditReplacement, MatchedSpan}
use tile.Tools.Edit.Endings.{normalize_to_lf}
use tile.Tools.Edit.Spans.Occurs.{normalize_to_lf-nonempty, require_unique_match-ok}
use tile.Tools.Edit.Spans.Exact.{HasOldText}
use tile.Tools.Edit.Fuzzy.{
  require_unique_match, validate_non_overlapping, fuzzy_spans, match_fuzzy_spans,
  normalize_for_fuzzy_match, terminated_lines, line_start_offsets, window_char_span, window_last,
  window_matches_at, find_window_starts, old_window, fuzzy_span,
}
use tile.Tools.Edit.Fuzzy.Lines.{
  concat-terminated_lines, concat-append, claimed, window_char_span_lem,
}
use tile.Tools.Edit.Fuzzy.Windows.{
  WindowAt, window_matches_at-WindowAt, find_window_starts-one, length-window_head, length-map,
}

terminated_lines-nonempty : (text : Text) → 0 < length text → 0 < length (terminated_lines text)
unfolding concat
terminated_lines-nonempty text h = elim (List-cases (terminated_lines text)) [
  | inl e ↦ absurd (omega (arith, h, ap length (sym (ap concat e) ∙ concat-terminated_lines text)))
  | inr e ↦ omega (arith, ap length (e.2))
]

claimed-rest :
    (old_terminated : Bool) (line : Text)
    → (rest : Text) × (line ≡ claimed old_terminated line ++ rest)
claimed-rest old_terminated line =
    elim (Bool-cases (not old_terminated && ends_with_newline line)) [
      | inl e ↦ rw e (drop (length line - 1) line, sym (take-append-drop (length line - 1) line))
      | inr e ↦ rw e ([], sym (append-nil line))
    ]

slice_assoc :
    (middle covered rest after : Text)
    → middle ++ ((covered ++ rest) ++ after) ≡ (middle ++ covered) ++ (rest ++ after)
slice_assoc middle covered rest after = simp append_assoc

slice-middle :
    (before middle covered rest after : Text)
    → take
        (length middle + length covered)
        (drop (length before) (before ++ (middle ++ ((covered ++ rest) ++ after))))
      ≡ middle ++ covered
slice-middle before middle covered rest after =
    rw
      (
        drop-append before (middle ++ ((covered ++ rest) ++ after)),
        sym (length-append middle covered),
      )
      (ap (take (length (middle ++ covered))) (slice_assoc middle covered rest after)
        ∙ take-append (middle ++ covered) (rest ++ after))

slice-bound :
    (before middle covered rest after : Text)
    → length before + length middle + length covered
      ≤ length (before ++ (middle ++ ((covered ++ rest) ++ after)))
slice-bound before middle covered rest after = omega (
  arith,
  length-append before (middle ++ ((covered ++ rest) ++ after)),
  length-append middle ((covered ++ rest) ++ after),
  length-append (covered ++ rest) after,
  length-append covered rest,
)

module _ (nfkc : Text → Text) (content : Text) where
  -- The span of an edit covers the one window of lines of the content whose normalized lines match the
  -- normalized lines of the old text, less a newline at the end that the old text does not claim.
  pub record FuzzyMatches (edit : EditReplacement) (span : MatchedSpan) : Type 0 where
    pub start_line : ℕ
    pub window :
        WindowAt
          (normalize_for_fuzzy_match nfkc)
          (terminated_lines content)
          (old_window nfkc edit)
          start_line
    pub only :
        (i : ℕ)
        → i + length (old_window nfkc edit) ≤ length (terminated_lines content)
        → window_matches_at
            (map (normalize_for_fuzzy_match nfkc) (terminated_lines content))
            (old_window nfkc edit)
            i
          ≡ true
        → i ≡ start_line
    pub in_order : span.start ≤ span.end
    pub in_bounds : span.end ≤ length content
    pub covers :
        take (span.end - span.start) (drop span.start content)
        ≡ concat window.head
          ++ claimed (ends_with_newline (window_last (old_window nfkc edit))) window.last
    pub replaces : span.replacement ≡ normalize_to_lf edit.new_text

  old_window-nonempty :
      (edit : EditReplacement) → HasOldText edit → 0 < length (old_window nfkc edit)
  unfolding old_window
  old_window-nonempty edit h = omega (
    arith,
    length-map (normalize_for_fuzzy_match nfkc) (terminated_lines (normalize_to_lf edit.old_text)),
    terminated_lines-nonempty (normalize_to_lf edit.old_text)
        (normalize_to_lf-nonempty edit.old_text h),
  )

  window_starts-WindowAt :
      (edit : EditReplacement) (start_line : ℕ)
      → HasOldText edit
      → find_window_starts
          (map (normalize_for_fuzzy_match nfkc) (terminated_lines content))
          (old_window nfkc edit)
        ≡ start_line ∷ []
      → WindowAt
          (normalize_for_fuzzy_match nfkc)
          (terminated_lines content)
          (old_window nfkc edit)
          start_line
  window_starts-WindowAt edit start_line h k =
      let one = find_window_starts-one _ (old_window nfkc edit) start_line k in
      window_matches_at-WindowAt (normalize_for_fuzzy_match nfkc) (terminated_lines content)
        (old_window nfkc edit) start_line (old_window-nonempty edit h)
        (omega
          (arith, one.1, length-map (normalize_for_fuzzy_match nfkc) (terminated_lines content)))
        (one.0)

  -- The span that `_window_char_span` gives for a window that matches.
  fuzzy_span-ends :
      (index : ℕ) (edit : EditReplacement) (start_line : ℕ)
      (w : WindowAt
        (normalize_for_fuzzy_match nfkc)
        (terminated_lines content)
        (old_window nfkc edit)
        start_line)
      → HasOldText edit
      → let span = fuzzy_span nfkc (terminated_lines content) index edit start_line in
        let covered = claimed (ends_with_newline (window_last (old_window nfkc edit))) w.last in
        (span.start ≡ length (concat w.before))
        × (span.end ≡ length (concat w.before) + length (concat w.head) + length covered)
  unfolding fuzzy_span
  fuzzy_span-ends index edit start_line w h =
      let window = old_window nfkc edit in
      let last_line : start_line + length window - 1 ≡ length w.before + length w.head = omega (
        arith,
        w.start_line,
        ap length w.same_head,
        length-map (normalize_for_fuzzy_match nfkc) w.head,
        length-window_head window (old_window-nonempty edit h),
      ) in
      let both =
        window_char_span_lem w.before w.head w.last w.after
          (ends_with_newline (window_last window)) in
      let terminated = ends_with_newline (window_last window) in
      let lines = w.before ++ (w.head ++ w.last ∷ w.after) in
      let last = start_line + length window - 1 in
      let moved =
        ap (λ ls. window_char_span ls (line_start_offsets ls) start_line last terminated) w.splits
        ∙ (ap (λ (n : ℕ). window_char_span lines (line_start_offsets lines) n last terminated)
              (sym w.start_line)
            ∙ (ap
                  (λ (n : ℕ).
                    window_char_span lines (line_start_offsets lines) (length w.before) n
                      terminated)
                  last_line
                ∙ both)) in
      (ap (λ (p : ℕ × ℕ). p.0) moved, ap (λ (p : ℕ × ℕ). p.1) moved)

  -- What stands in the content behind the lines before a window.
  content-window :
      (edit : EditReplacement) (start_line : ℕ)
      (w : WindowAt
        (normalize_for_fuzzy_match nfkc)
        (terminated_lines content)
        (old_window nfkc edit)
        start_line)
      → content ≡ concat w.before ++ (concat w.head ++ (w.last ++ concat w.after))
  unfolding concat
  content-window edit start_line w =
      sym (concat-terminated_lines content)
      ∙ (ap concat w.splits
          ∙ (concat-append w.before (w.head ++ w.last ∷ w.after)
              ∙ ap (λ t. concat w.before ++ t) (concat-append w.head (w.last ∷ w.after))))

  fuzzy_span-replacement :
      (index : ℕ) (edit : EditReplacement) (start_line : ℕ)
      → (fuzzy_span nfkc (terminated_lines content) index edit start_line).replacement
        ≡ normalize_to_lf edit.new_text
  unfolding fuzzy_span
  fuzzy_span-replacement index edit start_line = refl

  fuzzy_span-FuzzyMatches :
      (index : ℕ) (edit : EditReplacement) (start_line : ℕ)
      → HasOldText edit
      → find_window_starts
          (map (normalize_for_fuzzy_match nfkc) (terminated_lines content))
          (old_window nfkc edit)
        ≡ start_line ∷ []
      → FuzzyMatches edit (fuzzy_span nfkc (terminated_lines content) index edit start_line)
  fuzzy_span-FuzzyMatches index edit start_line h k =
      let w = window_starts-WindowAt edit start_line h k in
      let ends = fuzzy_span-ends index edit start_line w h in
      let terminated = ends_with_newline (window_last (old_window nfkc edit)) in
      let covered = claimed terminated w.last in
      let rest = claimed-rest terminated w.last in
      let span = fuzzy_span nfkc (terminated_lines content) index edit start_line in
      let size = length (concat w.head) + length covered in
      let whole =
        content-window edit start_line w
        ∙ ap (λ t. concat w.before ++ (concat w.head ++ (t ++ concat w.after))) (rest.1) in
      record {
        start_line = start_line;
        window = w;
        only = λ i inside. (find_window_starts-one _ (old_window nfkc edit) start_line k).2 i (
            omega (
              arith,
              inside,
              length-map (normalize_for_fuzzy_match nfkc) (terminated_lines content),
            ));
        in_order = omega (arith, ends.0, ends.1);
        in_bounds = omega (
          arith,
          ends.1,
          ap length whole,
          slice-bound (concat w.before) (concat w.head) covered (rest.0) (concat w.after),
        );
        covers =
            ap (λ (n : ℕ). take n (drop span.start content)) (omega (arith, ends.0, ends.1))
            ∙ (ap (λ (n : ℕ). take size (drop n content)) (ends.0)
                ∙ (ap (λ t. take size (drop (length (concat w.before)) t)) whole
                    ∙ slice-middle (concat w.before) (concat w.head) covered (rest.0)
                        (concat w.after)));
        replaces = fuzzy_span-replacement index edit start_line;
      }

  unfoldable pub FuzzyMatchAll : List EditReplacement → List MatchedSpan → Type 0
  FuzzyMatchAll [] [] = Unit
  FuzzyMatchAll [] (span ∷ spans) = ⊥
  FuzzyMatchAll (edit ∷ edits) [] = ⊥
  FuzzyMatchAll (edit ∷ edits) (span ∷ spans) = FuzzyMatches edit span × FuzzyMatchAll edits spans

  fuzzy_spans-FuzzyMatchAll :
      (display_path : String) (total index : ℕ) (edits : List EditReplacement)
      (spans : List MatchedSpan)
      → All HasOldText edits
      → fuzzy_spans nfkc (terminated_lines content) display_path total index edits ≡ ok spans
      → FuzzyMatchAll edits spans
  unfolding fuzzy_spans FuzzyMatchAll
  fuzzy_spans-FuzzyMatchAll display_path total index [] spans h k =
      subst (FuzzyMatchAll []) (ok_inj [] spans k) tt
  fuzzy_spans-FuzzyMatchAll display_path total index (edit ∷ edits) spans h k =
      let starts =
        find_window_starts (map (normalize_for_fuzzy_match nfkc) (terminated_lines content))
          (old_window nfkc edit) in
      let unique = bind_ok (require_unique_match starts display_path index total) _ spans k in
      let later =
        bind_ok (fuzzy_spans nfkc (terminated_lines content) display_path total (suc index) edits) _
          spans (unique.2) in
      subst (FuzzyMatchAll (edit ∷ edits)) (ok_inj _ spans (later.2)) (
        fuzzy_span-FuzzyMatches index edit (unique.0) (h.0)
            (require_unique_match-ok starts display_path index total (unique.0) (unique.1)),
        fuzzy_spans-FuzzyMatchAll display_path total (suc index) edits (later.0) (h.1) (later.1),
      )

  -- Where the fuzzy matching of edits succeeds, every edit has a span that covers the one window of
  -- lines of the content that matches its old text after normalization.
  pub match_fuzzy_spans-FuzzyMatchAll :
      (edits : List EditReplacement) (display_path : String) (spans : List MatchedSpan)
      → All HasOldText edits
      → match_fuzzy_spans nfkc content edits display_path ≡ ok spans
      → FuzzyMatchAll edits spans
  unfolding match_fuzzy_spans
  match_fuzzy_spans-FuzzyMatchAll edits display_path spans h k =
      let found =
        bind_ok (fuzzy_spans nfkc (terminated_lines content) display_path (length edits) 0 edits) _
          spans k in
      let valid = bind_ok (validate_non_overlapping (found.0) display_path) _ spans (found.2) in
      subst (FuzzyMatchAll edits) (ok_inj (found.0) spans (valid.2))
        (fuzzy_spans-FuzzyMatchAll display_path (length edits) 0 edits (found.0) h (found.1))
