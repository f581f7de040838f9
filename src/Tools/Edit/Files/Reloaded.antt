-- ===== src/Tools/Edit/Files/Reloaded.antt =====
-- Loading a file that was edited.
use tile.Prelude.{
  ℕ, ◌-◌, String, ◌≡◌, refl, sym, subst, inl, inr, List, [], ◌∷◌, ◌++◌, length, take, drop, All,
  All-append, ok, bind_ok,
}
use tile.Tools.Text.{Text}
use tile.Tools.Text.Lines.{Lacks}
use tile.Tools.Edit.{
  EditReplacement, MatchedSpan, LoadedFile, EditExecutionResult, ReplacementApplication,
}
use tile.Tools.Edit.Endings.{carriage_return, normalize_to_lf, load_text, stored_text, strip_bom}
use tile.Tools.Edit.Endings.Reload.{normalize_to_lf-Lacks, IsUnmarked, load_text-stored_text}
use tile.Tools.Edit.Spans.{sort_spans}
use tile.Tools.Edit.Spans.Sorting.{sort_spans-All}
use tile.Tools.Edit.Spans.Splice.{assemble}
use tile.Tools.Edit.Spans.Exact.{MatchAll}
use tile.Tools.Edit.Fuzzy.Matched.{FuzzyMatchAll}
use tile.Tools.Edit.Files.{
  Files, edit_file, edit_read, edit_loaded, write_edited, apply_replacements_with_fallback,
}
use tile.Tools.Edit.Files.Applied.{apply_replacements_with_fallback-applied}
use tile.Tools.Edit.Files.Stored.{ReplacesCleanly, splice_text_spans-Lacks, All-take, All-drop}

assemble-Lacks :
    (content : Text) (position : ℕ) (spans : List MatchedSpan)
    → Lacks carriage_return content
    → All ReplacesCleanly spans
    → Lacks carriage_return (assemble content position spans)
unfolding assemble
assemble-Lacks content position [] h k = All-drop _ position content h
assemble-Lacks content position (span ∷ spans) h k =
    All-append _ (take (span.start - position) (drop position content) ++ span.replacement)
      (assemble content span.end spans)
      (All-append _ (take (span.start - position) (drop position content)) span.replacement
        (All-take _ (span.start - position) (drop position content) (All-drop _ position content h))
        (k.0))
      (assemble-Lacks content span.end spans h (k.1))

normalized-ReplacesCleanly :
    (span : MatchedSpan) (text : Text)
    → span.replacement ≡ normalize_to_lf text
    → ReplacesCleanly span
normalized-ReplacesCleanly span text h =
    subst (Lacks carriage_return) (sym h) (normalize_to_lf-Lacks text)

MatchAll-ReplacesCleanly :
    (content : Text) (edits : List EditReplacement) (spans : List MatchedSpan)
    → MatchAll content edits spans
    → All ReplacesCleanly spans
MatchAll-ReplacesCleanly content [] [] m = tt
MatchAll-ReplacesCleanly content [] (span ∷ spans) m = absurd m
MatchAll-ReplacesCleanly content (edit ∷ edits) [] m = absurd m
MatchAll-ReplacesCleanly content (edit ∷ edits) (span ∷ spans) m = (
  normalized-ReplacesCleanly span edit.new_text m.0.replaces,
  MatchAll-ReplacesCleanly content edits spans (m.1),
)

FuzzyMatchAll-ReplacesCleanly :
    (nfkc : Text → Text) (content : Text) (edits : List EditReplacement) (spans : List MatchedSpan)
    → FuzzyMatchAll nfkc content edits spans
    → All ReplacesCleanly spans
unfolding FuzzyMatchAll
FuzzyMatchAll-ReplacesCleanly nfkc content [] [] m = tt
FuzzyMatchAll-ReplacesCleanly nfkc content [] (span ∷ spans) m = absurd m
FuzzyMatchAll-ReplacesCleanly nfkc content (edit ∷ edits) [] m = absurd m
FuzzyMatchAll-ReplacesCleanly nfkc content (edit ∷ edits) (span ∷ spans) m = (
  normalized-ReplacesCleanly span edit.new_text m.0.replaces,
  FuzzyMatchAll-ReplacesCleanly nfkc content edits spans (m.1),
)

-- Edits bring no carriage return into a content that has none.
applied-Lacks :
    (nfkc : Text → Text) (content : Text) (edits : List EditReplacement) (display_path : String)
    (application : ReplacementApplication)
    → Lacks carriage_return content
    → apply_replacements_with_fallback nfkc content edits display_path ≡ ok application
    → Lacks carriage_return application.new_content
applied-Lacks nfkc content edits display_path application h k =
    elim (apply_replacements_with_fallback-applied nfkc content edits display_path application k) [
      | inl e ↦ subst (Lacks carriage_return) (sym e.replaced) (
          assemble-Lacks content 0 (sort_spans e.spans) h
            (sort_spans-All _ e.spans (MatchAll-ReplacesCleanly content edits e.spans e.matched)))
      | inr (message, failed, e) ↦ subst (Lacks carriage_return) (sym e.replaced) (
          splice_text_spans-Lacks content e.spans
            (FuzzyMatchAll-ReplacesCleanly nfkc content edits e.spans e.matched) h)
    ]

loaded-Lacks : (raw_content : Text) → Lacks carriage_return (load_text raw_content).content
unfolding load_text
loaded-Lacks raw_content = normalize_to_lf-Lacks ((strip_bom raw_content).1)

module _ {W : Type 0} (files : Files W) where
  -- A text that was written is the one that is read again.
  abbrev pub ReadsWritten : Type 0
  ReadsWritten =
      (path : String) (text : Text) (w : W)
      → (files.write_text path text w).0 ≡ ok tt
      → files.read_text path (files.write_text path text w).1 ≡ ok text

  write_edited-ok :
      (path : String) (loaded : LoadedFile) (application : ReplacementApplication) (count : ℕ)
      (display_path : String) (w : W) (result : EditExecutionResult)
      → (write_edited files path loaded application count display_path w).0 ≡ ok result
      → (files.write_text path (stored_text loaded application.new_content) w).0 ≡ ok tt
  unfolding write_edited
  write_edited-ok path loaded application count display_path w result h =
      (bind_ok (files.write_text path (stored_text loaded application.new_content) w).0 _ result
        h).1

  edit_file-written :
      (path : String) (edits : List EditReplacement) (display_path : String) (w : W)
      (raw_content : Text) (application : ReplacementApplication)
      → files.read_text path w ≡ ok raw_content
      → apply_replacements_with_fallback files.nfkc
          (load_text raw_content).content
          edits
          display_path
        ≡ ok application
      → edit_file files path edits display_path w
        ≡ write_edited files path (load_text raw_content) application (length edits) display_path w
  unfolding edit_file edit_read edit_loaded
  edit_file-written path edits display_path w raw_content application h k = rw (h, k) refl

  -- Where a written text is the one that is read again, and the edited content has no byte order mark
  -- of its own: after an edit that succeeds, loading the file again gives the edited content and the
  -- byte order mark that the file had.
  pub edit_file-reloaded :
      ReadsWritten
      → (path : String) (edits : List EditReplacement) (display_path : String) (w : W)
        (raw_content : Text) (application : ReplacementApplication) (result : EditExecutionResult)
      → files.read_text path w ≡ ok raw_content
      → apply_replacements_with_fallback files.nfkc
          (load_text raw_content).content
          edits
          display_path
        ≡ ok application
      → (edit_file files path edits display_path w).0 ≡ ok result
      → IsUnmarked application.new_content
      → (text : Text) × (files.read_text path (edit_file files path edits display_path w).1
          ≡ ok text)
        × ((load_text text).content ≡ application.new_content)
        × ((load_text text).bom ≡ (load_text raw_content).bom)
  unfolding write_edited
  edit_file-reloaded law path edits display_path w raw_content application result h k l m =
      let loaded = load_text raw_content in
      let written = edit_file-written path edits display_path w raw_content application h k in
      let stored = stored_text loaded application.new_content in
      let returned =
        write_edited-ok path loaded application (length edits) display_path w result
          (subst (λ r. r.0 ≡ ok result) written l) in
      let again =
        load_text-stored_text raw_content application.new_content
          (applied-Lacks files.nfkc loaded.content edits display_path application
            (loaded-Lacks raw_content) k)
          m in
      (
        stored,
        subst (λ r. files.read_text path (r.1) ≡ ok stored) (sym written)
            (law path stored w returned),
        again.0,
        again.1,
      )
