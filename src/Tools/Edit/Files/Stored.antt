-- ===== src/Tools/Edit/Files/Stored.antt =====
-- What the edit of a file leaves in the files.
use tile.Prelude.{
  ℕ, zero, suc, String, ◌≡◌, refl, ap, ◌⊎◌, inl, inr, List, [], ◌∷◌, ◌++◌, reverse, length, take,
  drop, All, All-append, Result, ok, err, ◌>>◌,
}
use tile.Tools.Text.{Text}
use tile.Tools.Text.Lines.{Lacks}
use tile.Tools.Edit.{EditReplacement, MatchedSpan, LoadedFile, ReplacementApplication, EditError}
use tile.Tools.Edit.Endings.{carriage_return, load_text, stored_text}
use tile.Tools.Edit.Spans.{
  splice_text_spans, replace_spans, replace_span, sort_spans, sort_spans_reverse,
}
use tile.Tools.Edit.Spans.Sorting.{sort_spans-All, All-reverse}
use tile.Tools.Edit.Files.{Files, edit_file, edit_read, edit_loaded, write_edited}

pub All-take {ℓ κ} :
    {A : Type ℓ} (P : A → Type κ) (n : ℕ) (xs : List A) → All P xs → All P (take n xs)
All-take P zero xs h = tt
All-take P (suc n) [] h = tt
All-take P (suc n) (x ∷ xs) h = (h.0, All-take P n xs (h.1))

pub All-drop {ℓ κ} :
    {A : Type ℓ} (P : A → Type κ) (n : ℕ) (xs : List A) → All P xs → All P (drop n xs)
All-drop P zero xs h = h
All-drop P (suc n) [] h = tt
All-drop P (suc n) (x ∷ xs) h = All-drop P n xs (h.1)

abbrev pub ReplacesCleanly : MatchedSpan → Type 0
ReplacesCleanly span = Lacks carriage_return span.replacement

replace_spans-Lacks :
    (spans : List MatchedSpan) (text : Text)
    → All ReplacesCleanly spans
    → Lacks carriage_return text
    → Lacks carriage_return (replace_spans text spans)
unfolding replace_spans replace_span
replace_spans-Lacks [] text h k = k
replace_spans-Lacks (span ∷ spans) text h k =
    replace_spans-Lacks spans (replace_span text span) (h.1) (
      All-append _ (take span.start text ++ span.replacement) (drop span.end text)
        (All-append _ (take span.start text) span.replacement (All-take _ span.start text k) (h.0))
        (All-drop _ span.end text k))

pub splice_text_spans-Lacks :
    (content : Text) (spans : List MatchedSpan)
    → All ReplacesCleanly spans
    → Lacks carriage_return content
    → Lacks carriage_return (splice_text_spans content spans)
unfolding splice_text_spans sort_spans_reverse
splice_text_spans-Lacks content spans h k =
    replace_spans-Lacks (reverse (sort_spans (reverse spans))) content
      (All-reverse _ (sort_spans (reverse spans))
        (sort_spans-All _ (reverse spans) (All-reverse _ spans h)))
      k

error_or {ℓ} : {A : Type ℓ} → Result EditError A → EditError → EditError
error_or (ok a) other = other
error_or (err e) other = e

then_ok :
    {A : Type 0} (m : Result {0, 0} EditError Unit) (a : A) (e : EditError)
    → (m >> ok a) ≡ err e
    → m ≡ err e
unfolding error_or
then_ok (ok u) a e h = absurd (cc)
then_ok (err raised) a e h = ap err (ap (λ r. error_or r raised) h)

module _ {W : Type 0} (files : Files W) where
  -- What a call that raises leaves: the files as they were, or what a write that raised has left.
  abbrev pub Unchanged : String → W → EditError → W → Type 0
  Unchanged path w e after =
      (after ≡ w)
      ⊎ ((text : Text) × ((files.write_text path text w).0 ≡ err e)
          × (after ≡ (files.write_text path text w).1))

  write_edited-Unchanged :
      (path : String) (loaded : LoadedFile) (application : ReplacementApplication) (count : ℕ)
      (display_path : String) (w : W) (e : EditError)
      → (write_edited files path loaded application count display_path w).0 ≡ err e
      → Unchanged path w e ((write_edited files path loaded application count display_path w).1)
  unfolding write_edited
  write_edited-Unchanged path loaded application count display_path w e h =
      inr (stored_text loaded application.new_content, then_ok _ _ e h, refl)

  edit_loaded-Unchanged :
      (path : String) (loaded : LoadedFile) (edits : List EditReplacement) (display_path : String)
      (w : W) (e : EditError) (applied : Result EditError ReplacementApplication)
      → (edit_loaded files path loaded edits display_path w applied).0 ≡ err e
      → Unchanged path w e ((edit_loaded files path loaded edits display_path w applied).1)
  unfolding edit_loaded
  edit_loaded-Unchanged path loaded edits display_path w e (ok application) h =
      write_edited-Unchanged path loaded application (length edits) display_path w e h
  edit_loaded-Unchanged path loaded edits display_path w e (err raised) h = inl refl

  edit_read-Unchanged :
      (path : String) (edits : List EditReplacement) (display_path : String) (w : W) (e : EditError)
      (raw : Result EditError Text)
      → (edit_read files path edits display_path w raw).0 ≡ err e
      → Unchanged path w e ((edit_read files path edits display_path w raw).1)
  unfolding edit_read
  edit_read-Unchanged path edits display_path w e (ok raw_content) h =
      edit_loaded-Unchanged path (load_text raw_content) edits display_path w e _ h
  edit_read-Unchanged path edits display_path w e (err raised) h = inl refl

  -- An edit that raises has changed no file, unless the write of the edited file is what has raised.
  pub edit_file-Unchanged :
      (path : String) (edits : List EditReplacement) (display_path : String) (w : W) (e : EditError)
      → (edit_file files path edits display_path w).0 ≡ err e
      → Unchanged path w e ((edit_file files path edits display_path w).1)
  unfolding edit_file
  edit_file-Unchanged path edits display_path w e h =
      edit_read-Unchanged path edits display_path w e (files.read_text path w) h
