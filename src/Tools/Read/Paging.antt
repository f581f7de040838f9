-- ===== src/Tools/Read/Paging.antt =====
-- Reading a file page by page: a client that follows the offsets of the notices.
use tile.Prelude.{
  ℕ, zero, suc, ◌+◌, ◌≤◌, ◌<◌, ◌≡◌, refl, sym, ap, subst, ◌∙◌, ◌⊎◌, inl, inr, true, false, Option,
  none, some, List, [], ◌∷◌, ◌++◌, arith, if◌then◌else◌, lt→leb-false, length, drop, All,
  length-append, length-drop, drop-append, Result, ok, err, List-cases,
}
use tile.Tools.Text.{Text, newline, utf8_length, split_lines, join_lines}
use tile.Tools.Text.Lines.{
  AreLines, Lacks, split_lines-AreLines, split_lines-join_lines, join_lines-split_lines,
  join_lines-append, join_lines-cons,
}
use tile.Tools.Text.Search.{drop-drop}
use tile.Tools.Truncation.{
  Truncation, TruncationReason, by_lines, by_bytes, head, truncate_head, truncate_text,
}
use tile.Tools.Truncation.Kept.{KeepsMost, KeepsAll, IsFull, truncate_text-Keeps}
use tile.Tools.Read.{ℤ, pos, ReadSelection, start_index, select_content, next_offset}

abbrev prepend : Text → Option (List Text) → Option (List Text)
prepend page none = none
prepend page (some pages) = some (page ∷ pages)

-- One page, and the rest where the page is truncated.
abbrev with_rest : Truncation → Option (List Text) → Option (List Text)
with_rest page rest = if page.truncated then prepend page.content rest else some (page.content ∷ [])

-- No pages where the selection raises.
abbrev on_selection :
    Result Text ReadSelection → (ReadSelection → Option (List Text)) → Option (List Text)
on_selection (err message) f = none
on_selection (ok selection) f = f selection

-- The pages from an offset on, on fuel; none where the fuel runs out or a page cannot be read.
unfoldable pub read_pages : ℕ → ℕ → Text → ℕ → ℕ → Option (List Text)
read_pages zero byte_limit content limit offset = none
read_pages (suc fuel) byte_limit content limit offset =
    on_selection (select_content content (some (pos offset))) λ selection.
      let page = truncate_head selection.content limit byte_limit in
      with_rest page (read_pages fuel byte_limit content limit (next_offset selection page))

with_rest-last :
    (page : Truncation) (rest : Option (List Text))
    → page.truncated ≡ false
    → with_rest page rest ≡ some (page.content ∷ [])
with_rest-last page rest h = rw h refl

with_rest-more :
    (page : Truncation) (rest : Option (List Text)) (pages : List Text)
    → page.truncated ≡ true
    → rest ≡ some pages
    → with_rest page rest ≡ some (page.content ∷ pages)
with_rest-more page rest pages h k = rw (h, k) refl

abbrev pub FitsLine : ℕ → Text → Type 0
FitsLine byte_limit line = utf8_length line ≤ byte_limit

All-append_right {ℓ κ} :
    {A : Type ℓ} (P : A → Type κ) (xs ys : List A) → All P (xs ++ ys) → All P ys
All-append_right P [] ys h = h
All-append_right P (x ∷ xs) ys h = All-append_right P xs ys (h.1)

next-fits :
    {byte_limit : ℕ} (lines kept : List Text) (next : Text) (more : List Text)
    → All (FitsLine byte_limit) lines
    → lines ≡ kept ++ next ∷ more
    → utf8_length next ≤ byte_limit
next-fits {byte_limit} lines kept next more h e =
    (All-append_right (FitsLine byte_limit) kept (next ∷ more)
      (subst (All (FitsLine byte_limit)) e h)).0

empty-page :
    {byte_limit limit : ℕ} (reason : TruncationReason) (next : Text)
    → 1 ≤ limit
    → utf8_length next ≤ byte_limit
    → ¬ IsFull reason head limit byte_limit [] next
unfolding join_lines
empty-page by_lines next h k full = absurd (omega (arith, h, full))
empty-page by_bytes next h k full = absurd (omega (arith, k, full))

module _ (byte_limit limit : ℕ) where
  -- A page that is truncated has at least one line.
  page-nonempty :
      (lines : List Text) (t : Truncation)
      → 1 ≤ limit
      → All (FitsLine byte_limit) lines
      → (k : KeepsMost head limit byte_limit lines t) → 0 < length k.kept
  page-nonempty lines t h fits k = elim (List-cases k.kept) [
    | inl e ↦ absurd (
        empty-page k.reason k.next h (next-fits lines k.kept k.next k.more fits k.beside)
          (subst (λ ls. IsFull k.reason head limit byte_limit ls k.next) e k.full))
    | inr e ↦ omega (arith, ap length (e.2))
  ]

select_content-at :
    (content : Text) (offset : Option ℤ) (start : ℕ)
    → start_index offset ≡ start
    → start < length (split_lines content)
    → select_content content offset
      ≡ ok (record {
        content = join_lines (drop start (split_lines content));
        start_line = start + 1;
        total_lines = length (split_lines content);
      })
unfolding select_content
select_content-at content offset start h k =
    rw (h, lt→leb-false start (length (split_lines content)) k) refl

start_index-pos : (start : ℕ) → start_index (some (pos (start + 1))) ≡ start
unfolding start_index
start_index-pos start = omega arith

-- The selection from a line of a content.
abbrev selected : Text → ℕ → ReadSelection
selected content start = record {
  content = join_lines (drop start (split_lines content));
  start_line = start + 1;
  total_lines = length (split_lines content);
}

read_pages-at :
    (fuel byte_limit : ℕ) (content : Text) (limit start : ℕ)
    → start < length (split_lines content)
    → let selection = selected content start in
      let page = truncate_head selection.content limit byte_limit in
      read_pages (suc fuel) byte_limit content limit (start + 1)
      ≡ with_rest page (read_pages fuel byte_limit content limit (next_offset selection page))
unfolding read_pages
read_pages-at fuel byte_limit content limit start h =
    rw (select_content-at content (some (pos (start + 1))) start (start_index-pos start) h) refl

All-drop_lines {ℓ κ} :
    {A : Type ℓ} (P : A → Type κ) (n : ℕ) (xs : List A) → All P xs → All P (drop n xs)
All-drop_lines P zero xs h = h
All-drop_lines P (suc n) [] h = tt
All-drop_lines P (suc n) (x ∷ xs) h = All-drop_lines P n xs (h.1)

drop-AreLines :
    (text : Text) (n : ℕ) → n < length (split_lines text) → AreLines (drop n (split_lines text))
drop-AreLines text n h = (
  omega (arith, length-drop n (split_lines text)),
  All-drop_lines (Lacks newline) n (split_lines text) ((split_lines-AreLines text).1),
)

module _ (byte_limit limit : ℕ) where
  page-Keeps :
      (content : Text) (start : ℕ)
      → start < length (split_lines content)
      → let text = join_lines (drop start (split_lines content)) in
        KeepsAll limit byte_limit text (truncate_head text limit byte_limit)
        ⊎ KeepsMost head limit byte_limit
            (drop start (split_lines content))
            (truncate_head text limit byte_limit)
  unfolding truncate_head
  page-Keeps content start h =
      let lines = drop start (split_lines content) in
      elim (truncate_text-Keeps limit byte_limit (join_lines lines) head) [
        | inl all ↦ inl (all.1)
        | inr most ↦ inr (
            subst
              (λ ls.
                KeepsMost head limit byte_limit ls
                  (truncate_text (join_lines lines) head limit byte_limit))
              (split_lines-join_lines lines (drop-AreLines content start h)) (most.1))
      ]

  -- Every page from a line on can be read, and the pages together are the content from that line on.
  abbrev Paged : ℕ → Text → ℕ → Type 0
  Paged fuel content start =
      (pages : List Text) × (read_pages fuel byte_limit content limit (start + 1) ≡ some pages)
      × (0 < length pages)
      × (join_lines pages ≡ join_lines (drop start (split_lines content)))

  read_pages-last :
      (fuel : ℕ) (content : Text) (start : ℕ) (h : start < length (split_lines content))
      → let text = join_lines (drop start (split_lines content)) in
        KeepsAll limit byte_limit text (truncate_head text limit byte_limit)
        → Paged (suc fuel) content start
  unfolding join_lines
  read_pages-last fuel content start h all =
      let page = truncate_head (selected content start).content limit byte_limit in
      (
        page.content ∷ [],
        read_pages-at fuel byte_limit content limit start h ∙ with_rest-last page _ all.unflagged,
        omega arith,
        all.same,
      )

  next_offset-at :
      (content : Text) (start : ℕ) (page : Truncation) (size : ℕ)
      → page.output_lines ≡ size
      → next_offset (selected content start) page ≡ (start + size) + 1
  unfolding next_offset
  next_offset-at content start page size h = omega (arith, h)

  drop-next :
      (lines kept rest : List Text) (start : ℕ)
      → drop start lines ≡ kept ++ rest
      → drop (start + length kept) lines ≡ rest
  drop-next lines kept rest start h =
      sym (drop-drop start (length kept) lines)
      ∙ (ap (drop (length kept)) h ∙ drop-append kept rest)

  read_pages-more :
      (fuel : ℕ) (content : Text) (start : ℕ) (h : start < length (split_lines content))
      (most : KeepsMost head limit byte_limit
        (drop start (split_lines content))
        (truncate_head (join_lines (drop start (split_lines content))) limit byte_limit))
      → 0 < length most.kept
      → Paged fuel content (start + length most.kept)
      → Paged (suc fuel) content start
  read_pages-more fuel content start h most k later =
      let page = truncate_head (selected content start).content limit byte_limit in
      let lines = split_lines content in
      let rest = most.next ∷ most.more in
      let next_at = next_offset-at content start page (length most.kept) most.line_count in
      let rest_text = later.3 ∙ ap join_lines (drop-next lines most.kept rest start most.beside) in
      (
        page.content ∷ later.0,
        read_pages-at fuel byte_limit content limit start h
            ∙ with_rest-more page _ (later.0) most.flagged
                (ap (read_pages fuel byte_limit content limit) next_at ∙ later.1),
        omega arith,
        join_lines-cons page.content (later.0) (later.2)
            ∙ (ap (λ t. page.content ++ newline ∷ t) rest_text
                ∙ (ap (λ t. t ++ newline ∷ join_lines rest) most.content_kept
                    ∙ (sym (join_lines-append most.kept rest k (omega arith))
                        ∙ ap join_lines (sym most.beside)))),
      )

  next-start :
      (lines kept more : List Text) (next : Text) (start : ℕ)
      → drop start lines ≡ kept ++ next ∷ more
      → start + length kept < length lines
  next-start lines kept more next start h =
      omega (arith, ap length h, length-append kept (next ∷ more), length-drop start lines)

  read_pages-Paged :
      (fuel : ℕ) (content : Text) (start : ℕ)
      → 1 ≤ limit
      → All (FitsLine byte_limit) (split_lines content)
      → start < length (split_lines content)
      → length (split_lines content) ≤ fuel + start
      → Paged fuel content start
  read_pages-Paged zero content start l fits h k = absurd (omega arith)
  read_pages-Paged (suc fuel) content start l fits h k = elim (page-Keeps content start h) [
    | inl all ↦ read_pages-last fuel content start h all
    | inr most ↦
        let some_lines =
          page-nonempty byte_limit limit (drop start (split_lines content)) _ l
            (All-drop_lines (FitsLine byte_limit) start (split_lines content) fits) most in
        let next =
          next-start (split_lines content) most.kept most.more most.next start most.beside in
        read_pages-more fuel content start h most some_lines (
          read_pages-Paged fuel content (start + length most.kept) l fits next
            (omega (arith, k, some_lines)))
  ]

-- A client that starts at line 1 and follows the offset of each truncated page reads every page of a
-- content whose lines all fit the byte limit, with a limit of one line or more and at most one round for
-- each line, and the pages joined by newlines are the content.
pub read_pages-whole :
    (byte_limit limit : ℕ) (content : Text)
    → 1 ≤ limit
    → All (FitsLine byte_limit) (split_lines content)
    → (pages : List Text) × (read_pages (length (split_lines content)) byte_limit content limit 1
        ≡ some pages)
      × (join_lines pages ≡ content)
read_pages-whole byte_limit limit content h fits =
    let paged =
      read_pages-Paged byte_limit limit (length (split_lines content)) content 0 h fits
        ((split_lines-AreLines content).0) (omega arith) in
    (paged.0, paged.1, paged.3 ∙ join_lines-split_lines content)
