-- ===== src/Tools/Edit/Spans/Sorting.antt =====
-- Sorting spans by their starts.
use tile.Prelude.{
  ℕ, ◌<◌, ◌≡◌, refl, sym, ap, subst, ◌∙◌, ◌≢◌, inl, inr, true, false, List, [], ◌∷◌, ◌++◌, reverse,
  arith, leb, Bool-cases, leb-false, All, All-append, All-weaken, reverse-cons,
}
use tile.Tools.Edit.{MatchedSpan}
use tile.Tools.Edit.Spans.{insert_span, sort_spans, sort_spans_reverse}

-- Every span starts before the next one does.
abbrev pub Ascending : List MatchedSpan → Type 0
Ascending [] = Unit
Ascending (span ∷ []) = Unit
Ascending (span ∷ next ∷ spans) = (span.start < next.start) × Ascending (next ∷ spans)

module _ {κ} (P : MatchedSpan → Type κ) where
  All-insert_span :
      (span : MatchedSpan) (spans : List MatchedSpan)
      → All P (insert_span span spans)
      → P span × All P spans
  unfolding insert_span
  All-insert_span span [] h = h
  All-insert_span span (next ∷ spans) h = ground (arith, All-insert_span span spans)

  pub insert_span-All :
      (span : MatchedSpan) (spans : List MatchedSpan)
      → P span
      → All P spans
      → All P (insert_span span spans)
  unfolding insert_span
  insert_span-All span [] p h = (p, tt)
  insert_span-All span (next ∷ spans) p h = ground (arith, insert_span-All span spans p (h.1))

insert_span-swap :
    (x y : MatchedSpan) (spans : List MatchedSpan)
    → x.start ≢ y.start
    → insert_span x (insert_span y spans) ≡ insert_span y (insert_span x spans)
unfolding insert_span
insert_span-swap x y [] h = ground arith
insert_span-swap x y (next ∷ spans) h = ground (arith, insert_span-swap x y spans h)

abbrev StartsElsewhere : ℕ → List MatchedSpan → Type 0
StartsElsewhere start spans = All (λ (y : MatchedSpan). start ≢ y.start) spans

-- In ascending spans, no other span starts where the first one does.
Ascending-later :
    (span : MatchedSpan) (spans : List MatchedSpan)
    → Ascending (span ∷ spans)
    → All (λ (y : MatchedSpan). span.start < y.start) spans
Ascending-later span [] h = tt
Ascending-later span (next ∷ spans) h =
    (h.0, All-weaken _ _ spans (λ y lt. omega (arith, lt, h.0)) (Ascending-later next spans (h.1)))

Ascending-tail :
    (span : MatchedSpan) (spans : List MatchedSpan) → Ascending (span ∷ spans) → Ascending spans
Ascending-tail span [] h = tt
Ascending-tail span (next ∷ spans) h = h.1

Ascending-cons :
    (span : MatchedSpan) (spans : List MatchedSpan)
    → All (λ (y : MatchedSpan). span.start < y.start) spans
    → Ascending spans
    → Ascending (span ∷ spans)
Ascending-cons span [] h k = tt
Ascending-cons span (next ∷ spans) h k = (h.0, k)

insert_span-front :
    (span next : MatchedSpan) (spans : List MatchedSpan)
    → leb span.start next.start ≡ true
    → insert_span span (next ∷ spans) ≡ span ∷ next ∷ spans
unfolding insert_span
insert_span-front span next spans h = rw h refl

insert_span-behind :
    (span next : MatchedSpan) (spans : List MatchedSpan)
    → leb span.start next.start ≡ false
    → insert_span span (next ∷ spans) ≡ next ∷ insert_span span spans
unfolding insert_span
insert_span-behind span next spans h = rw h refl

insert_span-distinct :
    (span : MatchedSpan) (spans : List MatchedSpan)
    → Ascending (insert_span span spans)
    → StartsElsewhere span.start spans × Ascending spans
insert_span-distinct span [] h = (tt, tt)
insert_span-distinct span (next ∷ spans) h = elim (Bool-cases (leb span.start next.start)) [
  | inl e ↦
      let front = subst Ascending (insert_span-front span next spans e) h in
      (
        All-weaken _ _ (next ∷ spans) (λ y lt same. absurd (omega (arith, lt, same)))
            (Ascending-later span (next ∷ spans) front),
        front.1,
      )
  | inr e ↦
      let behind = subst Ascending (insert_span-behind span next spans e) h in
      let inner =
        insert_span-distinct span spans (Ascending-tail next (insert_span span spans) behind) in
      let later = Ascending-later next (insert_span span spans) behind in
      (
        (λ same. absurd (omega (arith, leb-false span.start next.start e, same)), inner.0),
        Ascending-cons next spans ((All-insert_span _ span spans later).1) (inner.1),
      )
]

module _ {κ} (P : MatchedSpan → Type κ) where
  pub All-sort_spans : (spans : List MatchedSpan) → All P (sort_spans spans) → All P spans
  unfolding sort_spans
  All-sort_spans [] h = tt
  All-sort_spans (span ∷ spans) h =
      let parts = All-insert_span P span (sort_spans spans) h in
      (parts.0, All-sort_spans spans (parts.1))

  pub sort_spans-All : (spans : List MatchedSpan) → All P spans → All P (sort_spans spans)
  unfolding sort_spans
  sort_spans-All [] h = tt
  sort_spans-All (span ∷ spans) h =
      insert_span-All P span (sort_spans spans) (h.0) (sort_spans-All spans (h.1))

  pub All-reverse : (spans : List MatchedSpan) → All P spans → All P (reverse spans)
  All-reverse [] h = tt
  All-reverse (span ∷ spans) h =
      rw (reverse-cons span spans)
        (All-append P (reverse spans) (span ∷ []) (All-reverse spans (h.1)) (h.0, tt))

-- A span that starts where no other one does may come last.
sort_spans-last :
    (spans : List MatchedSpan) (span : MatchedSpan)
    → StartsElsewhere span.start spans
    → sort_spans (spans ++ span ∷ []) ≡ insert_span span (sort_spans spans)
unfolding sort_spans insert_span
sort_spans-last [] span h = refl
sort_spans-last (first ∷ spans) span h =
    ap (insert_span first) (sort_spans-last spans span (h.1))
    ∙ insert_span-swap first span (sort_spans spans) (λ same. h.0 (sym same))

sort_spans-reverse :
    (spans : List MatchedSpan)
    → Ascending (sort_spans spans)
    → sort_spans (reverse spans) ≡ sort_spans spans
unfolding sort_spans
sort_spans-reverse [] h = refl
sort_spans-reverse (span ∷ spans) h =
    let distinct = insert_span-distinct span (sort_spans spans) h in
    rw (reverse-cons span spans) (
      sort_spans-last (reverse spans) span
        (All-reverse _ spans (All-sort_spans _ spans (distinct.0)))
      ∙ ap (insert_span span) (sort_spans-reverse spans (distinct.1)))

-- Sorting in descending order is the reverse of sorting in ascending order, where no two spans
-- start together.
pub sort_spans_reverse_lem :
    (spans : List MatchedSpan)
    → Ascending (sort_spans spans)
    → sort_spans_reverse spans ≡ reverse (sort_spans spans)
unfolding sort_spans_reverse
sort_spans_reverse_lem spans h = ap (λ ss. reverse ss) (sort_spans-reverse spans h)
