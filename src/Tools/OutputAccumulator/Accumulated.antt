-- ===== src/Tools/OutputAccumulator/Accumulated.antt =====
-- What an accumulator holds of the text that it was given.
use tile.Prelude.{
  ℕ, ◌+◌, ◌≤◌, ◌<◌, String, ◌≡◌, refl, sym, ap, subst, ◌∙◌, false, List, [], ◌∷◌, ◌++◌, append-nil,
  append_assoc, arith, ◌==◌, if◌then◌else◌, length, drop, length-append, length-drop, Result, ok,
  ◌>>=◌,
}
use tile.Tools.Text.{Text, encode}
use tile.Tools.Text.Lines.{encode-append}
use tile.Tools.Text.Search.{drop-drop}
use tile.Tools.OutputAccumulator.{
  OutputAccumulator, Decoding, count_newlines, trim_start, starts_at_line_boundary, append_nonempty,
  append_decoded_text, accumulate, decode_into, new_accumulator,
}
use tile.Tools.OutputAccumulator.Trimming.{
  lines_total, begins_line, trim_start-le, trim_start-bound, drop-append_le, begins_line-append,
  starts_at_line_boundary_lem, lines_total-append,
}

-- The accumulator counts all bytes and lines of a text, and it holds the end of the text's bytes, within
-- the rolling limit; its flag tells whether that end begins at a line.
pub record Accumulated {D : Type 0} (text : Text) (a : OutputAccumulator D) : Type 0 where
  pub byte_total : a.total_bytes ≡ length (encode text)
  pub line_total : a.total_lines ≡ lines_total text
  pub dropped : ℕ
  pub in_range : dropped ≤ length (encode text)
  pub suffix : a.tail_buffer ≡ drop dropped (encode text)
  pub bound : length a.tail_buffer ≤ a.max_rolling_bytes
  pub at_line : a.tail_starts_at_line_boundary ≡ begins_line (encode text) dropped

module _ {D : Type 0} where
  append_nonempty-Accumulated :
      (a : OutputAccumulator D) (text more : Text)
      → 0 < length more
      → Accumulated text a
      → Accumulated (text ++ more) (append_nonempty a more)
  unfolding append_nonempty
  append_nonempty-Accumulated a text more h r =
      let whole = encode text ++ encode more in
      let buffer : a.tail_buffer ++ encode more ≡ drop r.dropped whole =
        ap (λ b. b ++ encode more) r.suffix
        ∙ drop-append_le r.dropped (encode text) (encode more) r.in_range in
      let start = trim_start (a.tail_buffer ++ encode more) a.max_rolling_bytes in
      let whole_text : whole ≡ encode (text ++ more) = sym (encode-append text more) in
      record {
        byte_total =
            omega (
              arith,
              r.byte_total,
              length-append (encode text) (encode more),
              ap length whole_text,
            );
        line_total =
            ap (λ (n : ℕ). (if n == 0 then 1 else n) + count_newlines more) r.line_total
            ∙ sym (lines_total-append text more h);
        dropped = r.dropped + start;
        in_range = omega (
          arith,
          trim_start-le (a.tail_buffer ++ encode more) a.max_rolling_bytes,
          ap length buffer,
          length-drop r.dropped whole,
          ap length whole_text,
          r.in_range,
          length-append (encode text) (encode more),
        );
        suffix =
            ap (drop start) buffer
            ∙ (drop-drop r.dropped start whole ∙ ap (drop (r.dropped + start)) whole_text);
        bound = trim_start-bound (a.tail_buffer ++ encode more) a.max_rolling_bytes;
        at_line =
            ap (λ b. starts_at_line_boundary b start a.tail_starts_at_line_boundary) buffer
            ∙ (starts_at_line_boundary_lem whole r.dropped start a.tail_starts_at_line_boundary
                  (r.at_line ∙ begins_line-append (encode text) (encode more) r.dropped r.in_range)
                ∙ ap (λ w. begins_line w (r.dropped + start)) whole_text);
      }

  append-Accumulated :
      (a : OutputAccumulator D) (text more : Text)
      → Accumulated text a
      → Accumulated (text ++ more) (append_decoded_text a more)
  unfolding append_decoded_text
  append-Accumulated a text [] r = subst (λ t. Accumulated t a) (sym (append-nil text)) r
  append-Accumulated a text (c ∷ more) r =
      append_nonempty-Accumulated a text (c ∷ more) (omega arith) r

module _ {D : Type 0} (decoding : Decoding D) where
  -- The text that a decoder gives for some chunks, from a state on, and the state that it ends in.
  pub decoded_text : D → List (List ℕ) → Text
  decoded_text d [] = []
  decoded_text d (chunk ∷ chunks) =
      let decoded = decoding.decode_chunk d chunk false in
      decoded.0 ++ decoded_text (decoded.1) chunks

  -- `accumulate` on each of some chunks.
  pub accumulate_all : OutputAccumulator D → List (List ℕ) → Result String (OutputAccumulator D)
  accumulate_all a [] = ok a
  accumulate_all a (chunk ∷ chunks) =
      accumulate decoding a chunk >>= λ next. accumulate_all next chunks

  append_decoded_text-finished :
      (a : OutputAccumulator D) (text : Text) → (append_decoded_text a text).finished ≡ a.finished
  unfolding append_decoded_text append_nonempty
  append_decoded_text-finished a [] = refl
  append_decoded_text-finished a (c ∷ text) = refl

  append_decoded_text-decoder :
      (a : OutputAccumulator D) (text : Text) → (append_decoded_text a text).decoder ≡ a.decoder
  unfolding append_decoded_text append_nonempty
  append_decoded_text-decoder a [] = refl
  append_decoded_text-decoder a (c ∷ text) = refl

  Accumulated-decoder :
      (a : OutputAccumulator D) (d : D) (text : Text)
      → Accumulated text a
      → Accumulated text (record a { decoder = d })
  Accumulated-decoder a d text r = record {
    byte_total = r.byte_total;
    line_total = r.line_total;
    dropped = r.dropped;
    in_range = r.in_range;
    suffix = r.suffix;
    bound = r.bound;
    at_line = r.at_line;
  }

  accumulate-open :
      (a : OutputAccumulator D) (chunk : List ℕ)
      → a.finished ≡ false
      → accumulate decoding a chunk ≡ ok (decode_into decoding a chunk false)
  unfolding accumulate
  accumulate-open a chunk h = rw h refl

  -- All of some chunks are accepted, and the accumulator then holds the decoded text.
  abbrev pub Accepts : OutputAccumulator D → List (List ℕ) → Text → Type 0
  Accepts a chunks text =
      (result : OutputAccumulator D) × (accumulate_all a chunks ≡ ok result)
      × Accumulated text result

  Accepts-from :
      (chunks : List (List ℕ)) (a : OutputAccumulator D) (text : Text)
      → Accumulated text a
      → a.finished ≡ false
      → Accepts a chunks (text ++ decoded_text a.decoder chunks)
  unfolding accumulate_all decoded_text decode_into
  Accepts-from [] a text r h = (a, refl, subst (λ t. Accumulated t a) (sym (append-nil text)) r)
  Accepts-from (chunk ∷ chunks) a text r h =
      let decoded = decoding.decode_chunk a.decoder chunk false in
      let moved = record a { decoder = decoded.1 } in
      let next = append_decoded_text moved (decoded.0) in
      let later =
        Accepts-from chunks next (text ++ decoded.0)
          (append-Accumulated moved text (decoded.0) (Accumulated-decoder a (decoded.1) text r))
          (append_decoded_text-finished moved (decoded.0) ∙ h) in
      (
        later.0,
        ap (λ m. m >>= λ n. accumulate_all n chunks) (accumulate-open a chunk h) ∙ later.1,
        subst (λ t. Accumulated t (later.0))
            (ap (λ d. (text ++ decoded.0) ++ decoded_text d chunks)
                (append_decoded_text-decoder moved (decoded.0))
              ∙ append_assoc text (decoded.0) (decoded_text (decoded.1) chunks))
            (later.2),
      )

  new_accumulator-Accumulated :
      (max_lines max_bytes : ℕ) → Accumulated [] (new_accumulator decoding max_lines max_bytes)
  unfolding new_accumulator encode
  new_accumulator-Accumulated max_lines max_bytes = record {
    byte_total = refl;
    line_total = refl;
    dropped = 0;
    in_range = omega arith;
    suffix = refl;
    bound = omega arith;
    at_line = refl;
  }

  new_accumulator-open :
      (max_lines max_bytes : ℕ) → (new_accumulator decoding max_lines max_bytes).finished ≡ false
  unfolding new_accumulator
  new_accumulator-open max_lines max_bytes = refl

  -- A new accumulator accepts any chunks; it then counts all bytes and lines of the decoded text, and it
  -- holds a suffix of the text's bytes within the rolling limit, with a flag that tells whether the
  -- suffix begins at a line.
  pub accumulate_all-Accepts :
      (max_lines max_bytes : ℕ) (chunks : List (List ℕ))
      → let a = new_accumulator decoding max_lines max_bytes in
        Accepts a chunks (decoded_text a.decoder chunks)
  accumulate_all-Accepts max_lines max_bytes chunks =
      Accepts-from chunks (new_accumulator decoding max_lines max_bytes) []
        (new_accumulator-Accumulated max_lines max_bytes) (new_accumulator-open max_lines max_bytes)
