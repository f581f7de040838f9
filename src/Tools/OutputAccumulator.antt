-- ===== src/Tools/OutputAccumulator.antt =====
-- tile/tools/support/output_accumulator.py. The incremental decoder and the decoding of the retained bytes,
-- with replacement of what is no UTF-8, are parameters.
pub mod Trimming
pub mod Accumulated
use tile.Prelude.{
  ℕ, suc, ◌+◌, ◌-◌, ◌*◌, ◌/◌, String, Bool, true, false, Option, none, some, List, [], ◌∷◌, ◌++◌,
  ltb, leb, ◌==◌, if◌then◌else◌, length, get_elem?, drop, Result, ok, err, unwrap_or,
}
use tile.Tools.Text.{Text, newline, encode, find, codes}
use tile.Tools.Truncation.{Truncation, TruncationReason, by_lines, by_bytes, truncate_tail}

pub record OutputSnapshot : Type 0 where
  pub content : Text
  pub truncation : Truncation

pub record OutputAccumulator (D : Type 0) : Type 0 where
  pub max_lines : ℕ
  pub max_bytes : ℕ
  pub max_rolling_bytes : ℕ
  pub decoder : D
  pub tail_buffer : List ℕ
  pub tail_starts_at_line_boundary : Bool
  pub total_bytes : ℕ
  pub total_lines : ℕ
  pub finished : Bool

-- `codecs.getincrementaldecoder("utf-8")(errors="replace")`, with its state, and
-- `bytes.decode("utf-8", errors="replace")`.
pub record Decoding (D : Type 0) : Type 0 where
  pub fresh : D
  pub decode_chunk : D → List ℕ → Bool → Text × D
  pub decode : List ℕ → Text

-- `text.count("\n")`
unfoldable pub count_newlines : Text → ℕ
count_newlines [] = 0
count_newlines (c ∷ text) =
    let rest = count_newlines text in if c == newline then suc rest else rest

-- `byte & 0xC0 == 0x80` for a byte.
unfoldable pub is_continuation : ℕ → Bool
is_continuation byte = byte / 64 == 2

-- The rounds of the loop of `_utf8_boundary_at_or_after` on the bytes from its start.
unfoldable pub continuation_bytes : List ℕ → ℕ
continuation_bytes [] = 0
continuation_bytes (byte ∷ content) =
    let rest = continuation_bytes content in if is_continuation byte then suc rest else 0

unfoldable pub utf8_boundary_at_or_after : List ℕ → ℕ → ℕ
utf8_boundary_at_or_after content start = start + continuation_bytes (drop start content)

unfoldable pub trim_start : List ℕ → ℕ → ℕ
trim_start content max_bytes =
    if leb (length content) max_bytes
    then 0
    else utf8_boundary_at_or_after content (length content - max_bytes)

unfoldable pub starts_at_line_boundary : List ℕ → ℕ → Bool → Bool
starts_at_line_boundary content start previous =
    if start == 0 then previous else unwrap_or (get_elem? content (start - 1)) 0 == 0x0a

-- `tail_text[first_newline + 1:]`
unfoldable pub from_line : Text → Option ℕ → Text
from_line text none = text
from_line text (some first_newline) = drop (first_newline + 1) text

unfoldable pub is_some : Option TruncationReason → Bool
is_some none = false
is_some (some reason) = true

module _ {D : Type 0} where
  unfoldable pub append_nonempty : OutputAccumulator D → Text → OutputAccumulator D
  append_nonempty a text =
      let text_bytes = encode text in
      let tail_buffer = a.tail_buffer ++ text_bytes in
      let start = trim_start tail_buffer a.max_rolling_bytes in
      record a {
        total_bytes = a.total_bytes + length text_bytes;
        total_lines = (if a.total_lines == 0 then 1 else a.total_lines) + count_newlines text;
        tail_buffer = drop start tail_buffer;
        tail_starts_at_line_boundary =
            starts_at_line_boundary tail_buffer start a.tail_starts_at_line_boundary;
      }

  unfoldable pub append_decoded_text : OutputAccumulator D → Text → OutputAccumulator D
  append_decoded_text a [] = a
  append_decoded_text a (c ∷ text) = append_nonempty a (c ∷ text)

  unfoldable pub effective_reason :
      OutputAccumulator D → Option TruncationReason → Option TruncationReason
  effective_reason a (some reason) = some reason
  effective_reason a none =
      if ltb a.max_lines a.total_lines
      then some by_lines
      else if ltb a.max_bytes a.total_bytes
      then some by_bytes
      else none

  unfoldable pub with_total_metadata : OutputAccumulator D → Truncation → Truncation
  with_total_metadata a truncation =
      let truncated_by = effective_reason a truncation.truncated_by in
      record truncation {
        truncated = is_some truncated_by;
        truncated_by = truncated_by;
        total_lines = a.total_lines;
        total_bytes = a.total_bytes;
      }

module _ {D : Type 0} (decoding : Decoding D) where
  -- `__init__`
  unfoldable pub new_accumulator : ℕ → ℕ → OutputAccumulator D
  new_accumulator max_lines max_bytes = record {
    max_lines = max_lines;
    max_bytes = max_bytes;
    max_rolling_bytes = max_bytes * 2;
    decoder = decoding.fresh;
    tail_buffer = [];
    tail_starts_at_line_boundary = true;
    total_bytes = 0;
    total_lines = 0;
    finished = false;
  }

  unfoldable pub decode_into : OutputAccumulator D → List ℕ → Bool → OutputAccumulator D
  decode_into a chunk final =
      let decoded = decoding.decode_chunk a.decoder chunk final in
      append_decoded_text (record a { decoder = decoded.1 }) (decoded.0)

  -- The error is the message of a `RuntimeError`.
  unfoldable pub accumulate : OutputAccumulator D → List ℕ → Result String (OutputAccumulator D)
  accumulate a chunk =
      if a.finished
      then err "Cannot accumulate output after finish"
      else ok (decode_into a chunk false)

  unfoldable pub snapshot_text : OutputAccumulator D → Text
  snapshot_text a =
      let tail_text = decoding.decode a.tail_buffer in
      if a.tail_starts_at_line_boundary
      then tail_text
      else from_line tail_text (find tail_text (codes "\n"))

  unfoldable pub snapshot : OutputAccumulator D → OutputSnapshot
  snapshot a =
      let truncation = truncate_tail (snapshot_text a) a.max_lines a.max_bytes in
      record { content = truncation.content; truncation = with_total_metadata a truncation }

  unfoldable pub finished_state : OutputAccumulator D → OutputAccumulator D
  finished_state a = if a.finished then a else record (decode_into a [] true) { finished = true }

  unfoldable pub finish : OutputAccumulator D → OutputSnapshot × OutputAccumulator D
  finish a = let done = finished_state a in (snapshot done, done)
