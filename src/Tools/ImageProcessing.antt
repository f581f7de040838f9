-- ===== src/Tools/ImageProcessing.antt =====
-- tile/tools/support/image_processing.py over the calls of the imaging library, which are parameters. The
-- quotients that the code rounds are exact here; as floats they are exact enough below 2 ^ 26.
pub mod Shrinking
pub mod Processed
use mathlib.Core.Option
use tile.Prelude.{
  ℕ, zero, suc, ◌+◌, ◌-◌, ◌*◌, ◌/◌, ◌%◌, ◌≤◌, ◌<◌, String, ◌≡◌, refl, sym, ap, subst, ◌∙◌, ◌≢◌, ◌↔◌,
  ◌⊎◌, inl, inr, Bool, true, false, not, ◌&&◌, ◌||◌, Option, none, some, List, [], ◌∷◌, ◌++◌, map,
  reverse, append-nil, append_assoc, map-append, arith, ltb, leb, ◌==◌, if◌then◌else◌, Bool-cases,
  Option-cases, ltb-false, lt→leb-false, leb-false, length-reverse, ltb→lt, lt→ltb, leb→le, le→leb,
  ==_iff, decimal, length, get_elem?, take, drop, filter, All, All-append, length-append,
  take-append-drop, length-take, length-drop, take-append, drop-append, Result, ok, err, ◌>>=◌,
  ◌>>◌, value_or, and_true, ==_true, ==_false, ==→≡, ==→≢, take-take_append, drop-take_append,
  take-drop-take, All-weaken, All-map, find_first, cons-head, cons-tail, min, max, bind_ok, ok_inj,
  take-append_left, take-next, get_elem?-some, get_elem?-none, str_eq, eq_refl, eq_iff, join, any,
  any-append, List-cases, reverse-cons, reverse-append, reverse-reverse, unwrap_or,
}
use tile.Types.Tools.{ImageMimeType, jpeg, png}
use tile.Tools.Text.{Text, codes}

pub record ImageProcessingOptions : Type 0 where
  pub max_width : ℕ
  pub max_height : ℕ
  pub max_base64_bytes : ℕ
  pub jpeg_quality : ℕ

abbrev pub default_jpeg_quality : ℕ
default_jpeg_quality = 80

-- The defaults of the options: 4.5 MiB for the payload.
abbrev pub default_options : ImageProcessingOptions
default_options = record {
  max_width = 2000;
  max_height = 2000;
  max_base64_bytes = 4718592;
  jpeg_quality = default_jpeg_quality;
}

pub record ProcessedImage : Type 0 where
  pub data_bytes : List ℕ
  pub mime_type : ImageMimeType
  pub original_width : ℕ
  pub original_height : ℕ
  pub width : ℕ
  pub height : ℕ
  pub was_resized : Bool

pub record EncodedCandidate : Type 0 where
  pub data_bytes : List ℕ
  pub mime_type : ImageMimeType

-- `library_error` is an `OSError` or a `DecompressionBombError` of the imaging library, `other_error` any
-- other exception of it, and `processing_error` an `ImageProcessingError`.
pub data ImageError : Type 0 where
  library_error : Text → ImageError
  other_error : Text → ImageError
  processing_error : Text → ImageError

-- The calls of the library. `orientation` is the EXIF tag if it is an integer; `is_rgb_or_l` tells the mode.
pub record Pillow (I : Type 0) : Type 0 where
  pub open_image : List ℕ → Result ImageError I
  pub size : I → ℕ × ℕ
  pub orientation : I → Option ℕ
  pub exif_transpose : I → Result ImageError I
  pub resized : I → ℕ → ℕ → Result ImageError I
  pub is_rgb_or_l : I → Bool
  pub convert_rgb : I → Result ImageError I
  pub save : I → ImageMimeType → Option ℕ → Result ImageError (List ℕ)

abbrev pub size_limit_message : Text
size_limit_message = codes "could not be resized below the inline image size limit"

-- `len(base64.b64encode(data))`
unfoldable pub base64_size : List ℕ → ℕ
base64_size bytes = 4 * ((length bytes + 2) / 3)

unfoldable pub exceeds_base64_size : ProcessedImage → ImageProcessingOptions → Bool
exceeds_base64_size image options = leb options.max_base64_bytes (base64_size image.data_bytes)

unfoldable pub is_minimum_size : ProcessedImage → Bool
is_minimum_size image = (image.width == 1) && (image.height == 1)

-- `round(count / unit)`: to the nearest, and half to even.
unfoldable pub round_quotient : ℕ → ℕ → ℕ
round_quotient count unit =
    let whole = count / unit in
    let doubled = 2 * (count % unit) in
    if ltb doubled unit then whole else if ltb unit doubled then suc whole else whole + whole % 2

-- One of the two steps of `_fit_dimensions`: the side that is bounded, and the other side.
unfoldable pub fit_side : ℕ → ℕ → ℕ → ℕ × ℕ
fit_side side other max_side =
    if ltb max_side side then (max_side, round_quotient (other * max_side) side) else (side, other)

unfoldable pub fit_dimensions : ℕ → ℕ → ImageProcessingOptions → ℕ × ℕ
fit_dimensions width height options =
    let by_width = fit_side width height options.max_width in
    let by_height = fit_side (by_width.1) (by_width.0) options.max_height in
    (max 1 (by_height.1), max 1 (by_height.0))

-- `1 if side == 1 else max(1, int(side * DOWNSCALE_FACTOR))`
unfoldable pub next_side : ℕ → ℕ
next_side side = if side == 1 then 1 else max 1 (side * 3 / 4)

unfoldable pub next_dimensions : ℕ → ℕ → ℕ × ℕ
next_dimensions width height =
    if (next_side width == width) && (next_side height == height)
    then (1, 1)
    else (next_side width, next_side height)

unfoldable pub has_exif_orientation : Option ℕ → Bool
has_exif_orientation none = false
has_exif_orientation (some orientation) = not (orientation == 1)

unfoldable pub quality_in : ℕ → List ℕ → Bool
quality_in quality [] = false
quality_in quality (other ∷ qualities) = (quality == other) || quality_in quality qualities

-- `dict.fromkeys(...)`: the first of equal qualities stays.
unfoldable pub unique_qualities : List ℕ → List ℕ → List ℕ
unique_qualities [] seen = []
unique_qualities (quality ∷ qualities) seen =
    let rest = unique_qualities qualities (quality ∷ seen) in
    let without = unique_qualities qualities seen in
    if quality_in quality seen then without else quality ∷ rest

unfoldable pub jpeg_quality_steps : ImageProcessingOptions → List ℕ
jpeg_quality_steps options =
    unique_qualities (options.jpeg_quality ∷ default_jpeg_quality ∷ 85 ∷ 70 ∷ 55 ∷ 40 ∷ []) []

unfoldable pub replace_with_encoded_image :
    ProcessedImage → EncodedCandidate → ℕ → ℕ → Bool → ProcessedImage
replace_with_encoded_image image candidate width height was_resized = record image {
  data_bytes = candidate.data_bytes;
  mime_type = candidate.mime_type;
  width = width;
  height = height;
  was_resized = was_resized;
}

-- `min(candidates, key=...)`: the first of the smallest.
unfoldable pub smallest : EncodedCandidate → List EncodedCandidate → EncodedCandidate
smallest best [] = best
smallest best (candidate ∷ candidates) =
    if ltb (base64_size candidate.data_bytes) (base64_size best.data_bytes)
    then smallest candidate candidates
    else smallest best candidates

-- The first candidate below the limit, or the other one.
unfoldable pub first_fitting :
    ImageProcessingOptions → List EncodedCandidate → EncodedCandidate → EncodedCandidate
first_fitting options [] other = other
first_fitting options (candidate ∷ candidates) other =
    let rest = first_fitting options candidates other in
    if ltb (base64_size candidate.data_bytes) options.max_base64_bytes then candidate else rest

-- The `except` clause of `process_image`: any other exception passes through.
unfoldable pub as_processing_error {ℓ} : {A : Type ℓ} → Result ImageError A → Result ImageError A
as_processing_error (ok result) = ok result
as_processing_error (err (processing_error message)) = err (processing_error message)
as_processing_error (err (other_error message)) = err (other_error message)
as_processing_error (err (library_error message)) =
    err (processing_error (codes "could not be processed (" ++ message ++ codes ")"))

module _ {I : Type 0} (pillow : Pillow I) where
  unfoldable pub create_processed_image : List ℕ → ImageMimeType → Result ImageError ProcessedImage
  create_processed_image bytes mime_type = do
    image ← pillow.open_image bytes
    ok (record {
      data_bytes = bytes;
      mime_type = mime_type;
      original_width = (pillow.size image).0;
      original_height = (pillow.size image).1;
      width = (pillow.size image).0;
      height = (pillow.size image).1;
      was_resized = false;
    })

  unfoldable pub prepare_for_encoding : I → ImageMimeType → Result ImageError I
  prepare_for_encoding image jpeg =
      if pillow.is_rgb_or_l image then ok image else pillow.convert_rgb image
  prepare_for_encoding image _ = ok image

  unfoldable pub encode_image : I → ImageMimeType → Option ℕ → Result ImageError EncodedCandidate
  encode_image image mime_type quality = do
    prepared_image ← prepare_for_encoding image mime_type
    bytes ← pillow.save prepared_image mime_type quality
    ok (record { data_bytes = bytes; mime_type = mime_type })

  unfoldable pub jpeg_candidates : I → List ℕ → Result ImageError (List EncodedCandidate)
  jpeg_candidates image [] = ok []
  jpeg_candidates image (quality ∷ qualities) = do
    candidate ← encode_image image jpeg (some quality)
    candidates ← jpeg_candidates image qualities
    ok (candidate ∷ candidates)

  -- `_encoded_candidates` and the choice among them.
  unfoldable pub best_encoded_candidate :
      I → ImageProcessingOptions → Result ImageError EncodedCandidate
  best_encoded_candidate image options = do
    png_candidate ← encode_image image png none
    candidates ← jpeg_candidates image (jpeg_quality_steps options)
    ok (first_fitting options (png_candidate ∷ candidates) (smallest png_candidate candidates))

  unfoldable pub orient : ProcessedImage → I → Result ImageError ProcessedImage
  orient image current_image = do
    oriented_image ← pillow.exif_transpose current_image
    candidate ← encode_image oriented_image image.mime_type (some default_jpeg_quality)
    let size = pillow.size oriented_image
    ok (replace_with_encoded_image image candidate (size.0) (size.1) false)

  unfoldable pub orient_opened : ProcessedImage → Result ImageError ProcessedImage
  orient_opened image = do
    current_image ← pillow.open_image image.data_bytes
    if not (has_exif_orientation (pillow.orientation current_image))
        then ok image
        else orient image current_image

  unfoldable pub apply_exif_orientation : ProcessedImage → Result ImageError ProcessedImage
  apply_exif_orientation image = elim image.mime_type [ jpeg ↦ orient_opened image | _ ↦ ok image ]

  unfoldable pub resize :
      ProcessedImage → ℕ → ℕ → ImageProcessingOptions → Result ImageError ProcessedImage
  resize image width height options = do
    current_image ← pillow.open_image image.data_bytes
    resized_image ← pillow.resized current_image width height
    encoded ← best_encoded_candidate resized_image options
    ok (replace_with_encoded_image image encoded width height true)

  unfoldable pub resize_to_fit_dimensions :
      ProcessedImage → ImageProcessingOptions → Result ImageError ProcessedImage
  resize_to_fit_dimensions image options =
      let fitted = fit_dimensions image.width image.height options in
      if (fitted.0 == image.width) && (fitted.1 == image.height)
      then ok image
      else resize image (fitted.0) (fitted.1) options

  unfoldable pub shrink_by_factor :
      ProcessedImage → ImageProcessingOptions → Result ImageError ProcessedImage
  shrink_by_factor image options =
      let next = next_dimensions image.width image.height in
      if (next.0 == image.width) && (next.1 == image.height)
      then err (processing_error size_limit_message)
      else resize image (next.0) (next.1) options

  -- The loop of `process_image` on fuel; `none` is the end of the fuel.
  unfoldable pub shrink_to_size :
      ℕ → ProcessedImage → ImageProcessingOptions → Option (Result ImageError ProcessedImage)
  shrink_to_size zero image options = none
  shrink_to_size (suc fuel) image options =
      if not (exceeds_base64_size image options)
      then some (ok image)
      else if is_minimum_size image
      then some (err (processing_error size_limit_message))
      else elim (shrink_by_factor image options) [
        | err error ↦ some (err error)
        | ok smaller ↦ shrink_to_size fuel smaller options
      ]

  unfoldable pub prepare :
      List ℕ → ImageMimeType → ImageProcessingOptions → Result ImageError ProcessedImage
  prepare bytes mime_type options = do
    image ← create_processed_image bytes mime_type
    oriented ← apply_exif_orientation image
    resize_to_fit_dimensions oriented options

  -- `process_image`; a round makes the image smaller, so its sides are fuel for the loop.
  unfoldable pub process_image :
      List ℕ → ImageMimeType → ImageProcessingOptions → Option (Result ImageError ProcessedImage)
  process_image bytes mime_type options = elim (prepare bytes mime_type options) [
    | err error ↦ some (as_processing_error (err error))
    | ok image ↦
        Option.map as_processing_error (shrink_to_size (image.width + image.height) image options)
  ]
