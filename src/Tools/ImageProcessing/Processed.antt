-- ===== src/Tools/ImageProcessing/Processed.antt =====
-- What the processing of an image returns.
use mathlib.Core.Option
use tile.Prelude.{
  ℕ, zero, suc, ◌+◌, ◌≤◌, ◌<◌, ◌≡◌, refl, sym, ap, ◌∙◌, ◌⊎◌, inl, inr, false, ◌&&◌, Option, some,
  List, arith, ltb, ◌==◌, Bool-cases, ltb-false, leb-false, ltb→lt, Result, ok, err, and_true,
  ==_true, ==→≡, bind_ok, ok_inj,
}
use tile.Types.Tools.{ImageMimeType}
use tile.Tools.ImageProcessing.{
  ImageProcessingOptions, ProcessedImage, ImageError, library_error, other_error, processing_error,
  Pillow, base64_size, exceeds_base64_size, is_minimum_size, next_dimensions, fit_dimensions,
  as_processing_error, replace_with_encoded_image, best_encoded_candidate, create_processed_image,
  apply_exif_orientation, resize, resize_to_fit_dimensions, shrink_by_factor, shrink_to_size,
  prepare, size_limit_message, process_image,
}
use tile.Tools.ImageProcessing.Shrinking.{
  Fits, fit_dimensions-Fits, Smaller, next_dimensions-Smaller,
}

-- A result is an error or an image within the box whose payload is below the limit.
pub data Processed (options : ImageProcessingOptions) {E : Type 0}
    : Result E ProcessedImage → Type 0 where
  processed :
      (image : ProcessedImage)
      → Fits options image.width image.height
      → base64_size image.data_bytes < options.max_base64_bytes
      → Processed options (ok image)
  refused : (error : E) → Processed options (err error)

-- The fuel lasts to such a result.
abbrev pub Returns :
    ImageProcessingOptions → {E : Type 0} → Option (Result E ProcessedImage) → Type 0
Returns options {E} outcome =
    (result : Result E ProcessedImage) × (outcome ≡ some result) × Processed options result

Fits-moved :
    (options : ImageProcessingOptions) (a b c d : ℕ)
    → Fits options a b
    → c ≡ a
    → d ≡ b
    → Fits options c d
Fits-moved options a b c d fits e f = rw (e, f) fits

Smaller-moved : (w h a b c d : ℕ) → Smaller w h a b → c ≡ a → d ≡ b → Smaller w h c d
Smaller-moved w h a b c d smaller e f = rw (e, f) smaller

not_minimum :
    (image : ProcessedImage)
    → is_minimum_size image ≡ false
    → 1 ≤ image.width
    → 1 ≤ image.height
    → 2 < image.width + image.height
unfolding is_minimum_size
not_minimum image e h k = elim (Bool-cases (ltb 2 (image.width + image.height))) [
  | inl more ↦ ltb→lt 2 (image.width + image.height) more
  | inr less ↦
      (let sum = ltb-false 2 (image.width + image.height) less in
        let w = ==_true image.width 1 (omega arith) in
        let v = ==_true image.height 1 (omega arith) in absurd (cc (rw (w, v) at e)))
]

below :
    (image : ProcessedImage) (options : ImageProcessingOptions)
    → exceeds_base64_size image options ≡ false
    → base64_size image.data_bytes < options.max_base64_bytes
unfolding exceeds_base64_size
below image options e = leb-false options.max_base64_bytes (base64_size image.data_bytes) e

Result-cases :
    {A : Type 0} (r : Result ImageError A)
    → ((error : ImageError) × (r ≡ err error)) ⊎ ((a : A) × (r ≡ ok a))
Result-cases (err error) = inl (error, refl)
Result-cases (ok a) = inr (a, refl)

as_processing_error-Processed :
    (options : ImageProcessingOptions) (r : Result ImageError ProcessedImage)
    → Processed options r
    → Processed options (as_processing_error r)
unfolding as_processing_error
as_processing_error-Processed options _ (processed image fits small) = processed image fits small
as_processing_error-Processed options _ (refused (library_error message)) = refused _
as_processing_error-Processed options _ (refused (other_error message)) =
    refused (other_error message)
as_processing_error-Processed options _ (refused (processing_error message)) =
    refused (processing_error message)

module _ {I : Type 0} (pillow : Pillow I) where
  resize-sides :
      (image : ProcessedImage) (width height : ℕ) (options : ImageProcessingOptions)
      (next : ProcessedImage)
      → resize pillow image width height options ≡ ok next
      → (next.width ≡ width) × (next.height ≡ height)
  unfolding resize replace_with_encoded_image
  resize-sides image width height options next e =
      let (current_image, opened, e1) = bind_ok (pillow.open_image image.data_bytes) _ next e in
      let (resized_image, made, e2) =
        bind_ok (pillow.resized current_image width height) _ next e1 in
      let (encoded, best, e3) =
        bind_ok (best_encoded_candidate pillow resized_image options) _ next e2 in
      let same = ok_inj _ next e3 in
      (ap (λ shown. shown.width) (sym same), ap (λ shown. shown.height) (sym same))

  resize_to_fit_dimensions-Fits :
      (image : ProcessedImage) (options : ImageProcessingOptions) (next : ProcessedImage)
      → resize_to_fit_dimensions pillow image options ≡ ok next
      → Fits options next.width next.height
  unfolding resize_to_fit_dimensions
  resize_to_fit_dimensions-Fits image options next e =
      let fitted = fit_dimensions image.width image.height options in
      let fits =
        Fits-moved options (fitted.0) (fitted.1) next.width next.height
          (fit_dimensions-Fits image.width image.height options) in
      elim (Bool-cases ((fitted.0 == image.width) && (fitted.1 == image.height))) [
        | inl same ↦
            (let both = and_true (fitted.0 == image.width) (fitted.1 == image.height) same in
              let kept = ok_inj image next (rw same at e) in
              fits (sym (==→≡ (fitted.0) image.width (both.0) ∙ ap (λ shown. shown.width) kept))
                (sym (==→≡ (fitted.1) image.height (both.1) ∙ ap (λ shown. shown.height) kept)))
        | inr other ↦
            (let sides = resize-sides image (fitted.0) (fitted.1) options next (rw other at e) in
              fits (sides.0) (sides.1))
      ]

  shrink_by_factor-Smaller :
      (image : ProcessedImage) (options : ImageProcessingOptions) (next : ProcessedImage)
      → 1 ≤ image.width
      → 1 ≤ image.height
      → 2 < image.width + image.height
      → shrink_by_factor pillow image options ≡ ok next
      → Smaller image.width image.height next.width next.height
  unfolding shrink_by_factor
  shrink_by_factor-Smaller image options next h k more e =
      let sides = next_dimensions image.width image.height in
      elim (Bool-cases ((sides.0 == image.width) && (sides.1 == image.height))) [
        | inl same ↦ absurd (cc (rw same at e))
        | inr other ↦
            (let shown = resize-sides image (sides.0) (sides.1) options next (rw other at e) in
              Smaller-moved image.width image.height (sides.0) (sides.1) next.width next.height
                (next_dimensions-Smaller image.width image.height h k more) (shown.0) (shown.1))
      ]

  shrink_to_size-Returns :
      (fuel : ℕ) (image : ProcessedImage) (options : ImageProcessingOptions)
      → Fits options image.width image.height
      → image.width + image.height ≤ fuel
      → Returns options (shrink_to_size pillow fuel image options)
  unfolding shrink_to_size
  shrink_to_size-Returns zero image options (h, k, w, v) enough = absurd (omega arith)
  shrink_to_size-Returns (suc fuel) image options (h, k, w, v) enough =
      elim (Bool-cases (exceeds_base64_size image options)) [
        | inr small ↦
            (ok image, rw small refl, processed image (h, k, w, v) (below image options small))
        | inl large ↦ elim (Bool-cases (is_minimum_size image)) [
          | inl least ↦ (
            err (processing_error size_limit_message),
            rw (large, least) refl,
            refused (processing_error size_limit_message),
          )
          | inr more ↦ elim (Result-cases (shrink_by_factor pillow image options)) [
            | inl (error, failed) ↦ (err error, rw (large, more, failed) refl, refused error)
            | inr (next, shrunk) ↦
                (let (h1, k1, w1, v1, less) =
                    shrink_by_factor-Smaller image options next h k (not_minimum image more h k)
                      shrunk in
                  let (result, e, good) =
                    shrink_to_size-Returns fuel next options (h1, k1, omega arith, omega arith)
                      (omega arith) in
                  (result, rw (large, more, shrunk) e, good))
          ]
        ]
      ]

  prepare-Fits :
      (bytes : List ℕ) (mime_type : ImageMimeType) (options : ImageProcessingOptions)
      (image : ProcessedImage)
      → prepare pillow bytes mime_type options ≡ ok image
      → Fits options image.width image.height
  unfolding prepare
  prepare-Fits bytes mime_type options image e =
      let (created, _, e1) = bind_ok (create_processed_image pillow bytes mime_type) _ image e in
      let (oriented, _, e2) = bind_ok (apply_exif_orientation pillow created) _ image e1 in
      resize_to_fit_dimensions-Fits oriented options image e2

  -- The processing of an image comes to an end, whatever the imaging library does: with an error, or with an
  -- image of at least one pixel within the box of the options whose base64 payload is below the limit.
  pub process_image-Returns :
      (bytes : List ℕ) (mime_type : ImageMimeType) (options : ImageProcessingOptions)
      → Returns options (process_image pillow bytes mime_type options)
  unfolding process_image
  process_image-Returns bytes mime_type options =
      elim (Result-cases (prepare pillow bytes mime_type options)) [
        | inl (error, failed) ↦ (
          as_processing_error (err error),
          rw (failed, process_image) refl,
          as_processing_error-Processed options (err error) (refused error),
        )
        | inr (image, prepared) ↦
            (let (result, e, good) =
                shrink_to_size-Returns (image.width + image.height) image options
                  (prepare-Fits bytes mime_type options image prepared) (omega arith) in
              (
                as_processing_error result,
                rw (prepared, process_image) (ap (Option.map as_processing_error) e),
                as_processing_error-Processed options result good,
              ))
      ]
