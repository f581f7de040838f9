-- ===== src/Examples/Pictures.antt =====
-- An imaging library whose images are their sides and whose encodings are as long as the sides together.
use tile.Prelude.{ℕ, zero, suc, ◌+◌, ◌≡◌, refl, true, none, List, [], ◌∷◌, Result, ok, err}
use tile.Types.Tools.{jpeg}
use tile.Tools.Text.{codes}
use tile.Tools.ImageProcessing.{
  ImageProcessingOptions, ImageError, library_error, Pillow, round_quotient, fit_side,
  fit_dimensions, next_side, next_dimensions, process_image,
}
use tile.Tools.ImageProcessing.Processed.{Returns, process_image-Returns}

abbrev sides_of : List ℕ → Result ImageError (ℕ × ℕ)
sides_of (width ∷ height ∷ bytes) = ok (width, height)
sides_of _ = err (library_error (codes "cannot identify image file"))

abbrev zeros : ℕ → List ℕ
zeros zero = []
zeros (suc n) = 0 ∷ zeros n

abbrev toy_pillow : Pillow (ℕ × ℕ)
toy_pillow = record {
  open_image = sides_of;
  size = λ image. image;
  orientation = λ image. none;
  exif_transpose = ok;
  resized = λ image width height. ok (width, height);
  is_rgb_or_l = λ image. true;
  convert_rgb = ok;
  save = λ image mime_type quality. ok (image.0 ∷ image.1 ∷ zeros (image.0 + image.1));
}

abbrev toy_options : ImageProcessingOptions
toy_options = record { max_width = 10; max_height = 6; max_base64_bytes = 16; jpeg_quality = 80 }

fitted : fit_dimensions 40 30 toy_options ≡ (8, 6)
unfolding fit_dimensions fit_side round_quotient
fitted = refl

half_even : (round_quotient 5 2 ≡ 2) × (round_quotient 7 2 ≡ 4)
unfolding round_quotient
half_even = (refl, refl)

next : (next_dimensions 8 6 ≡ (6, 4)) × (next_dimensions 2 1 ≡ (1, 1))
unfolding next_dimensions next_side
next = (refl, refl)

process_image-Returns_example :
    Returns toy_options (process_image toy_pillow (40 ∷ 30 ∷ []) jpeg toy_options)
process_image-Returns_example = process_image-Returns toy_pillow (40 ∷ 30 ∷ []) jpeg toy_options
