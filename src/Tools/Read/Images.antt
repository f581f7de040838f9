-- ===== src/Tools/Read/Images.antt =====
-- tile/tools/read.py: the sniffing of image types on the leading bytes of a file.
use tile.Prelude.{
  ℕ, ◌-◌, Bool, true, false, not, ◌&&◌, Option, none, some, [], ◌∷◌, ltb, leb, ◌==◌, if◌then◌else◌,
  length, get_elem?, take, drop, unwrap_or,
}
use tile.Tools.Text.{Text, codes, text_eq, starts_with, find}
use tile.Types.Tools.{ImageMimeType, jpeg, png, gif, webp}

-- `content[from:to]`
unfoldable pub slice : Text → ℕ → ℕ → Text
slice content from to = take (to - from) (drop from content)

abbrev pub png_signature : Text
png_signature = 0x89 ∷ 0x50 ∷ 0x4e ∷ 0x47 ∷ 13 ∷ 10 ∷ 0x1a ∷ 10 ∷ []

-- `content[3] != 0xF7` where there is such a byte.
unfoldable pub differs_at : Text → ℕ → ℕ → Bool
differs_at content index byte = not (unwrap_or (get_elem? content index) 0 == byte)

unfoldable pub is_jpeg : Text → Bool
is_jpeg content =
    leb 4 (length content)
    && text_eq (slice content 0 3) (0xff ∷ 0xd8 ∷ 0xff ∷ [])
    && differs_at content 3 0xf7

unfoldable pub is_png : Text → Bool
is_png content =
    leb 16 (length content)
    && starts_with content png_signature
    && text_eq (slice content 12 16) (codes "IHDR")

-- The animation chunk is there, and no image data comes before it.
unfoldable pub animation_first : Option ℕ → Option ℕ → Bool
animation_first none image_data_index = false
animation_first (some animation_chunk_index) none = true
animation_first (some animation_chunk_index) (some image_data_index) =
    ltb animation_chunk_index image_data_index

unfoldable pub is_animated_png : Text → Bool
is_animated_png content =
    animation_first (find content (codes "acTL")) (find content (codes "IDAT"))

unfoldable pub is_supported_png : Text → Bool
is_supported_png content = is_png content && not (is_animated_png content)

unfoldable pub is_gif : Text → Bool
is_gif content = starts_with content (codes "GIF")

unfoldable pub is_webp : Text → Bool
is_webp content =
    leb 12 (length content)
    && text_eq (slice content 0 4) (codes "RIFF")
    && text_eq (slice content 8 12) (codes "WEBP")

unfoldable pub detect_supported_image_mime_type_from_bytes : Text → Option ImageMimeType
detect_supported_image_mime_type_from_bytes content =
    if is_jpeg content
    then some jpeg
    else if is_supported_png content
    then some png
    else if is_gif content
    then some gif
    else if is_webp content
    then some webp
    else none
