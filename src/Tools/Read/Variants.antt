-- ===== src/Tools/Read/Variants.antt =====
-- tile/tools/read.py: the spelling variants of a path.
use tile.Prelude.{
  ℕ, ◌+◌, Bool, ◌&&◌, ◌||◌, List, [], ◌∷◌, map, ◌==◌, if◌then◌else◌, find_first, unwrap_or,
}
use tile.Tools.Text.{Text}
use tile.Tools.Paths.{Paths, normalize_at_prefix, normalize_unicode_spaces, resolve_to_cwd}

-- A letter of the pattern, in either case.
unfoldable pub same_letter : ℕ → ℕ → Bool
same_letter c upper = (c == upper) || (c == upper + 32)

-- ` (AM|PM)\.` at the front of four characters, without regard to case.
unfoldable pub is_meridiem : ℕ → ℕ → ℕ → ℕ → Bool
is_meridiem a b c d =
    (a == 0x20) && (same_letter b 0x41 || same_letter b 0x50) && same_letter c 0x4d && (d == 0x2e)

-- The matches do not overlap, since a match holds one space, at its front.
unfoldable pub macos_screenshot_text : Text → Text
macos_screenshot_text [] = []
macos_screenshot_text (a ∷ []) = a ∷ []
macos_screenshot_text (a ∷ b ∷ []) = a ∷ b ∷ []
macos_screenshot_text (a ∷ b ∷ c ∷ []) = a ∷ b ∷ c ∷ []
macos_screenshot_text (a ∷ b ∷ c ∷ d ∷ path) =
    let rest = macos_screenshot_text (b ∷ c ∷ d ∷ path) in
    (if is_meridiem a b c d then 0x202f else a) ∷ rest

unfoldable pub curly_quote_text : Text → Text
curly_quote_text path = map (λ c. if c == 0x27 then 0x2019 else c) path

module _ {P : Type 0} (paths : Paths P) where
  unfoldable pub macos_screenshot_path : P → P
  macos_screenshot_path path = paths.path (macos_screenshot_text (paths.text path))

  unfoldable pub nfd_path : P → P
  nfd_path path = paths.path (paths.nfd (paths.text path))

  unfoldable pub curly_quote_path : P → P
  curly_quote_path path = paths.path (curly_quote_text (paths.text path))

  unfoldable pub path_variants : P → List P
  path_variants path =
      path
      ∷ macos_screenshot_path path
      ∷ nfd_path path
      ∷ curly_quote_path path
      ∷ curly_quote_path (nfd_path path)
      ∷ []

  unfoldable pub existing_path_variant : P → P
  existing_path_variant path = unwrap_or (find_first paths.exists (path_variants path)) path

  -- `_resolve_path` of the read tool.
  unfoldable pub resolve_read : Text → P → P
  resolve_read path cwd =
      existing_path_variant
        (resolve_to_cwd paths (normalize_unicode_spaces (normalize_at_prefix path)) cwd)
