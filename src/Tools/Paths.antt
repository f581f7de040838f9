-- ===== src/Tools/Paths.antt =====
-- tile/tools/support/paths.py. The operations of `pathlib` are parameters.
use tile.Prelude.{ℕ, Bool, ◌&&◌, ◌||◌, [], ◌∷◌, map, leb, ◌==◌, if◌then◌else◌}
use tile.Tools.Text.{Text}

unfoldable pub normalize_at_prefix : Text → Text
normalize_at_prefix [] = []
normalize_at_prefix (c ∷ path) = if c == 0x40 then path else c ∷ path

unfoldable pub unicode_space : ℕ → Bool
unicode_space c =
    (c == 0xa0) || (leb 0x2000 c && leb c 0x200a) || (c == 0x202f) || (c == 0x205f) || (c == 0x3000)

unfoldable pub normalize_unicode_spaces : Text → Text
normalize_unicode_spaces path = map (λ c. if unicode_space c then 0x20 else c) path

-- `Path`, with the home directory expanded, joined and tested by the file system.
pub record Paths (P : Type 0) : Type 0 where
  pub path : Text → P
  pub text : P → Text
  pub expanduser : P → P
  pub is_absolute : P → Bool
  pub join : P → P → P
  pub exists : P → Bool
  pub nfd : Text → Text

module _ {P : Type 0} (paths : Paths P) where
  unfoldable pub resolve_to_cwd : Text → P → P
  resolve_to_cwd path cwd =
      let candidate = paths.expanduser (paths.path path) in
      if paths.is_absolute candidate then candidate else paths.join cwd candidate

  -- `_resolve_path` of the edit tool.
  unfoldable pub resolve_edited : Text → P → P
  resolve_edited path cwd = resolve_to_cwd (normalize_unicode_spaces (normalize_at_prefix path)) cwd
