-- ===== src/Runtime/ToolExecutor/Names.antt =====
-- The names of the tools of an executor.
use tile.Prelude.{
  some, String, false, ◌≡◌, List, [], ◌∷◌, All, ℕ, get_elem?, All-get_elem?, All-weaken, All-zip,
  any, find_first, str_eq, eq_iff, arith, ok,
}
use tile.Runtime.Environment.{ToolDefinition, Environment}
use tile.Runtime.ToolExecutor.{check_tools, new_executor, get_tool}

module _ {W : Type 0} (env : Environment W) where
  abbrev Found : List (ToolDefinition W) → ToolDefinition W → Type 0
  Found tools tool =
      (name : String)
      → name ≡ env.lower tool.name
      → find_first (λ t. str_eq (env.lower t.name) name) tools ≡ some tool

  check_tools-first :
      (seen : List String) (t : ToolDefinition W) (tools : List (ToolDefinition W))
      → check_tools env seen (t ∷ tools) ≡ ok tt
      → (any (str_eq (env.lower t.name)) seen ≡ false)
        × (check_tools env (env.lower t.name ∷ seen) tools ≡ ok tt)
  unfolding check_tools
  check_tools-first seen t tools h = ground (arith, h)

  check_tools_lem :
      (seen : List String) (tools : List (ToolDefinition W))
      → check_tools env seen tools ≡ ok tt
      → All (λ t. any (str_eq (env.lower t.name)) seen ≡ false) tools × All (Found tools) tools
  unfolding check_tools
  check_tools_lem seen [] h = (tt, tt)
  check_tools_lem seen (t ∷ tools) h =
      let (fresh, rest) = check_tools-first seen t tools h in
      let (fresh', found') = check_tools_lem (env.lower t.name ∷ seen) tools rest in
      (
        (fresh, All-weaken _ _ tools (λ u k. ground (arith, k)) fresh'),
        (
          λ name e. ground (arith, e, eq_iff (env.lower t.name) name),
          All-weaken _ (Found (t ∷ tools)) tools
              (λ u k name e. ground (
                arith,
                e,
                k.0,
                k.1 name e,
                eq_iff (env.lower t.name) name,
                eq_iff (env.lower u.name) (env.lower t.name),
              ))
              (All-zip _ (Found tools) tools fresh' found'),
        ),
      )

  -- In an executor that was accepted, each tool is the one that `get_tool` returns for any spelling of
  -- its name that lowering and stripping make equal to its lowered name.
  pub get_tool-registered :
      (tools : List (ToolDefinition W)) (i : ℕ) (tool : ToolDefinition W) (asked : String)
      → new_executor env tools ≡ ok tools
      → get_elem? tools i ≡ some tool
      → env.strip (env.lower asked) ≡ env.lower tool.name
      → get_tool env tools asked ≡ some tool
  unfolding new_executor get_tool
  get_tool-registered tools i tool asked h at e =
      let found = (check_tools_lem [] tools (ground (arith, h))).1 in
      All-get_elem? (Found tools) tools i tool found at _ e
