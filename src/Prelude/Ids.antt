-- ===== src/Prelude/Ids.antt =====
-- Lists of ids without duplicates, and counting up.
use Prim.Native.Nat.{ℕ, zero, suc, ◌+◌}
use Prim.Native.String.{String}
use mathlib.Core.Path.{◌≡◌, refl, ap}
use mathlib.Core.Bool.{Bool, false}
use mathlib.Core.List.{List, [], ◌∷◌, ◌++◌}
use native.Mathlib.Nat.{zero-add, add-zero, suc-add, add-suc}
use native.Mathlib.Omega.{arith}
use text.Mathlib.Text.{◌==◌ as str_eq}
use text.Mathlib.TextEquality.{eq_iff}
use tile.Prelude.Lists.{any, any-append}

pub str_eq_comm : (a b : String) → str_eq a b ≡ str_eq b a
str_eq_comm a b = ground (arith, eq_iff a b, eq_iff b a)

abbrev pub holds_id : List String → String → Bool
holds_id ids id = any (λ known. str_eq known id) ids

abbrev pub Distinct : List String → Type 0
Distinct [] = Unit
Distinct (id ∷ ids) = (holds_id ids id ≡ false) × Distinct ids

pub Distinct-concat :
    (ids : List String) (id : String)
    → Distinct ids
    → holds_id ids id ≡ false
    → Distinct (ids ++ id ∷ [])
Distinct-concat [] id d h = (refl, tt)
Distinct-concat (x ∷ ids) id d h = (
  rw any-append (ground (arith, d.0, h, str_eq_comm x id)),
  Distinct-concat ids id d.1 (ground (arith, h)),
)

-- a, a + 1, …, of length n
abbrev pub count_up : ℕ → ℕ → List ℕ
count_up a zero = []
count_up a (suc n) = a ∷ count_up (suc a) n

pub count_up-append : (a m n : ℕ) → count_up a (m + n) ≡ count_up a m ++ count_up (a + m) n
count_up-append a zero n = rw (zero-add n, add-zero a)
count_up-append a (suc m) n =
    rw (suc-add m n)
      (ap (λ l. a ∷ l) (rw (add-suc a m, ← suc-add a m) (count_up-append (suc a) m n)))
