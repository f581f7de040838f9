-- ===== src/Tools/ImageProcessing/Shrinking.antt =====
-- The sides of an image: the box that it is fitted into, and the steps that make it smaller.
use native.Mathlib.Nat.{div-lt_iff_lt-mul, mul-lt-mul_of_pos_left, zero-div, zero-mod}
use tile.Prelude.{
  ℕ, zero, suc, ◌+◌, ◌*◌, ◌/◌, ◌≤◌, ◌<◌, ◌≡◌, refl, inl, inr, ◌&&◌, arith, ltb, leb, ◌==◌,
  Bool-cases, ltb-false, leb-false, ltb→lt, lt→ltb, leb→le, max,
}
use tile.Tools.ImageProcessing.{
  next_side, next_dimensions, round_quotient, fit_side, fit_dimensions, ImageProcessingOptions,
}

next_side-lt : (side : ℕ) → 2 ≤ side → (next_side side < side) × (1 ≤ next_side side)
unfolding next_side
next_side-lt side h = ground arith

next_side-one : next_side 1 ≡ 1
unfolding next_side
next_side-one = refl

round_quotient-le_suc :
    (count unit bound : ℕ) → count / unit < bound → round_quotient count unit ≤ bound
unfolding round_quotient
round_quotient-le_suc count unit bound h = ground arith

round_quotient-zero : (count unit : ℕ) → count ≡ 0 → 0 < unit → round_quotient count unit ≤ 0
unfolding round_quotient
round_quotient-zero count unit e h =
    rw (e, zero-div unit, zero-mod unit, lt→ltb 0 unit h) (omega arith)

round_quotient-le :
    (other max_side side : ℕ) → max_side < side → round_quotient (other * max_side) side ≤ other
round_quotient-le zero max_side side h =
    round_quotient-zero (zero * max_side) side (omega arith) (omega arith)
round_quotient-le (suc other) max_side side h =
    round_quotient-le_suc (suc other * max_side) side (suc other)
      ((div-lt_iff_lt-mul (omega arith)).1 (mul-lt-mul_of_pos_left h (omega arith)))

fit_side-le :
    (side other max_side : ℕ)
    → ((fit_side side other max_side).0 ≤ max_side) × ((fit_side side other max_side).1 ≤ other)
unfolding fit_side
fit_side-le side other max_side = elim (Bool-cases (ltb max_side side)) [
  | inl large ↦
      rw large (omega arith, round_quotient-le other max_side side (ltb→lt max_side side large))
  | inr small ↦ rw small (let k = ltb-false max_side side small in omega arith, omega arith)
]

-- The sides that an image is shown with.
abbrev pub Fits : ImageProcessingOptions → ℕ → ℕ → Type 0
Fits options width height =
    (1 ≤ width)
    × (1 ≤ height)
    × (width ≤ max 1 options.max_width)
    × (height ≤ max 1 options.max_height)

pub fit_dimensions-Fits :
    (width height : ℕ) (options : ImageProcessingOptions)
    → let fitted = fit_dimensions width height options in Fits options (fitted.0) (fitted.1)
unfolding fit_dimensions
fit_dimensions-Fits width height options =
    let by_width = fit_side width height options.max_width in
    let w = fit_side-le width height options.max_width in
    let h = fit_side-le (by_width.1) (by_width.0) options.max_height in
    (omega arith, omega arith, omega arith, omega arith)

next_side-le : (side : ℕ) → 1 ≤ side → (next_side side ≤ side) × (1 ≤ next_side side)
unfolding next_side
next_side-le side h = ground arith

-- The sum of two sides that are not both one pixel.
next_side-sum :
    (width height : ℕ)
    → 1 ≤ width
    → 1 ≤ height
    → 2 < width + height
    → next_side width + next_side height < width + height
next_side-sum width height h k more =
    let w = next_side-le width h in
    let v = next_side-le height k in
    elim (Bool-cases (leb 2 width)) [
      | inl large ↦ (let lt = next_side-lt width (leb→le 2 width large) in omega arith)
      | inr small ↦
          (let one = leb-false 2 width small in
            let lt = next_side-lt height (omega arith) in omega arith)
    ]

-- Sides of the next round.
abbrev pub Smaller : ℕ → ℕ → ℕ → ℕ → Type 0
Smaller width height next_width next_height =
    (1 ≤ next_width)
    × (1 ≤ next_height)
    × (next_width ≤ width)
    × (next_height ≤ height)
    × (next_width + next_height < width + height)

pub next_dimensions-Smaller :
    (width height : ℕ)
    → 1 ≤ width
    → 1 ≤ height
    → 2 < width + height
    → let next = next_dimensions width height in Smaller width height (next.0) (next.1)
unfolding next_dimensions
next_dimensions-Smaller width height h k more =
    let w = next_side-le width h in
    let v = next_side-le height k in
    elim (Bool-cases ((next_side width == width) && (next_side height == height))) [
      | inl same ↦ rw same (omega arith, omega arith, omega arith, omega arith, omega arith)
      | inr other ↦ rw other (w.1, v.1, w.0, v.0, next_side-sum width height h k more)
    ]
