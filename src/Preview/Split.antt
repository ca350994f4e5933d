-- ===== src/Preview/Split.antt =====
-- src-tauri/src/preview/mod.rs: how a monitor's work area is split between the two windows. A scale
-- factor (`f64`) is not finite, not positive, or a fraction of two numbers, the denominator not 0;
-- its products with 800 and 420 are exact, as they are for every scale of up to 43 binary digits.
-- `total * 0.40` is off two fifths by less than a tenth for every width (`u32`), so it rounds as they do.
use hive_manager.Base.{
  ℕ, ◌+◌, ◌-◌, ◌*◌, ◌/◌, ◌≡◌, ◌≤◌, ◌<◌, min, ltb, if◌then◌else◌, if_both, arith,
}

pub data Scale : Type 0 where
  not_finite : Scale
  not_positive : Scale
  ratio : ℕ → ℕ → Scale

abbrev pub u32_max : ℕ
u32_max = 0xFFFF_FFFF

abbrev pub main_min_logical_width : ℕ
main_min_logical_width = 800

abbrev pub docked_preview_min_logical_width : ℕ
docked_preview_min_logical_width = 420

-- `(logical * scale).ceil() as u32`: the cast stops at the greatest `u32`. A scale that is unusable
-- stands for 1.
abbrev pub scaled_min : ℕ → Scale → ℕ
scaled_min logical not_finite = logical
scaled_min logical not_positive = logical
scaled_min logical (ratio n d) = min u32_max ((logical * n + (d - 1)) / d)

abbrev pub saturating_add : ℕ → ℕ → ℕ
saturating_add a b = min u32_max (a + b)

-- `(total * 0.40).round() as u32`.
abbrev pub two_fifths : ℕ → ℕ
two_fifths w = (4 * w + 5) / 10

-- `clamp` of a number to bounds in order.
abbrev pub clamp : ℕ → ℕ → ℕ → ℕ
clamp x lo hi = if ltb x lo then lo else if ltb hi x then hi else x

-- `clamp` panics on bounds out of order.
pub data Split : Type 0 where
  too_narrow : Split
  columns : ℕ → ℕ → Split
  panicked : Split

abbrev pub split_with : ℕ → ℕ → ℕ → Split
split_with w main_min preview_min =
    let preview_width = clamp (two_fifths w) preview_min (w - main_min) in
    if ltb w (saturating_add main_min preview_min)
    then too_narrow
    else if ltb (w - main_min) preview_min
    then panicked
    else columns (w - preview_width) preview_width

unfoldable pub dock_split : ℕ → Scale → Split
dock_split w scale =
    split_with w (scaled_min main_min_logical_width scale)
      (scaled_min docked_preview_min_logical_width scale)

-- What is promised of two columns.
unfoldable pub Fits : ℕ → ℕ → ℕ → Split → Type 0
Fits w main_min preview_min too_narrow = w < main_min + preview_min
Fits w main_min preview_min (columns main_width preview_width) =
    (main_width + preview_width ≡ w) × (main_min ≤ main_width) × (preview_min ≤ preview_width)
Fits w main_min preview_min panicked = (u32_max ≤ w) × (w < main_min + preview_min)

split_with-Fits :
    (w main_min preview_min : ℕ)
    → main_min ≤ u32_max
    → Fits w main_min preview_min (split_with w main_min preview_min)
unfolding Fits
split_with-Fits w main_min preview_min h =
    if_both (Fits w main_min preview_min) (ltb w (saturating_add main_min preview_min))
      (λ n. ground (arith, n))
      (λ n.
        if_both (Fits w main_min preview_min) (ltb (w - main_min) preview_min)
          (λ p. ground (arith, n, p)) (λ p. ground (arith, n, p, h)))

scaled_min-bound : (scale : Scale) → scaled_min main_min_logical_width scale ≤ u32_max
scaled_min-bound not_finite = ground arith
scaled_min-bound not_positive = ground arith
scaled_min-bound (ratio n d) = ground arith

-- For a work area of any width and any scale, either the split refuses and the two least widths
-- do not fit, or it gives two columns that fill the width exactly, each at least its least width;
-- it panics at most where the work area has the greatest width of a `u32` and they do not fit.
pub dock_split-Fits :
    (w : ℕ) (scale : Scale)
    → Fits w
        (scaled_min main_min_logical_width scale)
        (scaled_min docked_preview_min_logical_width scale)
        (dock_split w scale)
unfolding dock_split
dock_split-Fits w scale = split_with-Fits w _ _ (scaled_min-bound scale)
