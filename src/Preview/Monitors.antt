-- ===== src/Preview/Monitors.antt =====
-- src-tauri/src/preview/mod.rs: whether a remembered position lies on a connected monitor. A
-- coordinate (`i32`) is its distance from the least one, -2^31; an area is x, y, width and height.
use hive_manager.Base.{
  ℕ, ◌+◌, ◌-◌, ◌≡◌, refl, ap, inl, inr, Bool-cases, ◌≤◌, ◌<◌, min, Bool, true, ◌&&◌, List, [], ◌∷◌,
  ◌++◌, ltb, leb, any, if◌then◌else◌, arith,
}

abbrev pub WorkArea : Type 0
WorkArea = ℕ × ℕ × ℕ × ℕ

abbrev pub i32_greatest : ℕ
i32_greatest = 0xFFFF_FFFF

-- `origin.saturating_add(extent as i32)`: the cast makes an extent from 2^31 on negative.
abbrev pub edge : ℕ → ℕ → ℕ
edge origin extent =
    if ltb extent 0x8000_0000
    then min i32_greatest (origin + extent)
    else origin - (0x1_0000_0000 - extent)

abbrev pub on_area : ℕ → ℕ → WorkArea → Bool
on_area x y (monitor_x, monitor_y, width, height) =
    leb monitor_x x
    && leb monitor_y y
    && ltb x (edge monitor_x width)
    && ltb y (edge monitor_y height)

unfoldable pub position_is_on_a_monitor : ℕ → ℕ → List WorkArea → Bool
position_is_on_a_monitor x y work_areas = any (on_area x y) work_areas

-- The first of the areas that has a point in it, as the numbers say without a bound on them.
unfoldable pub Covered : ℕ → ℕ → List WorkArea → Type 0
Covered x y work_areas =
    (before : List WorkArea) × (a : WorkArea) × (after : List WorkArea) × (work_areas
      ≡ before ++ a ∷ after)
    × (a.0 ≤ x)
    × (x < a.0 + a.2)
    × (a.1 ≤ y)
    × (y < a.1 + a.3)

later :
    (x y : ℕ) (work_areas : List WorkArea) (a : WorkArea)
    → Covered x y work_areas
    → Covered x y (a ∷ work_areas)
unfolding Covered
later x y work_areas a (before, b, after, e, inside1, inside2, inside3, inside4) =
    (a ∷ before, b, after, ap (λ l. a ∷ l) e, inside1, inside2, inside3, inside4)

-- Every position accepted lies in one of the connected work areas, extents that do not fit an
-- `i32` and edges past the greatest coordinate included.
pub position-Covered :
    (x y : ℕ) (work_areas : List WorkArea)
    → position_is_on_a_monitor x y work_areas ≡ true
    → Covered x y work_areas
unfolding Covered position_is_on_a_monitor
position-Covered x y [] h = cc
position-Covered x y ((mx, my, w, h) ∷ rest) p = elim (Bool-cases (on_area x y (mx, my, w, h))) [
  | inl e ↦ (
    [],
    (mx, my, w, h),
    rest,
    refl,
    ground (arith, e),
    ground (arith, e),
    ground (arith, e),
    ground (arith, e),
  )
  | inr e ↦ later x y rest (mx, my, w, h) (position-Covered x y rest (ground (arith, e, p)))
]
