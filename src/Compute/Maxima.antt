-- ===== src/Compute/Maxima.antt =====
-- terrain_cpu_compute.cpp, `cpuComputeRectMax`: the greatest height under a rectangle, on a grid of 16 by 16 points.
pub mod Bounds
use qml_and_bgfx_testbridge.Prelude.{
  ℕ, zero, suc, ◌+◌, ◌-◌, ◌*◌, Bool, true, false, not, ◌||◌, List, [], ◌∷◌, ◌++◌, Option, none,
  some, ltb, ◌==◌, get_elem?, replicate, if◌then◌else◌,
}
use qml_and_bgfx_testbridge.Prelude.Int.{ℤ, pos, negsuc, ltb_ℤ}
use qml_and_bgfx_testbridge.Compute.{Floats, min_f, max_f, le_f, ◌>>=◌}

-- An index into an array: a negative one is out of its bounds.
abbrev pub at : {A : Type 0} → List A → ℤ → Option A
at xs (pos n) = get_elem? xs n
at xs (negsuc n) = none

-- The pairs (sx, sy) of the two loops, sy outside.
unfoldable pub grid_row : ℕ → ℕ → ℕ → List (ℕ × ℕ)
grid_row zero sx sy = []
grid_row (suc left) sx sy = (sx, sy) ∷ grid_row left (suc sx) sy

unfoldable pub grid_rows : ℕ → ℕ → List (ℕ × ℕ)
grid_rows zero sy = []
grid_rows (suc left) sy = grid_row 16 0 sy ++ grid_rows left (suc sy)

abbrev pub grid : List (ℕ × ℕ)
grid = grid_rows 16 0

pub record Terrain (F : Type 0) : Type 0 where
  pub dmap : List F
  pub dmap_width : ℕ  -- `int` in the source
  pub dmap_height : ℕ  -- the same
  pub half_width : F
  pub half_height : F
  pub dmap_factor : F
  pub dmap_bias : F

pub record Rect (F : Type 0) : Type 0 where
  pub p0x : F
  pub p0y : F
  pub ux : F
  pub uy : F
  pub vx : F
  pub vy : F

module _ (fl : Floats) (t : Terrain fl.F) where
  abbrev pub zero_f : fl.F
  zero_f = fl.of_int (pos 0)

  abbrev pub one_f : fl.F
  one_f = fl.of_int (pos 1)

  abbrev pub unit_clamp : fl.F → fl.F
  unit_clamp u = min_f fl one_f (max_f fl zero_f u)

  -- `std::min(side - 1, int(u * float(side)))`
  abbrev pub texel_of : ℕ → fl.F → ℤ
  texel_of side u =
      let x = fl.to_int (fl.times u (fl.of_int (pos side))) in
      if ltb_ℤ x (pos (side - 1)) then x else pos (side - 1)

  abbrev pub flat_index : ℤ → ℤ → ℤ
  flat_index (pos y) (pos x) = pos (y * t.dmap_width + x)
  flat_index _ _ = negsuc 0

  unfoldable pub sample : fl.F → fl.F → Option fl.F
  sample u v =
      at t.dmap
        (flat_index (texel_of t.dmap_height (unit_clamp v)) (texel_of t.dmap_width (unit_clamp u)))

  -- The height at a point of the grid.
  unfoldable pub height_at : Rect fl.F → ℕ × ℕ → Option fl.F
  height_at r (sx, sy) = do
    let inv_grid = fl.over one_f (fl.of_int (pos 16))
    let tx = fl.times (fl.plus (fl.of_int (pos sx)) fl.half) inv_grid
    let ty = fl.times (fl.plus (fl.of_int (pos sy)) fl.half) inv_grid
    let wx = fl.plus (fl.plus r.p0x (fl.times tx r.ux)) (fl.times ty r.vx)
    let wy = fl.plus (fl.plus r.p0y (fl.times tx r.uy)) (fl.times ty r.vy)
    let two = fl.of_int (pos 2)
    let u = fl.over (fl.plus wx t.half_width) (fl.times two t.half_width)
    let v = fl.over (fl.plus wy t.half_height) (fl.times two t.half_height)
    s ← sample u v
    some (fl.plus (fl.times s t.dmap_factor) t.dmap_bias)

  -- The loop over the grid from `maxH`.
  unfoldable pub max_loop : Rect fl.F → List (ℕ × ℕ) → fl.F → Option fl.F
  max_loop r [] max_h = some max_h
  max_loop r (p ∷ ps) max_h =
      height_at r p >>= λ h. max_loop r ps (if fl.less max_h h then h else max_h)

  -- Of an empty rectangle the maximum is 0, and so is one that is not finite.
  abbrev pub found_max : Bool → Option fl.F → Option fl.F
  found_max true searched = some zero_f
  found_max false searched = searched >>= λ h. some (if fl.is_finite h then h else zero_f)

  unfoldable pub rect_max : Rect fl.F → Option fl.F
  rect_max r = do
    let u_len2 = fl.plus (fl.times r.ux r.ux) (fl.times r.uy r.uy)
    let v_len2 = fl.plus (fl.times r.vx r.vx) (fl.times r.vy r.vy)
    let searched = max_loop r grid fl.minus_infinity
    found_max (le_f fl u_len2 fl.tiny || le_f fl v_len2 fl.tiny) searched

  -- `rects` at the eight numbers of a rectangle, of which six are read.
  unfoldable pub read_rect : List fl.F → ℕ → Option (Rect fl.F)
  read_rect rects r = do
    p0x ← get_elem? rects (r * 8)
    p0y ← get_elem? rects (r * 8 + 1)
    ux ← get_elem? rects (r * 8 + 2)
    uy ← get_elem? rects (r * 8 + 3)
    vx ← get_elem? rects (r * 8 + 4)
    vy ← get_elem? rects (r * 8 + 5)
    some (record { p0x = p0x; p0y = p0y; ux = ux; uy = uy; vx = vx; vy = vy })

  unfoldable pub rect_loop : ℕ → ℕ → List fl.F → Option (List fl.F)
  rect_loop zero r rects = some []
  rect_loop (suc left) r rects = do
    rect ← read_rect rects r
    h ← rect_max rect
    rest ← rect_loop left (suc r) rects
    some (h ∷ rest)

  -- `rectCount` is not negative here; without a rectangle, a map or a terrain all maxima are 0.
  unfoldable pub compute_rect_max : ℕ → List fl.F → Option (List fl.F)
  compute_rect_max rect_count rects =
      if rect_count == 0
        || t.dmap_width == 0
        || t.dmap_height == 0
        || le_f fl t.half_width zero_f
        || le_f fl t.half_height zero_f
      then some (replicate rect_count zero_f)
      else rect_loop rect_count 0 rects
