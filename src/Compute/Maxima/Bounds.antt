-- ===== src/Compute/Maxima/Bounds.antt =====
-- terrain_cpu_compute.cpp, `cpuComputeRectMax`: its reads are in bounds, and no height of the grid is above the maximum.
use qml_and_bgfx_testbridge.Prelude.{
  ℕ, zero, suc, ◌+◌, ◌-◌, ◌*◌, ◌^◌, ◌≤◌, ◌<◌, ◌≡◌, refl, ap, subst, Bool, true, false, ◌||◌, List,
  [], ◌∷◌, Option, none, some, ◌==◌, get_elem?, length, length-replicate, Bool-cases, Option-cases,
  inl, inr, ◌⊎◌, if◌then◌else◌, arith,
}
use qml_and_bgfx_testbridge.Prelude.Int.{ℤ, pos, ltb_ℤ}
use qml_and_bgfx_testbridge.Compute.{Floats, le_f, ◌>>=◌}
use qml_and_bgfx_testbridge.Compute.Slopes.{get_elem?-some}
use qml_and_bgfx_testbridge.Compute.Maxima.{
  Terrain, Rect, grid, unit_clamp, zero_f, one_f, sample, height_at, max_loop, rect_max, found_max,
  read_rect, rect_loop, compute_rect_max,
}

module _ (fl : Floats) (t : Terrain fl.F) where
  -- 0, 1 or between them.
  abbrev pub InUnit : fl.F → Type 0
  InUnit v =
      (v ≡ zero_f fl t)
      ⊎ (v ≡ one_f fl t)
      ⊎ ((fl.less (zero_f fl t) v ≡ true) × (fl.less v (one_f fl t) ≡ true))

  -- What the language promises: for a side that `float` holds exactly, at most 2 ^ 24, the product with a number of 0
  -- to 1 is in the range of `int`, and its conversion is not negative. For a larger side the conversion may be undefined.
  abbrev pub Converts : Type 0
  Converts =
      (v : fl.F) (side : ℕ)
      → side ≤ 2 ^ 24
      → InUnit v
      → (k : ℕ) × (fl.to_int (fl.times v (fl.of_int (pos side))) ≡ pos k)

  unit_clamp-InUnit : (u : fl.F) → InUnit (unit_clamp fl t u)
  unit_clamp-InUnit u = elim (Bool-cases (fl.less (zero_f fl t) u)) [
    | inl above ↦ elim (Bool-cases (fl.less u (one_f fl t))) [
      | inl below ↦ rw (above, below) (inr (inr (above, below)))
      | inr not_below ↦ rw (above, not_below) (inr (inl refl))
    ]
    | inr not_above ↦ elim (Bool-cases (fl.less (zero_f fl t) (one_f fl t))) [
      | inl below ↦ rw (not_above, below) (inl refl)
      | inr not_below ↦ rw (not_above, not_below) (inr (inl refl))
    ]
  ]

  index_below : (k side : ℕ) → ltb_ℤ (pos k) (pos (side - 1)) ≡ true → k < side
  index_below k side h = ground arith

  texel_below :
      (side : ℕ) (x : ℤ) (k : ℕ)
      → 0 < side
      → x ≡ pos k
      → (i : ℕ) × ((if ltb_ℤ x (pos (side - 1)) then x else pos (side - 1)) ≡ pos i) × (i < side)
  texel_below side x k h e = elim (Bool-cases (ltb_ℤ x (pos (side - 1)))) [
    | inl low ↦
        (k, rw low e, index_below k side (subst (λ z. ltb_ℤ z (pos (side - 1)) ≡ true) e low))
    | inr high ↦ (side - 1, rw high refl, omega arith)
  ]

  sample_read :
      Converts
      → length t.dmap ≡ t.dmap_width * t.dmap_height
      → 0 < t.dmap_width
      → 0 < t.dmap_height
      → t.dmap_width ≤ 2 ^ 24
      → t.dmap_height ≤ 2 ^ 24
      → (u v : fl.F) → (a : fl.F) × (sample fl t u v ≡ some a)
  unfolding sample
  sample_read converts full w h exact_w exact_h u v =
      let (kx, ex) = converts (unit_clamp fl t u) t.dmap_width exact_w (unit_clamp-InUnit u) in
      let (ky, ey) = converts (unit_clamp fl t v) t.dmap_height exact_h (unit_clamp-InUnit v) in
      let (x, px, bx) = texel_below t.dmap_width _ kx w ex in
      let (y, py, by) = texel_below t.dmap_height _ ky h ey in
      let inside : y * t.dmap_width + x < length t.dmap = grind arith in
      let (a, e) = get_elem?-some t.dmap (y * t.dmap_width + x) inside in (a, rw (px, py) e)

  -- A result, without a read out of bounds.
  abbrev Given : {A : Type 0} → Option A → Type 0
  Given {A} o = (a : A) × (o ≡ some a)

  bind-Given :
      {A B : Type 0} (o : Option A) (f : A → Option B)
      → Given o
      → ((a : A) → Given (f a))
      → Given (o >>= f)
  bind-Given o f (a, e) h = rw e (h a)

  module _ (good : (u v : fl.F) → (a : fl.F) × (sample fl t u v ≡ some a)) where
    height_at-Given : (r : Rect fl.F) (p : ℕ × ℕ) → Given (height_at fl t r p)
    unfolding height_at
    height_at-Given r (sx, sy) = bind-Given (sample fl t _ _) _ (good _ _) (λ s. (_, refl))

    max_loop-Given : (r : Rect fl.F) (ps : List (ℕ × ℕ)) (m : fl.F) → Given (max_loop fl t r ps m)
    unfolding max_loop
    max_loop-Given r [] m = (m, refl)
    max_loop-Given r (p ∷ ps) m =
        let (h, e) = height_at-Given r p in
        let (n, e') = max_loop-Given r ps (if fl.less m h then h else m) in (n, rw e e')

    found_max-Given : (empty : Bool) (o : Option fl.F) → Given o → Given (found_max fl t empty o)
    found_max-Given true o g = (_, refl)
    found_max-Given false o (h, e) = ((if fl.is_finite h then h else zero_f fl t), rw e refl)

    rect_max-Given : (r : Rect fl.F) → Given (rect_max fl t r)
    unfolding rect_max
    rect_max-Given r =
        found_max-Given _ (max_loop fl t r grid fl.minus_infinity)
          (max_loop-Given r grid fl.minus_infinity)

    read_rect-Given :
        (rects : List fl.F) (r : ℕ) → r * 8 + 8 ≤ length rects → Given (read_rect fl t rects r)
    unfolding read_rect
    read_rect-Given rects r room =
        bind-Given (get_elem? rects (r * 8)) _ (get_elem?-some rects (r * 8) (omega arith)) λ a.
          bind-Given (get_elem? rects (r * 8 + 1)) _
            (get_elem?-some rects (r * 8 + 1) (omega arith))
            λ b.
              bind-Given (get_elem? rects (r * 8 + 2)) _
                (get_elem?-some rects (r * 8 + 2) (omega arith))
                λ c.
                  bind-Given (get_elem? rects (r * 8 + 3)) _
                    (get_elem?-some rects (r * 8 + 3) (omega arith))
                    λ d.
                      bind-Given (get_elem? rects (r * 8 + 4)) _
                        (get_elem?-some rects (r * 8 + 4) (omega arith))
                        λ e.
                          bind-Given (get_elem? rects (r * 8 + 5)) _
                            (get_elem?-some rects (r * 8 + 5) (omega arith)) λ f. (_, refl)

    rect_loop_given :
        (left r : ℕ) (rects : List fl.F)
        → (r + left) * 8 ≤ length rects
        → (xs : List fl.F) × (rect_loop fl t left r rects ≡ some xs) × (length xs ≡ left)
    unfolding rect_loop
    rect_loop_given zero r rects room = ([], refl, refl)
    rect_loop_given (suc left) r rects room =
        let (rect, e) = read_rect-Given rects r (omega arith) in
        let (h, e') = rect_max-Given rect in
        let (xs, e'', n) = rect_loop_given left (suc r) rects (omega arith) in
        (h ∷ xs, rw (e, e', e'') refl, ap suc n)

  -- A list of so many maxima.
  abbrev pub Maxima : ℕ → Option (List fl.F) → Type 0
  Maxima n none = ⊥
  Maxima n (some xs) = length xs ≡ n

  every_maximum :
      (n : ℕ) (o : Option (List fl.F))
      → (xs : List fl.F) × (o ≡ some xs) × (length xs ≡ n)
      → Maxima n o
  every_maximum n o (xs, e, h) = rw e h

  -- For a height map that fills its sides, which are at most 2 ^ 24, and eight numbers for each rectangle, each read is in bounds, whatever
  -- the rectangles are, also far outside of the terrain; and there is one maximum for each.
  pub compute_rect_max-Maxima :
      Converts
      → length t.dmap ≡ t.dmap_width * t.dmap_height
      → t.dmap_width ≤ 2 ^ 24
      → t.dmap_height ≤ 2 ^ 24
      → (rect_count : ℕ) (rects : List fl.F) → rect_count * 8 ≤ length rects
      → Maxima rect_count (compute_rect_max fl t rect_count rects)
  unfolding compute_rect_max
  compute_rect_max-Maxima converts full exact_w exact_h rect_count rects room =
      let nothing =
        rect_count == 0
        || t.dmap_width == 0
        || t.dmap_height == 0
        || le_f fl t.half_width (zero_f fl t)
        || le_f fl t.half_height (zero_f fl t) in
      elim (Bool-cases nothing) [
        | inl e ↦ rw e (length-replicate rect_count (zero_f fl t))
        | inr e ↦ rw e (
            every_maximum rect_count (rect_loop fl t rect_count 0 rects) (
              rect_loop_given
                (sample_read converts full (ground arith) (ground arith) exact_w exact_h) rect_count
                0 rects (omega arith)))
      ]

  -- The order of `float` on all its values.
  pub record IsOrder : Type 0 where
    pub irreflexive : (a : fl.F) → fl.less a a ≡ false
    pub transitive : (a b c : fl.F) → fl.less a b ≡ true → fl.less b c ≡ true → fl.less a c ≡ true

  module _ (order : IsOrder) (r : Rect fl.F) where
    -- No height of these points is above a number.
    abbrev pub NoneAbove : fl.F → List (ℕ × ℕ) → Type 0
    NoneAbove m [] = Unit {0}
    NoneAbove m (p ∷ ps) =
        ((h : fl.F) → height_at fl t r p ≡ some h → fl.less m h ≡ false) × NoneAbove m ps

    -- The maximum so far only grows.
    grown :
        (ps : List (ℕ × ℕ)) (m n h : fl.F)
        → max_loop fl t r ps m ≡ some n
        → fl.less m h ≡ false
        → fl.less n h ≡ false
    unfolding max_loop
    grown [] m n h e low = ground arith
    grown (p ∷ ps) m n h e low = elim (Option-cases (height_at fl t r p)) [
      | inl no_height ↦ absurd (ground arith)
      | inr (k, a_height) ↦
          grown ps (if fl.less m k then k else m) n h (ground arith)
            (ground (arith, order.transitive m k h))
    ]

    -- The loop over the points ends with a number that no height of a point is above; also NaN is not.
    pub max_loop-NoneAbove :
        (ps : List (ℕ × ℕ)) (m n : fl.F) → max_loop fl t r ps m ≡ some n → NoneAbove n ps
    unfolding max_loop
    max_loop-NoneAbove [] m n e = tt
    max_loop-NoneAbove (p ∷ ps) m n e = elim (Option-cases (height_at fl t r p)) [
      | inl no_height ↦ absurd (ground arith)
      | inr (k, a_height) ↦
          let rest : max_loop fl t r ps (if fl.less m k then k else m) ≡ some n = ground arith in
          (
            λ h a.
                grown ps (if fl.less m k then k else m) n h rest
                  (ground (arith, order.irreflexive h)),
            max_loop-NoneAbove ps (if fl.less m k then k else m) n rest,
          )
    ]
