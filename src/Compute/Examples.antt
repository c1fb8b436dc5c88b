-- ===== src/Compute/Examples.antt =====
-- Tests of terrain_cpu_compute.cpp, and its theorems at inputs.
use qml_and_bgfx_testbridge.Prelude.{
  ℕ, ◌+◌, ◌-◌, ◌*◌, ◌/◌, ◌≡◌, refl, true, false, List, [], ◌∷◌, ◌++◌, none, some, ltb, ◌==◌,
  replicate, arith,
}
use qml_and_bgfx_testbridge.Prelude.Int.{ℤ, pos, negsuc}
use qml_and_bgfx_testbridge.Compute.{Floats, is_valid_float}
use qml_and_bgfx_testbridge.Compute.Gaps.{
  walk, left_over, trimmed_by, compute_robust_height_range, raw_range, rounds, histogram, clamp_bin,
}
use qml_and_bgfx_testbridge.Compute.Gaps.Walks.{Verdict, walk-Verdict}
use qml_and_bgfx_testbridge.Compute.Maxima.{
  Terrain, Rect, compute_rect_max, max_loop, height_at, sample,
}
use qml_and_bgfx_testbridge.Compute.Maxima.Bounds.{
  Converts, Maxima, compute_rect_max-Maxima, IsOrder,
}

abbrev of_int : ℤ → ℕ
of_int (pos n) = n
of_int (negsuc n) = 0

-- Numbers without a sign or a fraction.
abbrev naturals : Floats
naturals = record {
  F = ℕ;
  of_int = of_int;
  of_bits = λ n. n;
  infinity = 1000000;
  minus_infinity = 0;
  nan = 1000000;
  less = ltb;
  equal = λ a b. a == b;
  is_finite = λ a. ltb a 1000000;
  fabs = λ a. a;
  plus = λ a b. a + b;
  minus = λ a b. a - b;
  times = λ a b. a * b;
  over = λ a b. a / b;
  negative = λ a. 0;
  floor = λ a. a;
  half = 0;
  large = 1000000;
  tiny = 0;
  to_int = pos;
}

-- Two values before a gap of 13 bins are cut off with a budget of two, and not with one.
abbrev gapped : List ℕ
gapped = 2 ∷ replicate 13 0 ++ 40 ∷ 50 ∷ []

cut_off : walk 2 gapped 0 0 0 ≡ some (14, 2)
unfolding walk
cut_off = refl

left_alone : walk 1 gapped 0 0 0 ≡ none
unfolding walk
left_alone = refl

-- The values 0 and 1, far below a hundred others.
abbrev heights : List ℕ
heights = 0 ∷ 1 ∷ replicate 60 128 ++ replicate 38 130

outliers_go : compute_robust_height_range naturals (λ n. n / 20) heights ≡ some (65, 130)
unfolding compute_robust_height_range raw_range rounds histogram walk clamp_bin is_valid_float
outliers_go = refl

walk-Verdict_example :
    Verdict 2 [] gapped (walk 2 gapped 0 0 0)
    × (left_over 2 (trimmed_by (walk 2 gapped 0 0 0)) + trimmed_by (walk 2 gapped 0 0 0) ≡ 2)
walk-Verdict_example = walk-Verdict 2 gapped

abbrev terrain : Terrain ℕ
terrain = record {
  dmap = 5 ∷ 7 ∷ [];
  dmap_width = 2;
  dmap_height = 1;
  half_width = 1;
  half_height = 1;
  dmap_factor = 1;
  dmap_bias = 0;
}

converts : Converts naturals terrain
converts v side exact unit = (v * side, refl)

compute_rect_max-Maxima_example :
    Maxima naturals terrain 1
      (compute_rect_max naturals terrain 1 (0 ∷ 0 ∷ 1 ∷ 0 ∷ 0 ∷ 1 ∷ 0 ∷ 0 ∷ []))
compute_rect_max-Maxima_example =
    compute_rect_max-Maxima naturals terrain converts refl (omega arith) (omega arith) 1
      (0 ∷ 0 ∷ 1 ∷ 0 ∷ 0 ∷ 1 ∷ 0 ∷ 0 ∷ []) (omega arith)

irreflexive : (a : ℕ) → ltb a a ≡ false
irreflexive a = ground arith

transitive : (a b c : ℕ) → ltb a b ≡ true → ltb b c ≡ true → ltb a c ≡ true
transitive a b c h k = ground arith

abbrev order : IsOrder naturals terrain
order = record { irreflexive = irreflexive; transitive = transitive }

abbrev rect : Rect ℕ
rect = record { p0x = 0; p0y = 0; ux = 1; uy = 0; vx = 0; vy = 1 }

found : max_loop naturals terrain rect ((0, 0) ∷ (3, 3) ∷ []) 0 ≡ some 5
unfolding max_loop height_at sample
found = refl
