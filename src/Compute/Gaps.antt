-- ===== src/Compute/Gaps.antt =====
-- terrain_cpu_compute.cpp, `computeRobustHeightRange`: a histogram of 256 bins is walked from both ends, and what stands
-- before a gap of 13 bins is cut off if it is few enough.
pub mod Walks
use qml_and_bgfx_testbridge.Prelude.{
  ℕ, zero, suc, ◌+◌, ◌-◌, ◌*◌, ◌/◌, Bool, true, false, not, ◌&&◌, ◌||◌, List, [], ◌∷◌, ◌++◌, Option,
  none, some, ltb, leb, ◌==◌, get_elem?, set, replicate, length, if◌then◌else◌,
}
use qml_and_bgfx_testbridge.Prelude.Int.{ℤ, pos, negsuc}
use qml_and_bgfx_testbridge.Compute.{Floats, min_f, max_f, le_f, is_valid_float}
use mathlib.Core.List.{reverse}

-- A walk: with the bins ahead, the index of the first, the run of empty bins and the sum before it. It gives the index
-- at which it cuts and the sum cut off.
unfoldable pub walk : ℕ → List ℕ → ℕ → ℕ → ℕ → Option (ℕ × ℕ)
walk budget [] i empty_run cum = none
walk budget (n ∷ bins) i empty_run cum =
    let full = walk budget bins (suc i) 0 (cum + n) in
    let empty = walk budget bins (suc i) (suc empty_run) cum in
    if ltb 0 n
    then (if leb 13 empty_run && leb cum budget && ltb 0 cum then some (i, cum) else full)
    else empty

-- `(leftTrimmed < leftBudget) ? (leftBudget - leftTrimmed) : 0`
abbrev pub left_over : ℕ → ℕ → ℕ
left_over budget trimmed = if ltb trimmed budget then budget - trimmed else 0

abbrev pub trimmed_by : Option (ℕ × ℕ) → ℕ
trimmed_by none = 0
trimmed_by (some (i, cum)) = cum

-- `hist[i] += 1`
abbrev pub bump : List ℕ → ℕ → List ℕ
bump [] i = []
bump (n ∷ ns) zero = suc n ∷ ns
bump (n ∷ ns) (suc i) = n ∷ bump ns i

-- An index held between 0 and 255.
unfoldable pub clamp_bin : ℤ → ℕ
clamp_bin (negsuc n) = 0
clamp_bin (pos n) = if ltb n 256 then n else 255

-- A round of the loop: the bounds, and what is left of the two budgets.
pub record Round (F : Type 0) : Type 0 where
  pub cur_min : F
  pub cur_max : F
  pub left_budget : ℕ
  pub right_budget : ℕ

module _ (fl : Floats) where
  -- The least and the greatest valid value, and the number of them.
  unfoldable pub raw_range : List fl.F → fl.F × fl.F × ℕ → fl.F × fl.F × ℕ
  raw_range [] s = s
  raw_range (v ∷ vs) (raw_min, raw_max, n) = raw_range vs (
      if is_valid_float fl v
      then (min_f fl raw_min v, max_f fl raw_max v, suc n)
      else (raw_min, raw_max, n))

  -- The value lies in the bounds.
  abbrev pub counts : fl.F → fl.F → fl.F → Bool
  counts cur_min cur_max v =
      is_valid_float fl v && not (fl.less v cur_min) && not (fl.less cur_max v)

  unfoldable pub histogram : fl.F → fl.F → fl.F → List fl.F → List ℕ → List ℕ
  histogram cur_min cur_max inv_range [] hist = hist
  histogram cur_min cur_max inv_range (v ∷ vs) hist =
      let bin = clamp_bin (fl.to_int (fl.times (fl.minus v cur_min) inv_range)) in
      histogram cur_min cur_max inv_range vs
        (if counts cur_min cur_max v then bump hist bin else hist)

  abbrev pub bins : fl.F
  bins = fl.of_int (pos 256)

  -- `curMin + (range * float(i) / float(kBinCount))`
  abbrev pub edge : fl.F → fl.F → ℕ → fl.F
  edge cur_min range i = fl.plus cur_min (fl.over (fl.times range (fl.of_int (pos i))) bins)

  abbrev pub new_min : fl.F → fl.F → Option (ℕ × ℕ) → fl.F
  new_min cur_min range none = cur_min
  new_min cur_min range (some (i, cum)) = edge cur_min range i

  -- From the right bin 255 comes first: the walk's i is bin 255 - i, which ends at edge 256 - i.
  abbrev pub new_max : fl.F → fl.F → fl.F → Option (ℕ × ℕ) → fl.F
  new_max cur_min cur_max range none = cur_max
  new_max cur_min cur_max range (some (i, cum)) = edge cur_min range (256 - i)

  -- The loop, with the rounds left, of at most four.
  unfoldable pub rounds : ℕ → List fl.F → Round fl.F → Round fl.F
  rounds zero values r = r
  rounds (suc left) values r =
      let range = fl.minus r.cur_max r.cur_min in
      let hist = histogram r.cur_min r.cur_max (fl.over bins range) values (replicate 256 0) in
      let from_left = walk r.left_budget hist 0 0 0 in
      let from_right = walk r.right_budget (reverse hist) 0 0 0 in
      let low = new_min r.cur_min range from_left in
      let high = new_max r.cur_min r.cur_max range from_right in
      let next : Round fl.F = record {
        cur_min = low;
        cur_max = high;
        left_budget = left_over r.left_budget (trimmed_by from_left);
        right_budget = left_over r.right_budget (trimmed_by from_right);
      } in
      let later = rounds left values next in
      if le_f fl range (fl.of_int (pos 0))
      then r
      else if le_f fl low r.cur_min && le_f fl r.cur_max high
      then r
      else if le_f fl high low
      then r
      else if next.left_budget == 0 && next.right_budget == 0
      then next
      else later

  -- `size_t(double(n) * 0.05)` is a parameter. Without a valid value there is no range.
  unfoldable pub compute_robust_height_range : (ℕ → ℕ) → List fl.F → Option (fl.F × fl.F)
  compute_robust_height_range five_percent values =
      let (raw_min, raw_max, n) = raw_range values (fl.infinity, fl.minus_infinity, 0) in
      let budget = five_percent n in
      let last = rounds 4 values (record {
        cur_min = raw_min;
        cur_max = raw_max;
        left_budget = budget;
        right_budget = budget;
      }) in
      if n == 0
      then none
      else if ltb n 100 || le_f fl raw_max raw_min
      then some (raw_min, raw_max)
      else some (last.cur_min, last.cur_max)
