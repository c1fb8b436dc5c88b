-- ===== src/Compute/Gaps/Walks.antt =====
-- terrain_cpu_compute.cpp, the walks of `computeRobustHeightRange` over the histogram.
use qml_and_bgfx_testbridge.Prelude.{
  ℕ, suc, ◌+◌, ◌≤◌, ◌<◌, ◌≡◌, refl, ◌&&◌, List, [], ◌∷◌, Option, none, some, ltb, leb, length,
  Bool-cases, inl, inr, if◌then◌else◌, arith,
}
use qml_and_bgfx_testbridge.Compute.Gaps.{walk, left_over, trimmed_by}

-- Of the bins behind, the nearest first: their sum, and how many of them are empty before the first that is not.
abbrev pub sum : List ℕ → ℕ
sum [] = 0
sum (n ∷ ns) = n + sum ns

abbrev pub empty_behind : List ℕ → ℕ
empty_behind [] = 0
empty_behind (n ∷ ns) = if ltb 0 n then 0 else suc (empty_behind ns)

-- Before a bin with n values there is a gap, and behind the gap some values, but no more than the budget.
abbrev pub Gap : ℕ → List ℕ → ℕ → Type 0
Gap budget behind n =
    (0 < n) × (13 ≤ empty_behind behind) × (0 < sum behind) × (sum behind ≤ budget)

-- The first gap of the bins ahead stands at an index and has a sum behind it.
pub data FirstGap (budget : ℕ) : List ℕ → List ℕ → ℕ → ℕ → Type 0 where
  here :
      {behind ahead : List ℕ} {n i cum : ℕ}
      → Gap budget behind n
      → i ≡ length behind
      → cum ≡ sum behind
      → FirstGap budget behind (n ∷ ahead) i cum
  further :
      {behind ahead : List ℕ} {n i cum : ℕ}
      → ¬ (Gap budget behind n)
      → FirstGap budget (n ∷ behind) ahead i cum
      → FirstGap budget behind (n ∷ ahead) i cum

abbrev pub NoGap : ℕ → List ℕ → List ℕ → Type 0
NoGap budget behind [] = Unit {0}
NoGap budget behind (n ∷ ahead) = ¬ (Gap budget behind n) × NoGap budget (n ∷ behind) ahead

abbrev pub Verdict : ℕ → List ℕ → List ℕ → Option (ℕ × ℕ) → Type 0
Verdict budget behind ahead none = NoGap budget behind ahead
Verdict budget behind ahead (some (i, cum)) = FirstGap budget behind ahead i cum × (cum ≤ budget)

Verdict-further :
    (budget n : ℕ) (behind ahead : List ℕ) (r : Option (ℕ × ℕ))
    → ¬ (Gap budget behind n)
    → Verdict budget (n ∷ behind) ahead r
    → Verdict budget behind (n ∷ ahead) r
Verdict-further budget n behind ahead none none_here v = (none_here, v)
Verdict-further budget n behind ahead (some (i, cum)) none_here (v, le) = (further none_here v, le)

-- The counters of the walk are those of the bins behind.
judged_from :
    (budget : ℕ) (behind ahead : List ℕ) (i run cum : ℕ)
    → i ≡ length behind
    → run ≡ empty_behind behind
    → cum ≡ sum behind
    → Verdict budget behind ahead (walk budget ahead i run cum)
unfolding walk
judged_from budget behind [] i run cum p q r = tt
judged_from budget behind (n ∷ ahead) i run cum p q r = elim (Bool-cases (ltb 0 n)) [
  | inl full ↦ elim (Bool-cases (leb 13 run && leb cum budget && ltb 0 cum)) [
    | inl gap ↦
        rw (full, gap)
          (here (ground arith, ground arith, ground arith, ground arith) p r, ground arith)
    | inr none_here ↦
        rw (full, none_here)
          (Verdict-further budget n behind ahead (walk budget ahead (suc i) 0 (cum + n))
            (λ g. ground arith)
            (judged_from budget (n ∷ behind) ahead (suc i) 0 (cum + n) (omega arith) (ground arith)
              (omega arith)))
  ]
  | inr empty ↦ rw empty (
      Verdict-further budget n behind ahead (walk budget ahead (suc i) (suc run) cum)
        (λ g. ground arith)
        (judged_from budget (n ∷ behind) ahead (suc i) (suc run) cum (omega arith) (ground arith)
          (ground arith)))
]

whole :
    (budget : ℕ) (hist : List ℕ) (r : Option (ℕ × ℕ))
    → Verdict budget [] hist r
    → Verdict budget [] hist r × (left_over budget (trimmed_by r) + trimmed_by r ≡ budget)
whole budget hist none v = (v, ground arith)
whole budget hist (some (i, cum)) (v, le) = ((v, le), ground arith)

-- A walk over a histogram cuts at the first bin that is not empty behind 13 empty ones, with values before
-- them that are within the budget, and cuts off just those, so that what is left and what is cut make the budget;
-- without such a bin it cuts nothing.
pub walk-Verdict :
    (budget : ℕ) (hist : List ℕ)
    → Verdict budget [] hist (walk budget hist 0 0 0)
      × (left_over budget (trimmed_by (walk budget hist 0 0 0))
            + trimmed_by (walk budget hist 0 0 0)
          ≡ budget)
walk-Verdict budget hist =
    whole budget hist (walk budget hist 0 0 0) (judged_from budget [] hist 0 0 0 refl refl refl)
