-- ===== src/Compute.antt =====
-- src/engine/terrain/terrain_cpu_compute.h and .cpp: the decoding and the range of heights, the slopes, and the maxima
-- over rectangles, which the CPU computes where the GPU cannot. The numbers of `float` are a parameter. A read of an
-- array gives none out of its bounds, so that a result says that every read was good.
pub mod Decode
pub mod Gaps
pub mod Slopes
pub mod Maxima
mod Examples
use qml_and_bgfx_testbridge.Prelude.{
  ℕ, Bool, true, false, not, ◌&&◌, ◌||◌, Option, none, some, List, [], ◌∷◌, if◌then◌else◌,
}
use qml_and_bgfx_testbridge.Prelude.Int.{ℤ}

pub record Floats : Type 1 where
  pub F : Type 0
  pub of_int : ℤ → F
  pub of_bits : ℕ → F  -- memcpy of an uint32_t
  pub infinity : F
  pub minus_infinity : F
  pub nan : F
  pub less : F → F → Bool
  pub equal : F → F → Bool
  pub is_finite : F → Bool
  pub fabs : F → F
  pub plus : F → F → F
  pub minus : F → F → F
  pub times : F → F → F
  pub over : F → F → F
  pub negative : F → F
  pub floor : F → F
  pub half : F
  pub large : F  -- 1.0e20f
  pub tiny : F  -- 1e-8f
  pub to_int : F → ℤ

module _ (fl : Floats) where
  -- `std::min` and `std::max`.
  abbrev pub min_f : fl.F → fl.F → fl.F
  min_f a b = if fl.less b a then b else a

  abbrev pub max_f : fl.F → fl.F → fl.F
  max_f a b = if fl.less a b then b else a

  abbrev pub le_f : fl.F → fl.F → Bool
  le_f a b = fl.less a b || fl.equal a b

  unfoldable pub is_valid_float : fl.F → Bool
  is_valid_float v = fl.is_finite v && fl.less (fl.fabs v) fl.large

-- A loop that reads: without a value a read was out of bounds.
infixl 5 ◌>>=◌
abbrev pub ◌>>=◌ : {A B : Type 0} → Option A → (A → Option B) → Option B
none >>= f = none
some a >>= f = f a
