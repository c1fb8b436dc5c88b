-- ===== src/Prelude/Bits.antt =====
-- The bits of a mask: `has_bit m k` is bit k of m, and the native bit operations act on it bit by
-- bit. The masks of the program are `uint32_t` flag sets.
use Prim.Native.Nat.{
  ℕ, zero, suc, ◌+◌, ◌-◌, ◌*◌, ◌/◌, ◌%◌, ◌^◌, ◌≤◌, ◌<◌, min, max, bit_and, bit_or, digits,
  bit_and-bitwise, bit_or-bitwise,
}
use mathlib.Core.Path.{◌≡◌, refl}
use mathlib.Core.Bool.{Bool, true, false, not, ◌&&◌, ◌||◌}
use mathlib.Core.Logic.{inl, inr}
use native.Mathlib.Nat.{pow-suc}
use native.Mathlib.Omega.{arith}
use qml_and_bgfx_testbridge.Prelude.Tests.{◌==◌, Bool-cases}

unfoldable pub has_bit : ℕ → ℕ → Bool
has_bit m zero = m % 2 == 1
has_bit m (suc k) = has_bit (m / 2) k

-- How much fuel a digit recursion has does not matter, once it covers the left number.
module _ (left : ℕ → ℕ) (join : ℕ → ℕ → ℕ) where
  fuel_irrelevant : (n m a b : ℕ) → a ≤ n → a ≤ m → digits left join n a b ≡ digits left join m a b
  fuel_irrelevant zero zero a b p q = refl
  fuel_irrelevant zero (suc m) zero b p q = refl
  fuel_irrelevant zero (suc m) (suc a) b p q = absurd (omega arith)
  fuel_irrelevant (suc n) zero zero b p q = refl
  fuel_irrelevant (suc n) zero (suc a) b p q = absurd (omega arith)
  fuel_irrelevant (suc n) (suc m) zero b p q = refl
  fuel_irrelevant (suc n) (suc m) (suc a) b p q =
      omega (arith, fuel_irrelevant n m (suc a / 2) (b / 2) (omega arith) (omega arith))

and_step : (a b : ℕ) → bit_and a b ≡ bit_and (a / 2) (b / 2) * 2 + min (a % 2) (b % 2)
and_step zero b = omega (arith, bit_and-bitwise 0 b, bit_and-bitwise 0 (b / 2))
and_step (suc a) b = omega (
  arith,
  bit_and-bitwise (suc a) b,
  bit_and-bitwise (suc a / 2) (b / 2),
  fuel_irrelevant (λ b. zero) min a (suc a / 2) (suc a / 2) (b / 2) (omega arith) (omega arith),
)

or_step : (a b : ℕ) → bit_or a b ≡ bit_or (a / 2) (b / 2) * 2 + max (a % 2) (b % 2)
or_step zero b = omega (arith, bit_or-bitwise 0 b, bit_or-bitwise 0 (b / 2))
or_step (suc a) b = omega (
  arith,
  bit_or-bitwise (suc a) b,
  bit_or-bitwise (suc a / 2) (b / 2),
  fuel_irrelevant (λ b. b) max a (suc a / 2) (suc a / 2) (b / 2) (omega arith) (omega arith),
)

pub has_bit-bit_and : (a b k : ℕ) → has_bit (bit_and a b) k ≡ (has_bit a k && has_bit b k)
unfolding has_bit
has_bit-bit_and a b zero = ground (arith, and_step a b)
has_bit-bit_and a b (suc k) =
    let half : bit_and a b / 2 ≡ bit_and (a / 2) (b / 2) = omega (arith, and_step a b) in
    rw half (has_bit-bit_and (a / 2) (b / 2) k)

pub has_bit-bit_or : (a b k : ℕ) → has_bit (bit_or a b) k ≡ (has_bit a k || has_bit b k)
unfolding has_bit
has_bit-bit_or a b zero = ground (arith, or_step a b)
has_bit-bit_or a b (suc k) =
    let half : bit_or a b / 2 ≡ bit_or (a / 2) (b / 2) = omega (arith, or_step a b) in
    rw half (has_bit-bit_or (a / 2) (b / 2) k)

-- `~m` of a w-bit word.
abbrev pub bit_not : ℕ → ℕ → ℕ
bit_not w m = 2 ^ w - 1 - m

pub has_bit-bit_not : (w k m : ℕ) → k < w → m < 2 ^ w → has_bit (bit_not w m) k ≡ not (has_bit m k)
unfolding has_bit
has_bit-bit_not zero k m h fits = elim h [ ]
has_bit-bit_not (suc w) zero m h fits = ground (arith, pow-suc 2 w)
has_bit-bit_not (suc w) (suc k) m h fits =
    let twice = pow-suc 2 w in
    let half : bit_not (suc w) m / 2 ≡ bit_not w (m / 2) = omega (arith, twice) in
    rw half (has_bit-bit_not w k (m / 2) (omega arith) (omega (arith, twice)))

pub bit_or-lt : (w a b : ℕ) → a < 2 ^ w → b < 2 ^ w → bit_or a b < 2 ^ w
bit_or-lt zero a b p q = ground (arith, bit_or-bitwise a b)
bit_or-lt (suc w) a b p q = omega (
  arith,
  pow-suc 2 w,
  or_step a b,
  bit_or-lt w (a / 2) (b / 2) (omega (arith, pow-suc 2 w)) (omega (arith, pow-suc 2 w)),
)

pub has_bit-zero : (k : ℕ) → has_bit 0 k ≡ false
unfolding has_bit
has_bit-zero zero = refl
has_bit-zero (suc k) = has_bit-zero k

-- A w-bit word that is not 0 has a bit below w.
pub has_bit_of_pos : (w m : ℕ) → m < 2 ^ w → 0 < m → (k : ℕ) × (k < w) × (has_bit m k ≡ true)
unfolding has_bit
has_bit_of_pos zero m fits h = absurd (omega arith)
has_bit_of_pos (suc w) m fits h = elim (Bool-cases (m % 2 == 1)) [
  | inl odd ↦ (0, omega arith, odd)
  | inr even ↦
      let (k, small, bit) = has_bit_of_pos w (m / 2) (omega (arith, pow-suc 2 w)) (ground arith) in
      (suc k, omega arith, bit)
]

pub bit_and-lt : (w a b : ℕ) → a < 2 ^ w → bit_and a b < 2 ^ w
bit_and-lt zero a b p = ground (arith, bit_and-bitwise a b)
bit_and-lt (suc w) a b p =
    omega
      (arith, pow-suc 2 w, and_step a b, bit_and-lt w (a / 2) (b / 2) (omega (arith, pow-suc 2 w)))
