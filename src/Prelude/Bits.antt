-- ===== src/Prelude/Bits.antt =====
-- Single bits of a number, and `&` and `|` bit by bit.
use Prim.Native.Nat.{min, max, digits, bitwise, bit_and, bit_or, bit_and-bitwise, bit_or-bitwise}
use Prim.Native.Nat.{ℕ, zero, suc, ◌+◌, ◌-◌, ◌*◌, ◌/◌, ◌%◌, ◌≤◌, ◌<◌, ◌^◌}
use mathlib.Core.Path.{◌≡◌, refl, sym, ◌∙◌}
use mathlib.Core.Logic.{inl, inr}
use mathlib.Core.Bool.{Bool, false, ◌&&◌, ◌||◌, not}
use native.Mathlib.Nat.{pow-suc}
use native.Mathlib.Omega.{arith}
use blazerules.Prelude.Tests.{◌==◌, Bool-cases}

-- `(x >> i) & 1`, by halving.
abbrev pub bit : ℕ → ℕ → Bool
bit x zero = x % 2 == 1
bit x (suc i) = bit (x / 2) i

-- What remains of the recursion on digits once the first number is used up.
module _ (rest : ℕ → ℕ) (digit : ℕ → ℕ → ℕ) where
  digits-zero : (fuel y : ℕ) → digits rest digit fuel 0 y ≡ rest y
  digits-zero zero y = refl
  digits-zero (suc fuel) y = refl

  -- Fuel beyond the number itself changes nothing.
  spare_fuel :
      (spare fuel x y : ℕ)
      → x ≤ fuel
      → digits rest digit (fuel + spare) x y ≡ digits rest digit fuel x y
  spare_fuel spare fuel zero y h = digits-zero (fuel + spare) y ∙ sym (digits-zero fuel y)
  spare_fuel spare zero (suc x) y h = absurd (omega arith)
  spare_fuel spare (suc fuel) (suc x) y h =
      let shift : suc fuel + spare ≡ suc (fuel + spare) = omega arith in
      rw (shift, spare_fuel spare fuel (suc x / 2) (y / 2) (omega arith)) refl

  lowest_digit :
      (x y : ℕ)
      → 0 < x
      → bitwise rest digit x y ≡ digit (x % 2) (y % 2) + 2 * bitwise rest digit (x / 2) (y / 2)
  lowest_digit zero y h = absurd (omega arith)
  lowest_digit (suc x) y h =
      let half = suc x / 2 in
      let all_fuel : half + (x - half) ≡ x = omega arith in
      omega (arith, rw all_fuel at (spare_fuel (x - half) half half (y / 2) (omega arith)))

-- The two operations, by their lowest digit and the halves.
pub bit_or_step : (x y : ℕ) → bit_or x y ≡ max (x % 2) (y % 2) + 2 * bit_or (x / 2) (y / 2)
bit_or_step x y = elim (Bool-cases (x == 0)) [
  | inl none_left ↦
      let e : x ≡ 0 = ground arith in
      rw e (omega (arith, bit_or-bitwise 0 y, bit_or-bitwise 0 (y / 2)))
  | inr some_left ↦ omega (
    arith,
    lowest_digit (λ y. y) max x y (ground arith),
    bit_or-bitwise x y,
    bit_or-bitwise (x / 2) (y / 2),
  )
]

pub bit_and_step : (x y : ℕ) → bit_and x y ≡ min (x % 2) (y % 2) + 2 * bit_and (x / 2) (y / 2)
bit_and_step x y = elim (Bool-cases (x == 0)) [
  | inl none_left ↦
      let e : x ≡ 0 = ground arith in
      rw e (omega (arith, bit_and-bitwise 0 y, bit_and-bitwise 0 (y / 2)))
  | inr some_left ↦ omega (
    arith,
    lowest_digit (λ y. 0) min x y (ground arith),
    bit_and-bitwise x y,
    bit_and-bitwise (x / 2) (y / 2),
  )
]

bit_or_half : (a b : ℕ) → bit_or a b / 2 ≡ bit_or (a / 2) (b / 2)
bit_or_half a b = omega (arith, bit_or_step a b)

bit_and_half : (a b : ℕ) → bit_and a b / 2 ≡ bit_and (a / 2) (b / 2)
bit_and_half a b = omega (arith, bit_and_step a b)

pub bit-bit_or : (i a b : ℕ) → bit (bit_or a b) i ≡ (bit a i || bit b i)
bit-bit_or zero a b = ground (arith, bit_or_step a b)
bit-bit_or (suc i) a b = rw (bit_or_half a b) (bit-bit_or i (a / 2) (b / 2))

pub bit-bit_and : (i a b : ℕ) → bit (bit_and a b) i ≡ (bit a i && bit b i)
bit-bit_and zero a b = ground (arith, bit_and_step a b)
bit-bit_and (suc i) a b = rw (bit_and_half a b) (bit-bit_and i (a / 2) (b / 2))

pub bit-zero : (i : ℕ) → bit 0 i ≡ false
bit-zero zero = refl
bit-zero (suc i) = bit-zero i

-- The complement of a number of `k` bits.
abbrev complement : ℕ → ℕ → ℕ
complement k x = 2 ^ k - 1 - x

complement_half : (k x : ℕ) → x < 2 ^ suc k → complement (suc k) x / 2 ≡ complement k (x / 2)
complement_half k x h = omega (arith, pow-suc 2 k)

pub bit-complement : (k i x : ℕ) → x < 2 ^ k → i < k → bit (2 ^ k - 1 - x) i ≡ not (bit x i)
bit-complement zero i x h l = elim l [ ]
bit-complement (suc k) zero x h l = ground (arith, pow-suc 2 k)
bit-complement (suc k) (suc i) x h l =
    rw (complement_half k x h)
      (bit-complement k i (x / 2) (omega (arith, pow-suc 2 k)) (omega arith))

-- A number of `k` bits stays one under `|`.
pub bit_or-lt : (k a b : ℕ) → a < 2 ^ k → b < 2 ^ k → bit_or a b < 2 ^ k
bit_or-lt zero a b p q =
    let e : a ≡ 0 = omega arith in let f : b ≡ 0 = omega arith in rw (e, f) (omega arith)
bit_or-lt (suc k) a b p q = omega (
  arith,
  pow-suc 2 k,
  bit_or_step a b,
  bit_or-lt k (a / 2) (b / 2) (omega (arith, pow-suc 2 k)) (omega (arith, pow-suc 2 k)),
)

pub bit_and-lt : (k a b : ℕ) → a < 2 ^ k → bit_and a b < 2 ^ k
bit_and-lt zero a b p =
    let e : a ≡ 0 = omega arith in rw e (omega (arith, bit_and_step 0 b, bit_and-bitwise 0 b))
bit_and-lt (suc k) a b p = omega (
  arith,
  pow-suc 2 k,
  bit_and_step a b,
  bit_and-lt k (a / 2) (b / 2) (omega (arith, pow-suc 2 k)),
)
