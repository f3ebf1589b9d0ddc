-- ===== src/Prelude/Ints.antt =====
-- The integers over the native numbers, with the tests that the code makes of an `int32_t`.
use Prim.Native.Nat.{ℕ}
use mathlib.Core.Path.{◌≡◌, refl}
use mathlib.Core.Bool.{Bool, true, false}
use native.Mathlib.Omega.{arith}
use blazerules.Prelude.Tests.{ltb, ◌==◌}

pub data ℤ : Type 0 where
  pos negsuc : ℕ → ℤ

-- `a > b`.
abbrev pub gtb : ℤ → ℤ → Bool
gtb (pos a) (pos b) = ltb b a
gtb (pos a) (negsuc b) = true
gtb (negsuc a) (pos b) = false
gtb (negsuc a) (negsuc b) = ltb a b

abbrev pub eqb : ℤ → ℤ → Bool
eqb (pos a) (pos b) = a == b
eqb (negsuc a) (negsuc b) = a == b
eqb _ _ = false

pub gtb_irrefl : (a : ℤ) → gtb a a ≡ false
gtb_irrefl (pos a) = ground arith
gtb_irrefl (negsuc a) = ground arith

pub eqb_refl : (a : ℤ) → eqb a a ≡ true
eqb_refl (pos a) = ground arith
eqb_refl (negsuc a) = ground arith

pub eqb→≡ : (a b : ℤ) → eqb a b ≡ true → a ≡ b
eqb→≡ (pos a) (pos b) h = ground arith
eqb→≡ (pos a) (negsuc b) h = ground arith
eqb→≡ (negsuc a) (pos b) h = ground arith
eqb→≡ (negsuc a) (negsuc b) h = ground arith

pub gtb_total : (a b : ℤ) → gtb a b ≡ false → gtb b a ≡ false → eqb a b ≡ true
gtb_total (pos a) (pos b) h k = ground arith
gtb_total (pos a) (negsuc b) h k = ground arith
gtb_total (negsuc a) (pos b) h k = ground arith
gtb_total (negsuc a) (negsuc b) h k = ground arith

pub gtb_trans : (a b c : ℤ) → gtb a b ≡ true → gtb b c ≡ true → gtb a c ≡ true
gtb_trans (pos a) (pos b) (pos c) h k = ground arith
gtb_trans (pos a) (pos b) (negsuc c) h k = refl
gtb_trans (pos a) (negsuc b) (pos c) h k = ground arith
gtb_trans (pos a) (negsuc b) (negsuc c) h k = refl
gtb_trans (negsuc a) (pos b) (pos c) h k = ground arith
gtb_trans (negsuc a) (pos b) (negsuc c) h k = ground arith
gtb_trans (negsuc a) (negsuc b) (pos c) h k = ground arith
gtb_trans (negsuc a) (negsuc b) (negsuc c) h k = ground arith

pub gtb_asym : (a b : ℤ) → gtb a b ≡ true → gtb b a ≡ false
gtb_asym (pos a) (pos b) h = ground arith
gtb_asym (pos a) (negsuc b) h = refl
gtb_asym (negsuc a) (pos b) h = ground arith
gtb_asym (negsuc a) (negsuc b) h = ground arith
