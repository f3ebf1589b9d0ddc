-- ===== src/Bitmask/Bytes.antt =====
-- The mask operations keep the length of a mask and its elements bytes.
use Prim.Native.Nat.{bit_and}
use native.Mathlib.Nat.{pow-le-pow_right}
use blazerules.Prelude.{
  ℕ, zero, suc, ◌-◌, ◌/◌, ◌%◌, ◌^◌, ◌<◌, ◌≡◌, refl, ap, ◌∙◌, [], ◌∷◌, ltb, arith, bit_or-lt,
  bit_and-lt, length, get_or, length-set, Bool-cases, inl, inr, ◌&&◌, replicate,
}
use blazerules.Bitmask.{
  Mask, IsBytes, or_into, and_into, set_bit, mask_tail, complement_bytes, bitwise_not,
}
use blazerules.Bitmask.Pointwise.{or_bytes, or_into-or_bytes}
use blazerules.Bitmask.Rowwise.{get_or-lt, set-IsBytes, complement_length}

length-or_bytes : (a b : Mask) → length (or_bytes a b) ≡ length a
unfolding or_bytes
length-or_bytes (x ∷ a) (y ∷ b) = ap suc (length-or_bytes a b)
length-or_bytes _ _ = refl

or_bytes-IsBytes : (a b : Mask) → IsBytes a → IsBytes b → IsBytes (or_bytes a b)
unfolding or_bytes
or_bytes-IsBytes (x ∷ a) (y ∷ b) h h' = (bit_or-lt 8 x y h.0 h'.0, or_bytes-IsBytes a b h.1 h'.1)
or_bytes-IsBytes _ _ h h' = h

pub length-or_into : (a b : Mask) → IsBytes a → IsBytes b → length (or_into a b) ≡ length a
length-or_into a b h h' = rw (or_into-or_bytes a b h h') (length-or_bytes a b)

pub or_into-IsBytes : (a b : Mask) → IsBytes a → IsBytes b → IsBytes (or_into a b)
or_into-IsBytes a b h h' = rw (or_into-or_bytes a b h h') (or_bytes-IsBytes a b h h')

pub length-and_into : (a b : Mask) → length (and_into a b) ≡ length a
unfolding and_into
length-and_into (x ∷ a) (y ∷ b) = ap suc (length-and_into a b)
length-and_into _ _ = refl

pub and_into-IsBytes : (a b : Mask) → IsBytes a → IsBytes (and_into a b)
unfolding and_into
and_into-IsBytes (x ∷ a) (y ∷ b) h = (bit_and-lt 8 x y h.0, and_into-IsBytes a b h.1)
and_into-IsBytes [] _ h = h
and_into-IsBytes (x ∷ a) [] h = h

pub length-set_bit : (m : Mask) (i : ℕ) → length (set_bit m i) ≡ length m
unfolding set_bit
length-set_bit m i = length-set m (i / 8) _

pub set_bit-IsBytes : (m : Mask) (i : ℕ) → IsBytes m → IsBytes (set_bit m i)
unfolding set_bit
set_bit-IsBytes m i h = set-IsBytes m (i / 8) _ h (
    bit_or-lt 8 (get_or m (i / 8) 0) (2 ^ (i % 8)) (get_or-lt m (i / 8) h)
      (omega (arith, pow-le-pow_right {n = 2} (omega arith) {i = i % 8} {j = 7} (omega arith))))

pub length-mask_tail : (m : Mask) (n : ℕ) → length (mask_tail m n) ≡ length m
unfolding mask_tail
length-mask_tail m n =
    ground
      (arith, length-set m (length m - 1) (bit_and (get_or m (length m - 1) 0) (2 ^ (n % 8) - 1)))

pub mask_tail-IsBytes : (m : Mask) (n : ℕ) → IsBytes m → IsBytes (mask_tail m n)
unfolding mask_tail
mask_tail-IsBytes m n h = elim (Bool-cases (ltb 0 (n % 8) && ltb 0 (length m))) [
  | inl t ↦ rw t (
      set-IsBytes m (length m - 1) _ h
        (bit_and-lt 8 (get_or m (length m - 1) 0) (2 ^ (n % 8) - 1) (get_or-lt m (length m - 1) h)))
  | inr f ↦ rw f h
]

complement-IsBytes : (m : Mask) → IsBytes (complement_bytes m)
unfolding complement_bytes
complement-IsBytes [] = tt
complement-IsBytes (x ∷ m) = (omega arith, complement-IsBytes m)

pub length-bitwise_not : (m : Mask) (n : ℕ) → length (bitwise_not m n) ≡ length m
unfolding bitwise_not
length-bitwise_not m n = length-mask_tail (complement_bytes m) n ∙ complement_length m

pub bitwise_not-IsBytes : (m : Mask) (n : ℕ) → IsBytes (bitwise_not m n)
unfolding bitwise_not
bitwise_not-IsBytes m n = mask_tail-IsBytes (complement_bytes m) n (complement-IsBytes m)

pub replicate-IsBytes : (n x : ℕ) → x < 256 → IsBytes (replicate n x)
replicate-IsBytes zero x h = tt
replicate-IsBytes (suc n) x h = (h, replicate-IsBytes n x h)
