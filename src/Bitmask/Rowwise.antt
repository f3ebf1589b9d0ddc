-- ===== src/Bitmask/Rowwise.antt =====
-- What each mask operation does to the bit of one row.
use Prim.Native.Nat.{bit_and, bit_or}
use native.Mathlib.Nat.{pow-suc, one-le-pow}
use blazerules.Prelude.{
  ℕ, zero, suc, ◌+◌, ◌-◌, ◌*◌, ◌/◌, ◌%◌, ◌^◌, ◌≤◌, ◌<◌, ◌≡◌, ◌≢◌, refl, sym, ap, ◌∙◌, inl, inr, [],
  ◌∷◌, ◌||◌, ◌&&◌, not, true, false, ltb, ◌==◌, arith, bit, bit-bit_or, bit-bit_and, bit-complement,
  bit-zero, length, Bool-cases, get_or, set, get_or-set_self, get_or-set_ne, replicate,
  length-replicate,
}
use blazerules.Bitmask.{
  Mask, IsBytes, or_into, and_into, bit_is_set, set_bit, mask_tail, fill_true, complement_bytes,
  bitwise_not, bitmask_bytes,
}
use blazerules.Bitmask.Pointwise.{or_bytes, or_into-or_bytes}

get_or_out : (m : Mask) (k : ℕ) → length m ≤ k → get_or m k 0 ≡ 0
get_or_out [] k h = refl
get_or_out (x ∷ m) zero h = absurd (omega arith)
get_or_out (x ∷ m) (suc k) h = get_or_out m k (omega arith)

pub get_or-lt : (m : Mask) (k : ℕ) → IsBytes m → get_or m k 0 < 256
get_or-lt [] k h = omega arith
get_or-lt (x ∷ m) zero h = h.0
get_or-lt (x ∷ m) (suc k) h = get_or-lt m k h.1

pub set-IsBytes : (m : Mask) (k v : ℕ) → IsBytes m → v < 256 → IsBytes (set m k v)
set-IsBytes [] k v h hv = tt
set-IsBytes (x ∷ m) zero v h hv = (hv, h.1)
set-IsBytes (x ∷ m) (suc k) v h hv = (h.0, set-IsBytes m k v h.1 hv)

pub bit_is_set_out : (m : Mask) (i : ℕ) → length m * 8 ≤ i → bit_is_set m i ≡ false
unfolding bit_is_set
bit_is_set_out m i h = rw (get_or_out m (i / 8) (omega arith)) (bit-zero (i % 8))

pub get_or-or_bytes :
    (a b : Mask) (k : ℕ)
    → length a ≡ length b
    → get_or (or_bytes a b) k 0 ≡ bit_or (get_or a k 0) (get_or b k 0)
unfolding or_bytes
get_or-or_bytes [] [] k h = refl
get_or-or_bytes [] (y ∷ b) k h = absurd (omega arith)
get_or-or_bytes (x ∷ a) [] k h = absurd (omega arith)
get_or-or_bytes (x ∷ a) (y ∷ b) zero h = refl
get_or-or_bytes (x ∷ a) (y ∷ b) (suc k) h = get_or-or_bytes a b k (omega arith)

get_or-and_into :
    (a b : Mask) (k : ℕ)
    → length a ≡ length b
    → get_or (and_into a b) k 0 ≡ bit_and (get_or a k 0) (get_or b k 0)
unfolding and_into
get_or-and_into [] [] k h = refl
get_or-and_into [] (y ∷ b) k h = absurd (omega arith)
get_or-and_into (x ∷ a) [] k h = absurd (omega arith)
get_or-and_into (x ∷ a) (y ∷ b) zero h = refl
get_or-and_into (x ∷ a) (y ∷ b) (suc k) h = get_or-and_into a b k (omega arith)

-- On two byte buffers of one length, the bit of a row after `or_into` is the disjunction of the
-- two bits.
pub bit_is_set-or_into :
    (dst src : Mask) (i : ℕ)
    → IsBytes dst
    → IsBytes src
    → length dst ≡ length src
    → bit_is_set (or_into dst src) i ≡ (bit_is_set dst i || bit_is_set src i)
unfolding bit_is_set
bit_is_set-or_into dst src i hd hs h =
    rw (or_into-or_bytes dst src hd hs, get_or-or_bytes dst src (i / 8) h)
      (bit-bit_or (i % 8) (get_or dst (i / 8) 0) (get_or src (i / 8) 0))

pub bit_is_set-and_into :
    (dst src : Mask) (i : ℕ)
    → length dst ≡ length src
    → bit_is_set (and_into dst src) i ≡ (bit_is_set dst i && bit_is_set src i)
unfolding bit_is_set
bit_is_set-and_into dst src i h =
    rw (get_or-and_into dst src (i / 8) h)
      (bit-bit_and (i % 8) (get_or dst (i / 8) 0) (get_or src (i / 8) 0))

-- `(1 << t) - 1` has its low `t` bits set.
bit_ones : (t j : ℕ) → bit (2 ^ t - 1) j ≡ ltb j t
bit_ones zero j = rw (bit-zero j) (ground arith)
bit_ones (suc t) zero = ground (arith, pow-suc 2 t, one-le-pow t 2)
bit_ones (suc t) (suc j) =
    let e : (2 ^ suc t - 1) / 2 ≡ 2 ^ t - 1 = omega (arith, pow-suc 2 t, one-le-pow t 2) in
    rw e (bit_ones t j ∙ ground arith)

-- `out[nbytes - 1] &= (1u << t) - 1u`, row by row.
abbrev cut : Mask → ℕ → Mask
cut m t = set m (length m - 1) (bit_and (get_or m (length m - 1) 0) (2 ^ t - 1))

cut_last :
    (m : Mask) (t i : ℕ)
    → 0 < length m
    → i / 8 ≡ length m - 1
    → bit_is_set (cut m t) i ≡ (bit_is_set m i && ltb (i % 8) t)
unfolding bit_is_set
cut_last m t i h e = rw (
  e,
  get_or-set_self m (length m - 1) (bit_and (get_or m (length m - 1) 0) (2 ^ t - 1)) 0
      (omega arith),
  bit-bit_and (i % 8) (get_or m (length m - 1) 0) (2 ^ t - 1),
  bit_ones t (i % 8),
)

cut_other : (m : Mask) (t i : ℕ) → i / 8 ≢ length m - 1 → bit_is_set (cut m t) i ≡ bit_is_set m i
unfolding bit_is_set
cut_other m t i ne = rw (
    get_or-set_ne m (length m - 1) (i / 8) (bit_and (get_or m (length m - 1) 0) (2 ^ t - 1)) 0
      (λ e. ne (sym e)))

cut_rows :
    (m : Mask) (n i : ℕ)
    → 0 < n % 8
    → length m ≡ (n + 7) / 8
    → bit_is_set (cut m (n % 8)) i ≡ (bit_is_set m i && ltb i n)
cut_rows m n i h e = elim (Bool-cases (i / 8 == length m - 1)) [
  | inl t ↦
      let last : i / 8 ≡ length m - 1 = ground arith in
      cut_last m (n % 8) i (omega arith) last ∙ ground arith
  | inr f ↦ cut_other m (n % 8) i (ground arith) ∙ elim (Bool-cases (ltb i n)) [
    | inl t ↦ rw t (ground arith)
    | inr f' ↦ rw (f', bit_is_set_out m i (ground arith)) (ground arith)
  ]
]

-- The last byte of `n` rows is cut to the rows that exist.
pub bit_is_set-mask_tail :
    (m : Mask) (n i : ℕ)
    → length m ≡ bitmask_bytes n
    → bit_is_set (mask_tail m n) i ≡ (bit_is_set m i && ltb i n)
unfolding mask_tail bitmask_bytes
bit_is_set-mask_tail m n i h =
    let hl : length m ≡ (n + 7) / 8 = h in
    elim (Bool-cases (ltb 0 (n % 8))) [
      | inl t ↦
          let pos : ltb 0 (length m) ≡ true = ground arith in
          rw (t, pos) (cut_rows m n i (ground arith) hl)
      | inr f ↦ rw f (elim (Bool-cases (ltb i n)) [
        | inl t ↦ rw t (ground arith)
        | inr f' ↦ rw (f', bit_is_set_out m i (ground arith))
      ])
    ]

pub complement_length : (m : Mask) → length (complement_bytes m) ≡ length m
unfolding complement_bytes
complement_length [] = refl
complement_length (x ∷ m) = ap suc (complement_length m)

get_or-complement_bytes :
    (m : Mask) (k : ℕ) → k < length m → get_or (complement_bytes m) k 0 ≡ 255 - get_or m k 0
unfolding complement_bytes
get_or-complement_bytes [] k h = absurd (omega arith)
get_or-complement_bytes (x ∷ m) zero h = refl
get_or-complement_bytes (x ∷ m) (suc k) h = get_or-complement_bytes m k (omega arith)

complement_in :
    (m : Mask) (i : ℕ)
    → IsBytes m
    → i / 8 < length m
    → bit_is_set (complement_bytes m) i ≡ not (bit_is_set m i)
unfolding bit_is_set
complement_in m i hb h =
    rw (get_or-complement_bytes m (i / 8) h)
      (bit-complement 8 (i % 8) (get_or m (i / 8) 0) (get_or-lt m (i / 8) hb) (omega arith))

-- On a mask of `n` rows whose elements are bytes, `bitwise_not` gives a row below `n` the negated
-- bit and sets no other bit.
pub bit_is_set-bitwise_not :
    (m : Mask) (n i : ℕ)
    → IsBytes m
    → length m ≡ bitmask_bytes n
    → bit_is_set (bitwise_not m n) i ≡ (not (bit_is_set m i) && ltb i n)
unfolding bitwise_not
bit_is_set-bitwise_not m n i hb h =
    bit_is_set-mask_tail (complement_bytes m) n i (complement_length m ∙ h)
    ∙ elim (Bool-cases (ltb i n)) [
      | inl t ↦ rw (t, complement_in m i hb (unfold bitmask_bytes in ground (arith, h)))
      | inr f ↦ rw f (ground arith)
    ]

get_or-replicate : (k n x : ℕ) → k < n → get_or (replicate n x) k 0 ≡ x
get_or-replicate k zero x h = absurd (omega arith)
get_or-replicate zero (suc n) x h = refl
get_or-replicate (suc k) (suc n) x h = get_or-replicate k n x (omega arith)

ones_in : (n i : ℕ) → i < n * 8 → bit_is_set (replicate n 255) i ≡ true
unfolding bit_is_set
ones_in n i h = rw (get_or-replicate (i / 8) n 255 (omega arith), bit_ones 8 (i % 8)) (ground arith)

-- `fill_true` sets the rows below `n` and no other.
pub bit_is_set-fill_true : (n i : ℕ) → bit_is_set (fill_true n) i ≡ ltb i n
unfolding fill_true
bit_is_set-fill_true n i =
    bit_is_set-mask_tail (replicate (bitmask_bytes n) 255) n i
      (length-replicate (bitmask_bytes n) 255)
    ∙ elim (Bool-cases (ltb i n)) [
      | inl t ↦ rw (t, ones_in (bitmask_bytes n) i (unfold bitmask_bytes in ground arith))
      | inr f ↦ rw f (ground arith)
    ]

pub bit_power : (k j : ℕ) → bit (2 ^ k) j ≡ (j == k)
bit_power zero zero = refl
bit_power zero (suc j) = rw (bit-zero j) (ground arith)
bit_power (suc k) zero = ground (arith, pow-suc 2 k)
bit_power (suc k) (suc j) =
    let e : 2 ^ suc k / 2 ≡ 2 ^ k = omega (arith, pow-suc 2 k) in
    rw e (bit_power k j ∙ ground arith)

-- `set_bit` on a row inside the buffer sets the bit of that row and keeps the others.
pub bit_is_set-set_bit :
    (m : Mask) (k i : ℕ)
    → k / 8 < length m
    → bit_is_set (set_bit m k) i ≡ (i == k || bit_is_set m i)
unfolding bit_is_set set_bit
bit_is_set-set_bit m k i h = elim (Bool-cases (i / 8 == k / 8)) [
  | inl t ↦
      let e : i / 8 ≡ k / 8 = ground arith in
      rw
        (
          e,
          get_or-set_self m (k / 8) (bit_or (get_or m (k / 8) 0) (2 ^ (k % 8))) 0 h,
          bit-bit_or (i % 8) (get_or m (k / 8) 0) (2 ^ (k % 8)),
          bit_power (k % 8) (i % 8),
        )
        (let same : (i % 8 == k % 8) ≡ (i == k) = ground arith in rw same (ground arith))
  | inr f ↦
      rw
        (get_or-set_ne m (k / 8) (i / 8) (bit_or (get_or m (k / 8) 0) (2 ^ (k % 8))) 0
          (ground arith))
        (let ne : (i == k) ≡ false = ground arith in rw ne)
]

get_or-zeros : (n k : ℕ) → get_or {A = ℕ} (replicate n 0) k 0 ≡ 0
get_or-zeros zero k = refl
get_or-zeros (suc n) zero = refl
get_or-zeros (suc n) (suc k) = get_or-zeros n k

pub bit_is_set-zeros : (n i : ℕ) → bit_is_set (replicate n 0) i ≡ false
unfolding bit_is_set
bit_is_set-zeros n i = rw (get_or-zeros n (i / 8)) (bit-zero (i % 8))
