-- ===== src/Bitmask.antt =====
-- include/blazerules/bitmask.h, and the mask helpers of src/core/orchestrator.cpp and
-- src/core/kernels.cpp. A buffer of `n` bytes is a list of `n` numbers below 256, first byte first.
-- The portable paths are modelled; those under `#if defined(__aarch64__)` are not.
pub mod Drain
pub mod Find
pub mod Pointwise
pub mod Rowwise
pub mod Bytes
pub mod Count
pub mod Examples
use Prim.Native.Nat.{bit_and, bit_or}
use blazerules.Prelude.{
  ℕ, zero, suc, ◌+◌, ◌-◌, ◌*◌, ◌/◌, ◌%◌, ◌^◌, ◌<◌, Bool, List, [], ◌∷◌, ◌++◌, ◌==◌, ltb, ◌&&◌,
  if◌then◌else◌, get_or, set, replicate, length, bit, All,
}

abbrev pub Mask : Type 0
Mask = List ℕ

-- The elements of a mask are bytes.
abbrev pub IsBytes : Mask → Type 0
IsBytes = All λ b. b < 256

-- The set bits among the low `w`, counted.
unfoldable pub popcount : ℕ → ℕ → ℕ
popcount zero x = 0
popcount (suc w) x = x % 2 + popcount w (x / 2)

unfoldable pub popcount32 : ℕ → ℕ
popcount32 x = popcount 32 x

unfoldable pub popcount64 : ℕ → ℕ
popcount64 x = popcount 64 x

-- The zeros below the lowest set bit among the low `w`.
unfoldable pub ctz : ℕ → ℕ → ℕ
ctz zero x = 0
ctz (suc w) x = if x % 2 == 1 then 0 else suc (ctz w (x / 2))

unfoldable pub ctz32 : ℕ → ℕ
ctz32 x = ctz 32 x

unfoldable pub bitmask_bytes : ℕ → ℕ
bitmask_bytes n_records = (n_records + 7) / 8

-- What `memcpy` reads from four bytes and from eight, on a little-endian machine.
unfoldable pub word32 : ℕ → ℕ → ℕ → ℕ → ℕ
word32 a b c d = a + 256 * (b + 256 * (c + 256 * d))

unfoldable pub word64 : ℕ → ℕ → ℕ → ℕ → ℕ → ℕ → ℕ → ℕ → ℕ
word64 a b c d e f g h = word32 a b c d + 2 ^ 32 * word32 e f g h

-- The loop over words of eight bytes, and the one over the bytes that are left.
unfoldable pub count_set_bits : Mask → ℕ
count_set_bits (a ∷ b ∷ c ∷ d ∷ e ∷ f ∷ g ∷ h ∷ rest) =
    popcount64 (word64 a b c d e f g h) + count_set_bits rest
count_set_bits (a ∷ rest) = popcount32 a + count_set_bits rest
count_set_bits [] = 0

-- `while (word != 0)`: the index of the lowest set bit, then that bit is cleared. The fuel is the
-- width of the word.
unfoldable pub drain : ℕ → ℕ → ℕ → ℕ → List ℕ
drain zero n_records base word = []
drain (suc fuel) n_records base word =
    let rest = drain fuel n_records base (bit_and word (word - 1)) in
    let idx = base + ctz32 word in
    if word == 0 then [] else if ltb idx n_records then idx ∷ rest else rest

-- `find_set_bits` from byte `b` on.
unfoldable pub find_from : ℕ → ℕ → Mask → List ℕ
find_from n_records b (w ∷ x ∷ y ∷ z ∷ rest) =
    drain 32 n_records (b * 8) (word32 w x y z) ++ find_from n_records (b + 4) rest
find_from n_records b (w ∷ rest) = drain 8 n_records (b * 8) w ++ find_from n_records (b + 1) rest
find_from n_records b [] = []

unfoldable pub find_set_bits : Mask → ℕ → List ℕ
find_set_bits mask n_records = find_from n_records 0 mask

-- `collect_set_bits` of the orchestrator goes byte by byte.
unfoldable pub collect_from : ℕ → ℕ → Mask → List ℕ
collect_from n_records b [] = []
collect_from n_records b (w ∷ rest) =
    drain 8 n_records (b * 8) w ++ collect_from n_records (b + 1) rest

unfoldable pub collect_set_bits : Mask → ℕ → List ℕ
collect_set_bits mask n_records = collect_from n_records 0 mask

-- What `memcpy` writes back: `k` bytes of a word, lowest first.
unfoldable pub store : ℕ → ℕ → Mask → Mask
store zero word rest = rest
store (suc k) word rest = (word % 256) ∷ store k (word / 256) rest

-- The loop over words of eight bytes, and the one over the bytes that are left.
unfoldable pub or_into : Mask → Mask → Mask
or_into (a ∷ b ∷ c ∷ d ∷ e ∷ f ∷ g ∷ h ∷ dst) (i ∷ j ∷ k ∷ l ∷ m ∷ n ∷ o ∷ p ∷ src) =
    store 8 (bit_or (word64 a b c d e f g h) (word64 i j k l m n o p)) (or_into dst src)
or_into (a ∷ dst) (b ∷ src) = bit_or a b ∷ or_into dst src
or_into dst _ = dst

unfoldable pub and_into : Mask → Mask → Mask
and_into (a ∷ dst) (b ∷ src) = bit_and a b ∷ and_into dst src
and_into dst _ = dst

unfoldable pub bit_is_set : Mask → ℕ → Bool
bit_is_set mask idx = bit (get_or mask (idx / 8) 0) (idx % 8)

unfoldable pub set_bit : Mask → ℕ → Mask
set_bit mask idx = set mask (idx / 8) (bit_or (get_or mask (idx / 8) 0) (2 ^ (idx % 8)))

-- `out[nbytes - 1] &= (1u << tail) - 1u` where the last byte is not full.
unfoldable pub mask_tail : Mask → ℕ → Mask
mask_tail mask n_records =
    if ltb 0 (n_records % 8) && ltb 0 (length mask)
    then set mask (length mask - 1)
        (bit_and (get_or mask (length mask - 1) 0) (2 ^ (n_records % 8) - 1))
    else mask

unfoldable pub fill_true : ℕ → Mask
unfolding mask_tail bitmask_bytes
fill_true n_records = mask_tail (replicate (bitmask_bytes n_records) 255) n_records

unfoldable pub complement_bytes : Mask → Mask
complement_bytes [] = []
complement_bytes (b ∷ bs) = (255 - b) ∷ complement_bytes bs

unfoldable pub bitwise_not : Mask → ℕ → Mask
unfolding mask_tail complement_bytes
bitwise_not input n_records = mask_tail (complement_bytes input) n_records
