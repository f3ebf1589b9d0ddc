-- ===== src/Bitmask/Find.antt =====
-- `find_set_bits` and `collect_set_bits` list the set bits of the first `n` rows in order.
use mathlib.Core.List.{append-nil}
use native.Mathlib.Nat.{pow-suc}
use blazerules.Prelude.{
  ℕ, zero, suc, ◌+◌, ◌-◌, ◌*◌, ◌/◌, ◌%◌, ◌^◌, ◌≤◌, ◌<◌, ◌≡◌, refl, sym, ap, ◌∙◌, inl, inr, Bool,
  false, List, [], ◌∷◌, ◌++◌, ltb, ◌&&◌, if◌then◌else◌, arith, bit, rows, Bool-cases, length,
  rows_append, rows_ext, rows_none, lt→ltb, le→not-ltb,
}
use blazerules.Bitmask.Drain.{drain-rows}
use blazerules.Bitmask.{
  Mask, IsBytes, word32, drain, find_from, find_set_bits, collect_from, collect_set_bits,
  bit_is_set, bitmask_bytes,
}

bit_join :
    (k lo hi j : ℕ)
    → lo < 2 ^ k
    → bit (lo + 2 ^ k * hi) j ≡ (if ltb j k then bit lo j else bit hi (j - k))
bit_join zero lo hi j h =
    let e : lo + 1 * hi ≡ hi = omega arith in
    let e' : j - 0 ≡ j = omega arith in rw (e, e') (ground arith)
bit_join (suc k) lo hi zero h =
    let e : (lo + 2 ^ suc k * hi) % 2 ≡ lo % 2 =
      omega (arith, ap (λ (t : ℕ). t * hi) (pow-suc 2 k)) in
    rw e (ground arith)
bit_join (suc k) lo hi (suc j) h =
    let e : (lo + 2 ^ suc k * hi) / 2 ≡ lo / 2 + 2 ^ k * hi =
      omega (arith, ap (λ (t : ℕ). t * hi) (pow-suc 2 k)) in
    rw e (bit_join k (lo / 2) hi j (omega (arith, pow-suc 2 k)) ∙ ground arith)

pub bit_is_set-cons :
    (w j : ℕ) (rest : Mask)
    → bit_is_set (w ∷ rest) j ≡ (if ltb j 8 then bit w j else bit_is_set rest (j - 8))
unfolding bit_is_set
bit_is_set-cons w j rest = elim (Bool-cases (ltb j 8)) [
  | inl t ↦ let e : j / 8 ≡ 0 = ground arith in let e' : j % 8 ≡ j = ground arith in rw (t, e, e')
  | inr f ↦
      let e : j / 8 ≡ suc ((j - 8) / 8) = ground arith in
      let e' : j % 8 ≡ (j - 8) % 8 = ground arith in rw (f, e, e')
]

-- Bits of a word of four bytes are the bits of the bytes.
bit-word32 :
    (w x y z j : ℕ) (rest : Mask)
    → w < 256
    → x < 256
    → y < 256
    → z < 256
    → j < 32
    → bit (word32 w x y z) j ≡ bit_is_set (w ∷ x ∷ y ∷ z ∷ rest) j
unfolding word32
bit-word32 w x y z j rest hw hx hy hz l = ground (
  arith,
  bit_join 8 w (x + 256 * (y + 256 * z)) j hw,
  bit_join 8 x (y + 256 * z) (j - 8) hx,
  bit_join 8 y z (j - 8 - 8) hy,
  bit_is_set-cons w j (x ∷ y ∷ z ∷ rest),
  bit_is_set-cons x (j - 8) (y ∷ z ∷ rest),
  bit_is_set-cons y (j - 8 - 8) (z ∷ rest),
  bit_is_set-cons z (j - 8 - 8 - 8) rest,
)

-- What a scan from byte `b` on is to report.
abbrev pick : ℕ → ℕ → Mask → ℕ → Bool
pick n b mask i = bit_is_set mask (i - b * 8) && ltb i n

skip_byte :
    (n b w : ℕ) (rest : Mask) (i : ℕ)
    → (b + 1) * 8 ≤ i
    → pick n b (w ∷ rest) i ≡ pick n (b + 1) rest i
skip_byte n b w rest i h =
    let e : i - b * 8 - 8 ≡ i - (b + 1) * 8 = omega arith in
    ground (arith, bit_is_set-cons w (i - b * 8) rest, ap (bit_is_set rest) e)

skip_word :
    (n b w x y z : ℕ) (rest : Mask) (i : ℕ)
    → (b + 4) * 8 ≤ i
    → pick n b (w ∷ x ∷ y ∷ z ∷ rest) i ≡ pick n (b + 4) rest i
skip_word n b w x y z rest i h =
    let e : b + 1 + 1 + 1 + 1 ≡ b + 4 = omega arith in
    skip_byte n b w (x ∷ y ∷ z ∷ rest) i (omega arith)
    ∙ skip_byte n (b + 1) x (y ∷ z ∷ rest) i (omega arith)
    ∙ skip_byte n (b + 1 + 1) y (z ∷ rest) i (omega arith)
    ∙ skip_byte n (b + 1 + 1 + 1) z rest i (omega arith)
    ∙ ap (λ (k : ℕ). pick n k rest i) e

at_byte :
    (n b w : ℕ) (rest : Mask) (j : ℕ)
    → j < 8
    → pick n b (w ∷ rest) (b * 8 + j) ≡ (bit w j && ltb (b * 8 + j) n)
at_byte n b w rest j h =
    let e : b * 8 + j - b * 8 ≡ j = omega arith in
    ground (arith, bit_is_set-cons w j rest, ap (bit_is_set (w ∷ rest)) e)

at_word :
    (n b w x y z : ℕ) (rest : Mask)
    → w < 256
    → x < 256
    → y < 256
    → z < 256
    → (j : ℕ) → j < 32
    → pick n b (w ∷ x ∷ y ∷ z ∷ rest) (b * 8 + j) ≡ (bit (word32 w x y z) j && ltb (b * 8 + j) n)
at_word n b w x y z rest hw hx hy hz j h =
    let e : b * 8 + j - b * 8 ≡ j = omega arith in
    ground (arith, bit-word32 w x y z j rest hw hx hy hz, ap (bit_is_set (w ∷ x ∷ y ∷ z ∷ rest)) e)

word32-lt : (w x y z : ℕ) → w < 256 → x < 256 → y < 256 → z < 256 → word32 w x y z < 2 ^ 32
unfolding word32
word32-lt w x y z hw hx hy hz = omega arith

-- A scan of some bytes, then a scan of the rest.
scan_join :
    (k n b b' L M : ℕ) (mask rest : Mask) (out tail : List ℕ)
    → b' ≡ b + k
    → M ≡ k + L
    → out ≡ rows (b * 8) (k * 8) (pick n b mask)
    → tail ≡ rows (b' * 8) (L * 8) (pick n b' rest)
    → ((i : ℕ) → b' * 8 ≤ i → pick n b mask i ≡ pick n b' rest i)
    → out ++ tail ≡ rows (b * 8) (M * 8) (pick n b mask)
scan_join k n b b' L M mask rest out tail eb eM eo et skip =
    let e : M * 8 ≡ k * 8 + L * 8 = omega arith in
    let e' : b' * 8 ≡ b * 8 + k * 8 = omega arith in
    rw (e, rows_append (b * 8) (k * 8) (L * 8) (pick n b mask), eo, et, ← e')
      (ap (◌++◌ (rows (b * 8) (k * 8) (pick n b mask)))
        (sym (rows_ext (b' * 8) (L * 8) (pick n b mask) (pick n b' rest) λ i l u. skip i l)))

byte-rows :
    (n b w L : ℕ) (rest : Mask) (tail : List ℕ)
    → w < 256
    → tail ≡ rows ((b + 1) * 8) (L * 8) (pick n (b + 1) rest)
    → drain 8 n (b * 8) w ++ tail ≡ rows (b * 8) (suc L * 8) (pick n b (w ∷ rest))
byte-rows n b w L rest tail hw et =
    scan_join 1 n b (b + 1) L (suc L) (w ∷ rest) rest _ _ refl (omega arith)
      (drain-rows 8 8 n (b * 8) w (pick n b (w ∷ rest)) (omega arith) (omega arith) hw
        (at_byte n b w rest))
      et (skip_byte n b w rest)

word-rows :
    (n b w x y z L : ℕ) (rest : Mask) (tail : List ℕ)
    → w < 256
    → x < 256
    → y < 256
    → z < 256
    → tail ≡ rows ((b + 4) * 8) (L * 8) (pick n (b + 4) rest)
    → drain 32 n (b * 8) (word32 w x y z) ++ tail
      ≡ rows (b * 8) (suc (suc (suc (suc L))) * 8) (pick n b (w ∷ x ∷ y ∷ z ∷ rest))
word-rows n b w x y z L rest tail hw hx hy hz et =
    scan_join 4 n b (b + 4) L (suc (suc (suc (suc L)))) (w ∷ x ∷ y ∷ z ∷ rest) rest _ _ refl
      (omega arith)
      (drain-rows 32 32 n (b * 8) (word32 w x y z) (pick n b (w ∷ x ∷ y ∷ z ∷ rest)) (omega arith)
        (omega arith) (word32-lt w x y z hw hx hy hz) (at_word n b w x y z rest hw hx hy hz))
      et (skip_word n b w x y z rest)

find_from-rows :
    (n b : ℕ) (mask : Mask)
    → IsBytes mask
    → find_from n b mask ≡ rows (b * 8) (length mask * 8) (pick n b mask)
unfolding find_from
find_from-rows n b (w ∷ x ∷ y ∷ z ∷ rest) (hw, (hx, (hy, (hz, hr)))) =
    word-rows n b w x y z (length rest) rest _ hw hx hy hz (find_from-rows n (b + 4) rest hr)
find_from-rows n b (w ∷ rest) (hw, hr) =
    byte-rows n b w (length rest) rest _ hw (find_from-rows n (b + 1) rest hr)
find_from-rows n b [] h = refl

collect_from-rows :
    (n b : ℕ) (mask : Mask)
    → IsBytes mask
    → collect_from n b mask ≡ rows (b * 8) (length mask * 8) (pick n b mask)
unfolding collect_from
collect_from-rows n b (w ∷ rest) (hw, hr) =
    byte-rows n b w (length rest) rest _ hw (collect_from-rows n (b + 1) rest hr)
collect_from-rows n b [] h = refl

-- Past the last row nothing is reported.
pick_in : (n : ℕ) (mask : Mask) (i : ℕ) → i < n → pick n 0 mask i ≡ bit_is_set mask i
pick_in n mask i h = let e : i - 0 ≡ i = omega arith in rw e (ground (arith, lt→ltb i n h))

pick_out : (n : ℕ) (mask : Mask) (i : ℕ) → n ≤ i → pick n 0 mask i ≡ false
pick_out n mask i h = ground (arith, le→not-ltb i n h)

pick_cut :
    (n : ℕ) (mask : Mask)
    → n ≤ length mask * 8
    → rows 0 (length mask * 8) (pick n 0 mask) ≡ rows 0 n (bit_is_set mask)
pick_cut n mask h =
    let e : length mask * 8 ≡ n + (length mask * 8 - n) = omega arith in
    rw (
      e,
      rows_append 0 n (length mask * 8 - n) (pick n 0 mask),
      rows_ext 0 n (pick n 0 mask) (bit_is_set mask) (λ i l u. pick_in n mask i (omega arith)),
      rows_none (0 + n) (length mask * 8 - n) (pick n 0 mask)
          (λ i l. pick_out n mask i (omega arith)),
      append-nil,
    )

-- For a mask of `n` rows whose elements are bytes, `find_set_bits` returns the indices of the set
-- rows, each once and in ascending order.
pub find_set_bits-rows :
    (mask : Mask) (n : ℕ)
    → IsBytes mask
    → length mask ≡ bitmask_bytes n
    → find_set_bits mask n ≡ rows 0 n (bit_is_set mask)
unfolding find_set_bits bitmask_bytes
find_set_bits-rows mask n hb hl = find_from-rows n 0 mask hb ∙ pick_cut n mask (omega arith)

-- On bytes, the loop of `collect_set_bits` over single bytes returns what `find_set_bits` returns
-- over words of four.
pub collect_set_bits-find_set_bits :
    (mask : Mask) (n : ℕ) → IsBytes mask → collect_set_bits mask n ≡ find_set_bits mask n
unfolding find_set_bits collect_set_bits
collect_set_bits-find_set_bits mask n hb =
    collect_from-rows n 0 mask hb ∙ sym (find_from-rows n 0 mask hb)
