-- ===== src/Bitmask/Count.antt =====
-- `count_set_bits` counts the rows that are set.
use native.Mathlib.Nat.{pow-suc}
use blazerules.Prelude.{
  ℕ, zero, suc, ◌+◌, ◌-◌, ◌*◌, ◌/◌, ◌%◌, ◌^◌, ◌<◌, ◌≤◌, ◌≡◌, refl, ap, ◌∙◌, Bool, [], ◌∷◌, arith,
  bit, rows, rows_append, rows_ext, length, length-append,
}
use blazerules.Bitmask.{
  Mask, IsBytes, popcount, popcount32, popcount64, word64, count_set_bits, bit_is_set,
}
use blazerules.Bitmask.Find.{bit_is_set-cons}
use blazerules.Bitmask.Pointwise.{word64_nested}

popcount_join :
    (k w lo hi : ℕ)
    → lo < 2 ^ k
    → popcount (k + w) (lo + 2 ^ k * hi) ≡ popcount k lo + popcount w hi
unfolding popcount
popcount_join zero w lo hi h =
    let e : zero + w ≡ w = omega arith in
    let e' : lo + 1 * hi ≡ hi = omega arith in rw (e, e') (omega arith)
popcount_join (suc k) w lo hi h =
    let e₀ : suc k + w ≡ suc (k + w) = omega arith in
    let e : (lo + 2 ^ suc k * hi) % 2 ≡ lo % 2 =
      omega (arith, ap (λ (t : ℕ). t * hi) (pow-suc 2 k)) in
    let e' : (lo + 2 ^ suc k * hi) / 2 ≡ lo / 2 + 2 ^ k * hi =
      omega (arith, ap (λ (t : ℕ). t * hi) (pow-suc 2 k)) in
    rw (e₀, popcount, e, e')
      (omega (arith, popcount_join k w (lo / 2) hi (omega (arith, pow-suc 2 k))))

popcount_zero : (w : ℕ) → popcount w 0 ≡ 0
unfolding popcount
popcount_zero zero = refl
popcount_zero (suc w) = omega (arith, popcount_zero w)

-- A byte counted as a word of 32 bits.
popcount_byte : (b : ℕ) → b < 256 → popcount32 b ≡ popcount 8 b
unfolding popcount32
popcount_byte b h =
    let e : b + 256 * 0 ≡ b = omega arith in
    let whole = rw e at (popcount_join 8 24 b 0 h) in omega (arith, whole, popcount_zero 24)

popcount_word :
    (a b c d e f g h : ℕ)
    → IsBytes (a ∷ b ∷ c ∷ d ∷ e ∷ f ∷ g ∷ h ∷ [])
    → popcount64 (word64 a b c d e f g h)
      ≡ popcount 8 a
        + (popcount 8 b
            + (popcount 8 c
                + (popcount 8 d + (popcount 8 e + (popcount 8 f + (popcount 8 g + popcount 8 h))))))
unfolding popcount64
popcount_word a b c d e f g h k = omega (
  arith,
  ap (popcount 64) (word64_nested a b c d e f g h),
  popcount_join 8 56 a _ k.0,
  popcount_join 8 48 b _ k.1.0,
  popcount_join 8 40 c _ k.1.1.0,
  popcount_join 8 32 d _ k.1.1.1.0,
  popcount_join 8 24 e _ k.1.1.1.1.0,
  popcount_join 8 16 f _ k.1.1.1.1.1.0,
  popcount_join 8 8 g _ k.1.1.1.1.1.1.0,
  popcount_join 8 0 h 0 k.1.1.1.1.1.1.1.0,
  popcount_zero 0,
)

count_bytes : Mask → ℕ
count_bytes [] = 0
count_bytes (b ∷ bs) = popcount 8 b + count_bytes bs

count_set_bits-bytes : (mask : Mask) → IsBytes mask → count_set_bits mask ≡ count_bytes mask
unfolding count_set_bits count_bytes
count_set_bits-bytes (a ∷ b ∷ c ∷ d ∷ e ∷ f ∷ g ∷ h ∷ rest)
      (ha, (hb, (hc, (hd, (he, (hf, (hg, (hh, hr)))))))) =
    omega (
      arith,
      popcount_word a b c d e f g h (ha, (hb, (hc, (hd, (he, (hf, (hg, (hh, tt)))))))),
      count_set_bits-bytes rest hr,
    )
count_set_bits-bytes (a ∷ rest) (ha, hr) =
    omega (arith, popcount_byte a ha, count_set_bits-bytes rest hr)
count_set_bits-bytes [] h = refl

popcount-rows :
    (w base x : ℕ) (p : ℕ → Bool)
    → ((j : ℕ) → j < w → p (base + j) ≡ bit x j)
    → popcount w x ≡ length (rows base w p)
unfolding popcount
popcount-rows zero base x p h = refl
popcount-rows (suc w) base x p h =
    let e₁ : base + 1 ≡ suc base = omega arith in
    let here : p base ≡ bit x 0 =
      let e₀ : base + 0 ≡ base = omega arith in rw e₀ at (h 0 (omega arith)) in
    let next : (j : ℕ) → j < w → p (suc base + j) ≡ bit (x / 2) j =
      λ j l. let e : suc base + j ≡ base + suc j = omega arith in rw e (h (suc j) (omega arith)) in
    let ih = popcount-rows w (suc base) (x / 2) p next in ground (arith, here, ih)

skip :
    (b w : ℕ) (rest : Mask) (i : ℕ)
    → (b + 1) * 8 ≤ i
    → bit_is_set (w ∷ rest) (i - b * 8) ≡ bit_is_set rest (i - (b + 1) * 8)
skip b w rest i h =
    let e : i - b * 8 - 8 ≡ i - (b + 1) * 8 = omega arith in
    ground (arith, bit_is_set-cons w (i - b * 8) rest, ap (bit_is_set rest) e)

count_bytes-rows :
    (b : ℕ) (mask : Mask)
    → count_bytes mask ≡ length (rows (b * 8) (length mask * 8) (λ i. bit_is_set mask (i - b * 8)))
unfolding count_bytes
count_bytes-rows b [] = refl
count_bytes-rows b (w ∷ rest) =
    let e : suc (length rest) * 8 ≡ 8 + length rest * 8 = omega arith in
    let e' : b * 8 + 8 ≡ (b + 1) * 8 = omega arith in
    rw (e, rows_append (b * 8) 8 (length rest * 8) (λ i. bit_is_set (w ∷ rest) (i - b * 8)), e')
      (omega (
        arith,
        length-append (rows (b * 8) 8 (λ i. bit_is_set (w ∷ rest) (i - b * 8)))
            (rows ((b + 1) * 8) (length rest * 8) (λ i. bit_is_set (w ∷ rest) (i - b * 8))),
        popcount-rows 8 (b * 8) w (λ i. bit_is_set (w ∷ rest) (i - b * 8))
            (λ j l.
              let e₂ : b * 8 + j - b * 8 ≡ j = omega arith in
              rw e₂ (bit_is_set-cons w j rest ∙ ground arith)),
        ap length (
            rows_ext ((b + 1) * 8) (length rest * 8) (λ i. bit_is_set (w ∷ rest) (i - b * 8))
              (λ i. bit_is_set rest (i - (b + 1) * 8)) (λ i l u. skip b w rest i l)),
        count_bytes-rows (b + 1) rest,
      ))

-- On a buffer of bytes, `count_set_bits` is the number of rows whose bit is set.
pub count_set_bits-rows :
    (mask : Mask)
    → IsBytes mask
    → count_set_bits mask ≡ length (rows 0 (length mask * 8) (bit_is_set mask))
count_set_bits-rows mask h =
    count_set_bits-bytes mask h
    ∙ count_bytes-rows 0 mask
    ∙ ap length (
        rows_ext 0 (length mask * 8) (λ i. bit_is_set mask (i - 0)) (bit_is_set mask)
          (λ i l u. let e : i - 0 ≡ i = omega arith in ap (bit_is_set mask) e))
