-- ===== src/Bitmask/Drain.antt =====
-- The bit loop of bitmask.h: `drain` lists the set bits of a word in ascending order.
use Prim.Native.Nat.{bit_and, bit_and-bitwise}
use native.Mathlib.Nat.{pow-suc, pow-le-pow_right}
use blazerules.Prelude.{
  ℕ, zero, suc, ◌+◌, ◌-◌, ◌*◌, ◌/◌, ◌%◌, ◌^◌, ◌≤◌, ◌<◌, ◌≡◌, refl, sym, ap, ◌∙◌, inl, inr, Bool, [],
  ◌∷◌, ◌==◌, ltb, ◌&&◌, if◌then◌else◌, arith, bit, bit_and_step, rows, Bool-cases,
}
use blazerules.Bitmask.{ctz, ctz32, drain}

bit_and_self : (k q : ℕ) → q < 2 ^ k → bit_and q q ≡ q
bit_and_self zero q h = let e : q ≡ 0 = omega arith in rw e (omega (arith, bit_and-bitwise 0 0))
bit_and_self (suc k) q h =
    omega
      (arith, pow-suc 2 k, bit_and_step q q, bit_and_self k (q / 2) (omega (arith, pow-suc 2 k)))

clear_double : (q : ℕ) → 0 < q → bit_and (2 * q) (2 * q - 1) ≡ 2 * bit_and q (q - 1)
clear_double q h =
    let e : 2 * q / 2 ≡ q = omega arith in
    let e' : (2 * q - 1) / 2 ≡ q - 1 = omega arith in
    omega (arith, rw (e, e') at (bit_and_step (2 * q) (2 * q - 1)))

clear_odd : (k q : ℕ) → q < 2 ^ k → bit_and (2 * q + 1) (2 * q + 1 - 1) ≡ 2 * q
clear_odd k q h =
    let e : (2 * q + 1) / 2 ≡ q = omega arith in
    let e' : (2 * q + 1 - 1) / 2 ≡ q = omega arith in
    omega (arith, rw (e, e') at (bit_and_step (2 * q + 1) (2 * q + 1 - 1)), bit_and_self k q h)

pub clear_le : (k a b : ℕ) → a < 2 ^ k → bit_and a b ≤ a
clear_le zero a b h = let e : a ≡ 0 = omega arith in rw e (omega (arith, bit_and-bitwise 0 b))
clear_le (suc k) a b h =
    omega (
      arith,
      pow-suc 2 k,
      bit_and_step a b,
      clear_le k (a / 2) (b / 2) (omega (arith, pow-suc 2 k)),
    )

ctz_width : (w q : ℕ) → 0 < q → q < 2 ^ w → ctz (suc w) q ≡ ctz w q
unfolding ctz
ctz_width zero q p h = absurd (omega arith)
ctz_width (suc w) q p h = elim (Bool-cases (q % 2 == 1)) [
  | inl e ↦ rw e
  | inr e ↦ rw e (ap suc (ctz_width w (q / 2) (ground arith) (omega (arith, pow-suc 2 w))))
]

ctz_even : (w q : ℕ) → ctz (suc w) (2 * q) ≡ suc (ctz w q)
unfolding ctz
ctz_even w q =
    let e : 2 * q / 2 ≡ q = omega arith in let e' : 2 * q % 2 ≡ 0 = omega arith in rw (e', e)

ctz_odd : (w q : ℕ) → ctz (suc w) (2 * q + 1) ≡ 0
unfolding ctz
ctz_odd w q = let e : (2 * q + 1) % 2 ≡ 1 = omega arith in rw e

ctz_double : (q : ℕ) → 0 < q → q < 2 ^ 31 → ctz32 (2 * q) ≡ suc (ctz32 q)
unfolding ctz32
ctz_double q p h = rw (ctz_even 31 q) (ap suc (sym (ctz_width 31 q p h)))

drain_zero : (f n base : ℕ) → drain f n base 0 ≡ []
unfolding drain
drain_zero zero n base = refl
drain_zero (suc f) n base = refl

-- A doubled word has the same bits one place up.
drain_double : (f n base q : ℕ) → q < 2 ^ 31 → drain f n base (2 * q) ≡ drain f n (base + 1) q
unfolding drain
drain_double zero n base q h = refl
drain_double (suc f) n base zero h = refl
drain_double (suc f) n base (suc p) h = ground (
  arith,
  ctz_double (suc p),
  clear_double (suc p),
  clear_le 31 (suc p) (suc p - 1),
  ap (drain f n base) (clear_double (suc p) (omega arith)),
  drain_double f n base (bit_and (suc p) (suc p - 1)),
)

drain_odd :
    (f n base q : ℕ)
    → q < 2 ^ 31
    → drain (suc f) n base (2 * q + 1)
      ≡ (if ltb base n then base ∷ drain f n (base + 1) q else drain f n (base + 1) q)
unfolding drain ctz32
drain_odd f n base q h =
    ground (arith, ctz_odd 31 q, ap (drain f n base) (clear_odd 31 q h), drain_double f n base q)

-- With fuel for each of its `w` bits, the loop lists the bits that are set, cut off at `n`.
pub drain-rows :
    (w f n base word : ℕ) (p : ℕ → Bool)
    → w ≤ f
    → w ≤ 32
    → word < 2 ^ w
    → ((j : ℕ) → j < w → p (base + j) ≡ (bit word j && ltb (base + j) n))
    → drain f n base word ≡ rows base w p
drain-rows zero f n base word p hf hw h hp =
    let e : word ≡ 0 = omega arith in rw e (drain_zero f n base)
drain-rows (suc w) zero n base word p hf hw h hp = absurd (omega arith)
drain-rows (suc w) (suc f) n base word p hf hw h hp =
    let q = word / 2 in
    let small : q < 2 ^ w = omega (arith, pow-suc 2 w) in
    let small' : q < 2 ^ 31 =
      omega (arith, pow-le-pow_right {n = 2} (omega arith) {i = w} {j = 31} (omega arith)) in
    let next : (j : ℕ) → j < w → p (base + 1 + j) ≡ (bit q j && ltb (base + 1 + j) n) =
      λ j l. let e : base + 1 + j ≡ base + suc j = omega arith in rw e (hp (suc j) (omega arith)) in
    let e₁ : base + 1 ≡ suc base = omega arith in
    let here : p base ≡ (bit word 0 && ltb base n) =
      let e₀ : base + 0 ≡ base = omega arith in rw e₀ at (hp 0 (omega arith)) in
    elim (Bool-cases (word % 2 == 1)) [
      | inl odd ↦
          let e : word ≡ 2 * q + 1 = ground arith in
          let ih =
            rw e₁ at (drain-rows w f n (base + 1) q p (omega arith) (omega arith) small next) in
          ap (drain (suc f) n base) e
          ∙ drain_odd f n base q small'
          ∙ ground (arith, here, odd, ih, e₁, ap (λ (b : ℕ). drain f n b q) e₁)
      | inr even ↦
          let e : word ≡ 2 * q = ground arith in
          let ih =
            rw e₁ at
              (drain-rows w (suc f) n (base + 1) q p (omega arith) (omega arith) small next) in
          ap (drain (suc f) n base) e
          ∙ drain_double (suc f) n base q small'
          ∙ ground (arith, here, even, ih, e₁, ap (λ (b : ℕ). drain (suc f) n b q) e₁)
    ]

drain_past : (f n base word : ℕ) → n ≤ base → drain f n base word ≡ []
unfolding drain
drain_past zero n base word h = refl
drain_past (suc f) n base word h = ground (arith, drain_past f n base (bit_and word (word - 1)) h)

-- Once the lowest set bit is past the end, so are the others.
pub drain-past :
    (w f n base word : ℕ) → w ≤ 31 → word < 2 ^ w → n ≤ base + ctz32 word → drain f n base word ≡ []
unfolding ctz32
drain-past zero f n base word hw h hn = let e : word ≡ 0 = omega arith in rw e (drain_zero f n base)
drain-past (suc w) f n base word hw h hn =
    let q = word / 2 in
    let small : q < 2 ^ w = omega (arith, pow-suc 2 w) in
    let small' : q < 2 ^ 31 =
      omega (arith, pow-le-pow_right {n = 2} (omega arith) {i = w} {j = 31} (omega arith)) in
    elim (Bool-cases (word % 2 == 1)) [
      | inl odd ↦
          let e : word ≡ 2 * q + 1 = ground arith in
          let first : ctz32 word ≡ 0 = ap ctz32 e ∙ ctz_odd 31 q in
          drain_past f n base word (omega (arith, first))
      | inr even ↦
          let e : word ≡ 2 * q = ground arith in
          elim (Bool-cases (q == 0)) [
            | inl z ↦ let e₀ : word ≡ 0 = ground arith in rw e₀ (drain_zero f n base)
            | inr nz ↦
                let up : ctz32 word ≡ suc (ctz32 q) =
                  ap ctz32 e ∙ ctz_double q (ground arith) small' in
                ap (drain f n base) e
                ∙ drain_double f n base q small'
                ∙ drain-past w f n (base + 1) q (omega arith) small (omega (arith, up))
          ]
    ]
