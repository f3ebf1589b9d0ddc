-- ===== src/Lookup/Prefix.antt =====
-- The range that `add_cidr_range` computes with masks is the block of addresses that share the
-- prefix.
use Prim.Native.Nat.{bit_and, bit_or, bit_and-bitwise, bit_or-bitwise}
use native.Mathlib.Nat.{
  pow-suc, mul-le-mul_right, pow-le-pow_right, one-le-pow, div-lt_iff_lt-mul, le-div_iff_mul-le,
  div-add-mod, mod-lt,
}
use blazerules.Prelude.{
  ℕ, zero, suc, ◌+◌, ◌-◌, ◌*◌, ◌/◌, ◌%◌, ◌^◌, ◌<◌, ◌≤◌, ◌≡◌, refl, ap, ◌∙◌, inl, inr, ◌==◌, ltb,
  arith, Bool-cases, bit_and_step, bit_or_step,
}
use blazerules.Lookup.{Ipv4Range, prefix_mask, cidr_range, within}

and_ones : (w x : ℕ) → x < 2 ^ w → bit_and x (2 ^ w - 1) ≡ x
and_ones zero x h =
    let e : x ≡ 0 = omega arith in rw e (omega (arith, bit_and-bitwise 0 (2 ^ 0 - 1)))
and_ones (suc w) x h =
    let half : (2 ^ suc w - 1) / 2 ≡ 2 ^ w - 1 = omega (arith, pow-suc 2 w) in
    omega (
      arith,
      pow-suc 2 w,
      rw half at (bit_and_step x (2 ^ suc w - 1)),
      and_ones w (x / 2) (omega (arith, pow-suc 2 w)),
    )

pub or_none : (w x : ℕ) → x < 2 ^ w → bit_or x 0 ≡ x
or_none zero x h = let e : x ≡ 0 = omega arith in rw e (omega (arith, bit_or-bitwise 0 0))
or_none (suc w) x h = omega (arith, bit_or_step x 0, or_none w (x / 2) (omega (arith, pow-suc 2 w)))

pub double : (q k : ℕ) → q * 2 ^ suc k ≡ 2 * (q * 2 ^ k)
double q k = omega (arith, ap (λ (t : ℕ). q * t) (pow-suc 2 k))

-- Clearing the `k` low bits of a number of `k + w` bits.
and_high :
    (k w q r : ℕ)
    → q < 2 ^ w
    → r < 2 ^ k
    → bit_and (q * 2 ^ k + r) ((2 ^ w - 1) * 2 ^ k) ≡ q * 2 ^ k
and_high zero w q r h l =
    let e : q * 2 ^ 0 + r ≡ q = omega arith in
    let e' : (2 ^ w - 1) * 2 ^ 0 ≡ 2 ^ w - 1 = omega arith in
    rw (e, e') (and_ones w q h ∙ omega arith)
and_high (suc k) w q r h l =
    let e : (q * 2 ^ suc k + r) / 2 ≡ q * 2 ^ k + r / 2 = omega (arith, double q k) in
    let e' : ((2 ^ w - 1) * 2 ^ suc k) / 2 ≡ (2 ^ w - 1) * 2 ^ k =
      omega (arith, double (2 ^ w - 1) k) in
    omega (
      arith,
      double q k,
      double (2 ^ w - 1) k,
      rw (e, e') at (bit_and_step (q * 2 ^ suc k + r) ((2 ^ w - 1) * 2 ^ suc k)),
      and_high k w q (r / 2) h (omega (arith, pow-suc 2 k)),
    )

-- Setting them.
or_low : (k w q : ℕ) → q < 2 ^ w → bit_or (q * 2 ^ k) (2 ^ k - 1) ≡ q * 2 ^ k + (2 ^ k - 1)
or_low zero w q h = let e : q * 2 ^ 0 ≡ q = omega arith in rw e (or_none w q h ∙ omega arith)
or_low (suc k) w q h =
    let e : (q * 2 ^ suc k) / 2 ≡ q * 2 ^ k = omega (arith, double q k) in
    let e' : (2 ^ suc k - 1) / 2 ≡ 2 ^ k - 1 = omega (arith, pow-suc 2 k) in
    omega (
      arith,
      double q k,
      pow-suc 2 k,
      one-le-pow k 2 (omega arith),
      rw (e, e') at (bit_or_step (q * 2 ^ suc k) (2 ^ suc k - 1)),
      or_low k w q h,
    )

pow-add : (a b : ℕ) → 2 ^ a * 2 ^ b ≡ 2 ^ (a + b)
pow-add a zero = let e : a + 0 ≡ a = omega arith in rw e (omega arith)
pow-add a (suc b) =
    let e : a + suc b ≡ suc (a + b) = omega arith in
    rw e (omega (arith, double (2 ^ a) b, pow-suc 2 (a + b), pow-add a b))

low_size : (p : ℕ) → p ≤ 32 → 2 ^ p * 2 ^ (32 - p) ≡ 4294967296
low_size p h =
    let e : p + (32 - p) ≡ 32 = omega arith in pow-add p (32 - p) ∙ ap (λ (n : ℕ). 2 ^ n) e

times_pred : (a b : ℕ) → 1 ≤ a → (a - 1) * b ≡ a * b - b
times_pred zero b h = absurd (omega arith)
times_pred (suc a) b h = let e : suc a - 1 ≡ a = omega arith in rw e (omega arith)

-- The mask has the `prefix` high bits.
prefix_mask-high : (p : ℕ) → p ≤ 32 → prefix_mask p ≡ (2 ^ p - 1) * 2 ^ (32 - p)
unfolding prefix_mask
prefix_mask-high p h = elim (Bool-cases (p == 0)) [
  | inl z ↦ let e : p ≡ 0 = ground arith in rw e (omega arith)
  | inr nz ↦
      let one : 1 ≤ 2 ^ (32 - p) = one-le-pow (32 - p) 2 (omega arith) in
      let two : 2 ≤ 2 ^ p = pow-le-pow_right {n = 2} (omega arith) {i = 1} {j = p} (ground arith) in
      let small : 2 * 2 ^ (32 - p) ≤ 2 ^ p * 2 ^ (32 - p) = mul-le-mul_right (2 ^ (32 - p)) two in
      rw nz (omega (arith, low_size p h, times_pred (2 ^ p) (2 ^ (32 - p)) (omega arith)))
]

-- The block of `K` addresses that holds an address.
abbrev block : ℕ → ℕ → Ipv4Range
block K raw = record { start = raw / K * K; end = raw / K * K + (K - 1) }

abbrev range : ℕ → ℕ → Ipv4Range
range a b = record { start = a; end = b }

range-ext : {a b c d : ℕ} → a ≡ c → b ≡ d → range a b ≡ range c d
range-ext e f = rw (e, f) refl

cidr_range-block : (raw p : ℕ) → raw < 2 ^ 32 → p ≤ 32 → cidr_range raw p ≡ block (2 ^ (32 - p)) raw
unfolding cidr_range
cidr_range-block raw p h l =
    let one : 1 ≤ 2 ^ (32 - p) = one-le-pow (32 - p) 2 (omega arith) in
    let one' : 1 ≤ 2 ^ p = one-le-pow p 2 (omega arith) in
    let size = low_size p l in
    let high : raw / 2 ^ (32 - p) < 2 ^ p = (div-lt_iff_lt-mul one).1 (omega (arith, size)) in
    let parts : raw ≡ raw / 2 ^ (32 - p) * 2 ^ (32 - p) + raw % 2 ^ (32 - p) =
      omega (arith, div-add-mod raw (2 ^ (32 - p))) in
    let masked : bit_and raw (prefix_mask p) ≡ raw / 2 ^ (32 - p) * 2 ^ (32 - p) =
      rw (prefix_mask-high p l) (
        ap (λ x. bit_and x ((2 ^ p - 1) * 2 ^ (32 - p))) parts
        ∙ and_high (32 - p) p (raw / 2 ^ (32 - p)) (raw % 2 ^ (32 - p)) high (mod-lt raw one)) in
    let rest : 4294967295 - prefix_mask p ≡ 2 ^ (32 - p) - 1 = omega (
      arith,
      prefix_mask-high p l,
      size,
      times_pred (2 ^ p) (2 ^ (32 - p)) one',
      mul-le-mul_right (2 ^ (32 - p)) one',
    ) in
    range-ext masked (
      ap (λ x. bit_or x (4294967295 - prefix_mask p)) masked
      ∙ rw rest (or_low (32 - p) p (raw / 2 ^ (32 - p)) high))

within-block : (K raw ip : ℕ) → 0 < K → within ip (block K raw) ≡ (ip / K == raw / K)
unfolding within
within-block K raw ip h = elim (Bool-cases (ltb (ip / K) (raw / K))) [
  | inl below ↦ let l : ip < raw / K * K = (div-lt_iff_lt-mul h).0 (ground arith) in ground arith
  | inr not_below ↦
      let l : raw / K * K ≤ ip = (le-div_iff_mul-le h).0 (ground arith) in
      elim (Bool-cases (ltb (raw / K) (ip / K))) [
        | inl above ↦
            let u : (raw / K + 1) * K ≤ ip = (le-div_iff_mul-le h).0 (ground arith) in
            let u' : raw / K * K + K ≤ ip = omega arith in ground arith
        | inr same ↦
            let u : ip < (raw / K + 1) * K = (div-lt_iff_lt-mul h).0 (ground arith) in
            let u' : ip < raw / K * K + K = omega arith in ground arith
      ]
]

-- For an address below 2 ^ 32 and a prefix of at most 32 bits, the range that `add_cidr_range`
-- appends holds exactly the addresses that agree with the address in the first `p` bits.
pub within-cidr_range :
    (raw p ip : ℕ)
    → raw < 2 ^ 32
    → p ≤ 32
    → within ip (cidr_range raw p) ≡ (ip / 2 ^ (32 - p) == raw / 2 ^ (32 - p))
within-cidr_range raw p ip h l =
    rw (cidr_range-block raw p h l)
      (within-block (2 ^ (32 - p)) raw ip (one-le-pow (32 - p) 2 (omega arith)))
