-- ===== src/Kernels/Rows.antt =====
-- The bit of a row after a kernel.
use Prim.Native.Nat.{bit_or}
use blazerules.Prelude.{
  ℕ, zero, suc, ◌+◌, ◌-◌, ◌*◌, ◌/◌, ◌%◌, ◌^◌, ◌<◌, ◌≤◌, ◌≡◌, refl, ap, ◌∙◌, inl, inr, Bool, true,
  false, ◌&&◌, ◌||◌, List, [], ◌∷◌, Option, none, some, if◌then◌else◌, get_or, length, ltb, leb,
  ◌==◌, bit, bit-bit_or, bit-bit_and, bit-zero, Bool-cases, arith,
}
use blazerules.Bitmask.{Mask, bit_is_set}
use blazerules.Bitmask.Find.{bit_is_set-cons}
use blazerules.Bitmask.Rowwise.{bit_power, bit_is_set_out}
use blazerules.Kernels.{take, drop, pack, byte_of, eval_blocks, eval_rows}

-- The row is valid.
abbrev pub is_valid : Option Mask → ℕ → Bool
is_valid none i = true
is_valid (some vp) i = bit_is_set vp i

module _ {T : Type 0} (test : T → Bool) where
  -- The value of the row passes; there is none past the end.
  abbrev pub passes : List T → ℕ → Bool
  passes [] i = false
  passes (v ∷ vs) zero = test v
  passes (v ∷ vs) (suc i) = passes vs i

  pub passes_past : (vs : List T) (i : ℕ) → length vs ≤ i → passes vs i ≡ false
  passes_past [] i h = refl
  passes_past (v ∷ vs) zero h = absurd (omega arith)
  passes_past (v ∷ vs) (suc i) h = passes_past vs i (omega arith)

  passes-take : (k : ℕ) (vs : List T) (i : ℕ) → i < k → passes (take k vs) i ≡ passes vs i
  passes-take zero vs i h = absurd (omega arith)
  passes-take (suc k) [] i h = refl
  passes-take (suc k) (v ∷ vs) zero h = refl
  passes-take (suc k) (v ∷ vs) (suc i) h = passes-take k vs i (omega arith)

  passes-drop : (k : ℕ) (vs : List T) (i : ℕ) → k ≤ i → passes (drop k vs) (i - k) ≡ passes vs i
  passes-drop zero vs i h = let e : i - 0 ≡ i = omega arith in rw e refl
  passes-drop (suc k) vs zero h = absurd (omega arith)
  passes-drop (suc k) [] (suc i) h = refl
  passes-drop (suc k) (v ∷ vs) (suc i) h =
      let e : suc i - suc k ≡ i - k = omega arith in rw e (passes-drop k vs i (omega arith))

  pub length-drop : (k : ℕ) (vs : List T) → length (drop k vs) ≡ length vs - k
  length-drop zero vs = omega arith
  length-drop (suc k) [] = omega arith
  length-drop (suc k) (v ∷ vs) = omega (arith, length-drop k vs)

  -- The bit that a value sets.
  set_one :
      (b : Bool) (byte i j : ℕ)
      → bit (if b then bit_or byte (2 ^ i) else byte) j ≡ (bit byte j || (b && j == i))
  set_one true byte i j = rw (bit-bit_or j byte (2 ^ i), bit_power i j) (ground arith)
  set_one false byte i j = ground arith

  -- A value, or one of those after it.
  passes_step :
      (v : T) (vs : List T) (i j : ℕ)
      → ((test v && j == i) || (leb (suc i) j && passes vs (j - suc i)))
        ≡ (leb i j && passes (v ∷ vs) (j - i))
  passes_step v vs i j = elim (Bool-cases (ltb i j)) [
    | inl t ↦
        let e : j - i ≡ suc (j - suc i) = ground arith in
        let ne : (j == i) ≡ false = ground arith in
        let after : leb (suc i) j ≡ true = ground arith in
        let from : leb i j ≡ true = ground arith in rw (e, ne, after, from) (ground arith)
    | inr f ↦ elim (Bool-cases (j == i)) [
      | inl t ↦
          let e : j - i ≡ 0 = ground arith in
          let after : leb (suc i) j ≡ false = ground arith in
          let from : leb i j ≡ true = ground arith in rw (e, t, after, from) (ground arith)
      | inr ne ↦
          let after : leb (suc i) j ≡ false = ground arith in
          let from : leb i j ≡ false = ground arith in rw (ne, after, from) (ground arith)
    ]
  ]

  or_assoc : (a b c d : Bool) → (b || c) ≡ d → ((a || b) || c) ≡ (a || d)
  or_assoc true b c d h = refl
  or_assoc false b c d h = h

  bit-pack :
      (i byte : ℕ) (vs : List T) (j : ℕ)
      → bit (pack test i byte vs) j ≡ (bit byte j || (leb i j && passes vs (j - i)))
  unfolding pack
  bit-pack i byte [] j = ground arith
  bit-pack i byte (v ∷ vs) j =
      bit-pack (suc i) (if test v then bit_or byte (2 ^ i) else byte) vs j
      ∙ ap (λ b. b || (leb (suc i) j && passes vs (j - suc i))) (set_one (test v) byte i j)
      ∙ or_assoc (bit byte j) (test v && j == i) (leb (suc i) j && passes vs (j - suc i))
          (leb i j && passes (v ∷ vs) (j - i)) (passes_step v vs i j)

  bit_packed : (vs : List T) (j : ℕ) → bit (pack test 0 0 vs) j ≡ passes vs j
  bit_packed vs j =
      let e : j - 0 ≡ j = omega arith in bit-pack 0 0 vs j ∙ rw (e, bit-zero j) (ground arith)

  -- The validity of a row of the block `b`.
  bit-byte_of :
      (vp : Option Mask) (b : ℕ) (vs : List T) (j : ℕ)
      → j < 8
      → bit (byte_of test vp b vs) j ≡ (passes vs j && is_valid vp (8 * b + j))
  unfolding byte_of bit_is_set
  bit-byte_of none b vs j h = bit_packed vs j ∙ ground arith
  bit-byte_of (some vp) b vs j h =
      let block : (8 * b + j) / 8 ≡ b = omega arith in
      let place : (8 * b + j) % 8 ≡ j = omega arith in
      bit-bit_and j (pack test 0 0 vs) (get_or vp b 0)
      ∙ rw (block, place) (ap (λ x. x && bit (get_or vp b 0) j) (bit_packed vs j))

  bit-eval_blocks :
      (vp : Option Mask) (nb b : ℕ) (vs : List T) (i : ℕ)
      → nb * 8 ≤ length vs
      → length vs < nb * 8 + 8
      → bit_is_set (eval_blocks test vp nb b vs) i ≡ (passes vs i && is_valid vp (8 * b + i))
  unfolding eval_blocks
  bit-eval_blocks vp zero b [] i h k = bit_is_set_out [] i (omega arith)
  bit-eval_blocks vp zero b (v ∷ vs) i h k =
      bit_is_set-cons (byte_of test vp b (v ∷ vs)) i [] ∙ elim (Bool-cases (ltb i 8)) [
        | inl t ↦ rw t (bit-byte_of vp b (v ∷ vs) i (ground arith))
        | inr f ↦
            let past : passes (v ∷ vs) i ≡ false = passes_past (v ∷ vs) i (ground (arith, k)) in
            rw (f, past) (bit_is_set_out [] (i - 8) (omega arith))
      ]
  bit-eval_blocks vp (suc nb) b vs i h k =
      bit_is_set-cons (byte_of test vp b (take 8 vs)) i (eval_blocks test vp nb (suc b) (drop 8 vs))
      ∙ elim (Bool-cases (ltb i 8)) [
        | inl t ↦
            let small : i < 8 = ground arith in
            rw t (
              bit-byte_of vp b (take 8 vs) i small
              ∙ ap (λ x. x && is_valid vp (8 * b + i)) (passes-take 8 vs i small))
        | inr f ↦
            let size = length-drop 8 vs in
            let row : 8 * suc b + (i - 8) ≡ 8 * b + i = ground arith in
            let rest =
              bit-eval_blocks vp nb (suc b) (drop 8 vs) (i - 8) (omega arith) (omega arith) in
            rw f (rest ∙ rw (row, passes-drop 8 vs i (ground arith)) refl)
      ]

  pub bit_is_set-eval_rows :
      (vs : List T) (vp : Option Mask) (i : ℕ)
      → bit_is_set (eval_rows test vs vp) i ≡ (passes vs i && is_valid vp i)
  unfolding eval_rows
  bit_is_set-eval_rows vs vp i =
      bit-eval_blocks vp (length vs / 8) 0 vs i (omega arith) (omega arith)
      ∙ (let e : 8 * 0 + i ≡ i = omega arith in rw e refl)
