-- ===== src/Kernels/Negate.antt =====
-- Two ways to negate a comparison: the inverted operator, and the complement of the mask.
use Prim.Native.Nat.{bit_or}
use blazerules.Prelude.{
  ℕ, zero, suc, ◌+◌, ◌*◌, ◌/◌, ◌^◌, ◌<◌, ◌≤◌, ◌≡◌, refl, ap, ◌∙◌, Bool, true, false, not, ◌&&◌,
  ◌||◌, List, [], ◌∷◌, Option, none, some, if◌then◌else◌, get_or, length, ltb, bit_or-lt,
  bit_and-lt, arith,
}
use blazerules.Bitmask.{Mask, IsBytes, bit_is_set, bitmask_bytes, bitwise_not}
use blazerules.Bitmask.Rowwise.{bit_is_set-bitwise_not}
use blazerules.Compile.{OpType, invert_op}
use blazerules.Kernels.{
  Elements, CompareOp, op_gt, op_lt, op_gte, op_lte, op_eq, op_neq, scmp, take, drop, pack, byte_of,
  eval_blocks, eval_rows, eval_num,
}
use blazerules.Kernels.Rows.{passes, length-drop, is_valid, bit_is_set-eval_rows}
use blazerules.Kernels.Predicate.{num_op_index}
use blazerules.Kernels.Bounds.{IsOrder}

power_small : (i : ℕ) → i < 8 → 2 ^ i < 2 ^ 8
power_small zero h = omega arith
power_small (suc zero) h = omega arith
power_small (suc (suc zero)) h = omega arith
power_small (suc (suc (suc zero))) h = omega arith
power_small (suc (suc (suc (suc zero)))) h = omega arith
power_small (suc (suc (suc (suc (suc zero))))) h = omega arith
power_small (suc (suc (suc (suc (suc (suc zero)))))) h = omega arith
power_small (suc (suc (suc (suc (suc (suc (suc zero))))))) h = omega arith
power_small (suc (suc (suc (suc (suc (suc (suc (suc i)))))))) h = absurd (omega arith)

module _ {T : Type 0} (test : T → Bool) where
  set_one-lt :
      (b : Bool) (byte i : ℕ)
      → byte < 2 ^ 8
      → i < 8
      → (if b then bit_or byte (2 ^ i) else byte) < 2 ^ 8
  set_one-lt true byte i h l = bit_or-lt 8 byte (2 ^ i) h (power_small i l)
  set_one-lt false byte i h l = h

  pack-lt :
      (i byte : ℕ) (vs : List T) → byte < 2 ^ 8 → i + length vs ≤ 8 → pack test i byte vs < 2 ^ 8
  unfolding pack
  pack-lt i byte [] h l = h
  pack-lt i byte (v ∷ vs) h l =
      pack-lt (suc i) (if test v then bit_or byte (2 ^ i) else byte) vs
        (set_one-lt (test v) byte i h (omega arith)) (omega arith)

  byte_of-lt : (vp : Option Mask) (b : ℕ) (vs : List T) → length vs ≤ 8 → byte_of test vp b vs < 256
  unfolding byte_of
  byte_of-lt none b vs l = pack-lt 0 0 vs (omega arith) (omega arith)
  byte_of-lt (some vp) b vs l =
      bit_and-lt 8 (pack test 0 0 vs) (get_or vp b 0) (pack-lt 0 0 vs (omega arith) (omega arith))

  length-take : (k : ℕ) (vs : List T) → length (take k vs) ≤ k
  length-take zero vs = omega arith
  length-take (suc k) [] = omega arith
  length-take (suc k) (v ∷ vs) = omega (arith, length-take k vs)

  eval_blocks-IsBytes :
      (vp : Option Mask) (nb b : ℕ) (vs : List T)
      → length vs < nb * 8 + 8
      → IsBytes (eval_blocks test vp nb b vs)
  unfolding eval_blocks
  eval_blocks-IsBytes vp zero b [] h = tt
  eval_blocks-IsBytes vp zero b (v ∷ vs) h = (byte_of-lt vp b (v ∷ vs) (omega arith), tt)
  eval_blocks-IsBytes vp (suc nb) b vs h =
      let size = length-drop test 8 vs in
      (
        byte_of-lt vp b (take 8 vs) (length-take 8 vs),
        eval_blocks-IsBytes vp nb (suc b) (drop 8 vs) (omega arith),
      )

  length-eval_blocks :
      (vp : Option Mask) (nb b : ℕ) (vs : List T)
      → nb * 8 ≤ length vs
      → length vs < nb * 8 + 8
      → length (eval_blocks test vp nb b vs) ≡ (length vs + 7) / 8
  unfolding eval_blocks
  length-eval_blocks vp zero b [] h k = omega arith
  length-eval_blocks vp zero b (v ∷ vs) h k = omega arith
  length-eval_blocks vp (suc nb) b vs h k =
      let size = length-drop test 8 vs in
      let rest = length-eval_blocks vp nb (suc b) (drop 8 vs) (omega arith) (omega arith) in
      omega arith

  complement_row :
      (vs : List T) (vp : Option Mask) (i : ℕ)
      → bit_is_set (bitwise_not (eval_rows test vs vp) (length vs)) i
        ≡ (not (passes test vs i && is_valid vp i) && ltb i (length vs))
  unfolding eval_rows bitmask_bytes
  complement_row vs vp i =
      bit_is_set-bitwise_not (eval_rows test vs vp) (length vs) i
        (eval_blocks-IsBytes vp (length vs / 8) 0 vs (omega arith))
        (length-eval_blocks vp (length vs / 8) 0 vs (omega arith) (omega arith))
      ∙ ap (λ b. not b && ltb i (length vs)) (bit_is_set-eval_rows test vs vp i)

  passes-not :
      (other : T → Bool) (vs : List T) (i : ℕ)
      → ((v : T) → other v ≡ not (test v))
      → passes other vs i ≡ (not (passes test vs i) && ltb i (length vs))
  passes-not other [] i h = ground arith
  passes-not other (v ∷ vs) zero h =
      let first : ltb 0 (suc (length vs)) ≡ true = ground arith in rw (first, h v) (ground arith)
  passes-not other (v ∷ vs) (suc i) h = passes-not other vs i h ∙ ground arith

null_split : (p v l : Bool) → (not (p && v) && l) ≡ (((not p && l) && v) || (not v && l))
null_split true true l = refl
null_split true false true = refl
null_split true false false = refl
null_split false true true = refl
null_split false true false = refl
null_split false false true = refl
null_split false false false = refl

-- The operator of a comparison in a condition.
abbrev pub op_type : CompareOp → OpType
op_type op_gt = OpType.gt
op_type op_lt = OpType.less_than
op_type op_gte = OpType.gte
op_type op_lte = OpType.lte
op_type op_eq = OpType.eq
op_type op_neq = OpType.neq

abbrev pub inverted : CompareOp → CompareOp
inverted op = num_op_index (invert_op (op_type op))

module _ {T : Type 0} (e : Elements T) (order : IsOrder e) where
  scmp-inverted : (op : CompareOp) (t v : T) → scmp e (inverted op) v t ≡ not (scmp e op v t)
  unfolding invert_op
  scmp-inverted op_gt t v = ground (arith, order.same_lem v t, order.asymmetric v t)
  scmp-inverted op_lt t v = ground (arith, order.same_lem v t, order.asymmetric v t)
  scmp-inverted op_gte t v = ground (arith, order.same_lem v t, order.asymmetric v t)
  scmp-inverted op_lte t v = ground (arith, order.same_lem v t, order.asymmetric v t)
  scmp-inverted op_eq t v = refl
  scmp-inverted op_neq t v = ground arith

  -- On an element type whose order has no NaN, the kernel of the operator that `invert_op` gives and the complement of
  -- the mask of the operator agree on valid rows; on a null row the first has no bit and the second
  -- has one.
  pub eval_num-bitwise_not :
      {D : Type 0} (cast : D → T) (op : CompareOp) (thr : D) (vs : List T) (vp : Option Mask)
      (i : ℕ)
      → (bit_is_set (eval_num e cast (inverted op) vs vp thr) i ≡ (
          is_valid vp i && bit_is_set (bitwise_not (eval_num e cast op vs vp thr) (length vs)) i))
        × (bit_is_set (bitwise_not (eval_num e cast op vs vp thr) (length vs)) i ≡ (
            bit_is_set (eval_num e cast (inverted op) vs vp thr) i
            || (not (is_valid vp i) && ltb i (length vs))))
  unfolding eval_num
  eval_num-bitwise_not cast op thr vs vp i =
      let t = cast thr in
      let test : T → Bool = λ v. scmp e op v t in
      let other : T → Bool = λ v. scmp e (inverted op) v t in
      let complement = complement_row test vs vp i in
      let direct = bit_is_set-eval_rows other vs vp i in
      let opposite = passes-not test other vs i (scmp-inverted op t) in
      (
        direct ∙ rw (complement, opposite) (ground arith),
        complement
            ∙ rw (direct, opposite)
                (null_split (passes test vs i) (is_valid vp i) (ltb i (length vs))),
      )
