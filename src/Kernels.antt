-- ===== src/Kernels.antt =====
-- The scalar kernels of src/core/kernels.cpp. A column is the list of its values, its validity an
-- optional mask. The comparisons of the element type, `Elements`, and the cast of a `double` constant
-- to it, `cast`, are parameters.
pub mod Rows
pub mod Meaning
pub mod Zones
pub mod Bounds
pub mod Decide
pub mod Predicate
pub mod Choice
pub mod Negate
pub mod Examples
use Prim.Native.Nat.{bit_and, bit_or}
use blazerules.Prelude.{
  ℕ, zero, suc, ◌+◌, ◌/◌, ◌^◌, Bool, true, false, not, ◌&&◌, ◌||◌, List, [], ◌∷◌, Option, none,
  some, if◌then◌else◌, get_or, length, ℤ, pos, negsuc, eqb,
}
use blazerules.Bitmask.{Mask}

-- `<` and `==` of an element type, where neither need hold of a NaN.
pub record Elements (T : Type 0) : Type 0 where
  pub less : T → T → Bool
  pub same : T → T → Bool

pub data CompareOp : Type 0 where
  op_gt op_lt op_gte op_lte op_eq op_neq : CompareOp

abbrev pub scmp : {T : Type 0} → Elements T → CompareOp → T → T → Bool
scmp e op_gt a b = e.less b a
scmp e op_lt a b = e.less a b
scmp e op_gte a b = e.less b a || e.same a b
scmp e op_lte a b = e.less a b || e.same a b
scmp e op_eq a b = e.same a b
scmp e op_neq a b = not (e.same a b)

module _ {T : Type 0} where
  abbrev pub take : ℕ → List T → List T
  take zero s = []
  take (suc n) [] = []
  take (suc n) (v ∷ s) = v ∷ take n s

  abbrev pub drop : ℕ → List T → List T
  drop zero s = s
  drop (suc n) [] = []
  drop (suc n) (v ∷ s) = drop n s

  module _ (test : T → Bool) where
    -- `byte |= 1u << i` for each value that passes, from `i` on.
    unfoldable pub pack : ℕ → ℕ → List T → ℕ
    pack i byte [] = byte
    pack i byte (v ∷ vs) = pack (suc i) (if test v then bit_or byte (2 ^ i) else byte) vs

    unfoldable pub byte_of : Option Mask → ℕ → List T → ℕ
    unfolding pack
    byte_of none b vs = pack 0 0 vs
    byte_of (some vp) b vs = bit_and (pack 0 0 vs) (get_or vp b 0)

    -- The loop over blocks of eight, and the block that is left.
    unfoldable pub eval_blocks : Option Mask → ℕ → ℕ → List T → Mask
    unfolding byte_of
    eval_blocks vp zero b [] = []
    eval_blocks vp zero b (v ∷ vs) = byte_of vp b (v ∷ vs) ∷ []
    eval_blocks vp (suc nb) b data_ =
        byte_of vp b (take 8 data_) ∷ eval_blocks vp nb (suc b) (drop 8 data_)

    unfoldable pub eval_rows : List T → Option Mask → Mask
    unfolding eval_blocks
    eval_rows data_ vp = eval_blocks vp (length data_ / 8) 0 data_

unfoldable pub eval_num :
    {T D : Type 0} → Elements T → (D → T) → CompareOp → List T → Option Mask → D → Mask
unfolding eval_rows
eval_num e cast op data_ vp thr = let t = cast thr in eval_rows (λ v. scmp e op v t) data_ vp

abbrev pub in_range : {T : Type 0} → Elements T → Bool → T → T → T → Bool
in_range e true lo hi v = scmp e op_gte v lo && scmp e op_lte v hi
in_range e false lo hi v = scmp e op_gt v lo && scmp e op_lt v hi

unfoldable pub eval_range :
    {T D : Type 0} → Elements T → (D → T) → Bool → List T → Option Mask → D → D → Mask
unfolding eval_rows
eval_range e cast incl data_ vp lo hi = eval_rows (in_range e incl (cast lo) (cast hi)) data_ vp

abbrev pub in_set : List ℤ → ℤ → Bool
in_set [] v = false
in_set (id ∷ ids) v = eqb v id || in_set ids v

unfoldable pub eval_in_dict : List ℤ → Option Mask → List ℤ → Mask
unfolding eval_rows
eval_in_dict d vp ids = eval_rows (in_set ids) d vp

unfoldable pub eval_not_in_dict : List ℤ → Option Mask → List ℤ → Mask
unfolding eval_rows
eval_not_in_dict d vp ids = eval_rows (λ v. not (in_set ids v)) d vp

abbrev pub first_id : List ℤ → ℤ
first_id [] = negsuc 0
first_id (id ∷ ids) = id

unfoldable pub eval_eq_dict : List ℤ → Option Mask → List ℤ → Mask
unfolding eval_rows
eval_eq_dict d vp ids = eval_rows (λ v. eqb v (first_id ids)) d vp
