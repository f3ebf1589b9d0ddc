-- ===== src/Kernels/Examples.antt =====
-- A column of nine numbers, one of them null, and zones with a NaN.
use blazerules.Prelude.{
  ℕ, zero, suc, ◌<◌, ◌*◌, ◌/◌, ◌≡◌, refl, Bool, true, false, not, ◌&&◌, ◌||◌, List, [], ◌∷◌, Option,
  none, some, ltb, ◌==◌, ℤ, pos, negsuc, arith,
}
use blazerules.Bitmask.{Mask, bitwise_not, bit_is_set}
use blazerules.Kernels.{
  Elements, op_gt, op_eq, eval_num, eval_range, eval_in_dict, eval_not_in_dict, eval_eq_dict,
}
use blazerules.Kernels.Rows.{passes, is_valid}
use blazerules.Kernels.Meaning.{compares, is_between, Member, Selects, kernel_rows}
use blazerules.Kernels.Zones.{compute_zone, try_zone_numeric, try_zone_range}
use blazerules.Compile.{invert_op}
use blazerules.Kernels.Negate.{inverted, eval_num-bitwise_not}
use blazerules.Kernels.Bounds.{IsOrder}
use blazerules.Kernels.Predicate.{ColView, numeric_predicate, eval_predicate}
use blazerules.Kernels.Choice.{CountsNulls, satisfies, eval_predicate-rows}
use blazerules.Kernels.Decide.{IsWidened, try_zone_numeric-eval_num, try_zone_range-eval_range}

abbrev naturals : Elements ℕ
naturals = record { less = ltb; same = λ a b. a == b }

-- Numbers in halves, which a `double` holds and the element type does not.
abbrev widen : ℕ → ℕ
widen n = 2 * n

abbrev cast : ℕ → ℕ
cast n = n / 2

naturals-IsOrder : IsOrder naturals
naturals-IsOrder = record {
  asymmetric = λ a b. ground arith;
  splits = λ a b c. ground arith;
  same_lem = λ a b. ground arith;
}

naturals-IsWidened : IsWidened naturals naturals widen
naturals-IsWidened = record { less_lem = λ a b. ground arith; same_lem = λ a b. ground arith }

abbrev column : List ℕ
column = 5 ∷ 1 ∷ 9 ∷ 2 ∷ 7 ∷ 3 ∷ 8 ∷ 4 ∷ 6 ∷ []

abbrev ids : List ℤ
ids = pos 1 ∷ pos 2 ∷ []

abbrev codes : List ℤ
codes = pos 0 ∷ pos 2 ∷ negsuc 0 ∷ []

-- All rows but the fifth are valid.
abbrev validity : Option Mask
validity = some (239 ∷ 1 ∷ [])

column_run : eval_num naturals cast op_gt column validity 9 ≡ 69 ∷ 1 ∷ []
unfolding eval_num
column_run = refl

kernel_rows_example :
    (bit_is_set (eval_num naturals cast op_gt column validity 9) 4
      ≡ (passes (λ v. compares naturals op_gt v 4) column 4 && is_valid validity 4))
    × (bit_is_set (eval_range naturals cast true column validity 4 15) 4
        ≡ (passes (is_between naturals true 2 7) column 4 && is_valid validity 4))
    × Selects (eval_in_dict codes validity ids) validity (λ v. Member v ids) codes 4
    × Selects (eval_not_in_dict codes validity ids) validity (λ v. Member v ids → ⊥) codes 4
    × Selects (eval_eq_dict codes validity (pos 2 ∷ ids)) validity (λ v. v ≡ pos 2) codes 4
    × Selects (eval_eq_dict codes validity []) validity (λ v. v ≡ negsuc 0) codes 4
kernel_rows_example =
    kernel_rows naturals cast naturals-IsOrder op_gt true 9 4 15 column codes ids (pos 2) validity 4

abbrev morsel : List ℕ
morsel = 5 ∷ 7 ∷ 9 ∷ []

morsel_run :
    try_zone_numeric naturals op_gt 6 (compute_zone naturals widen morsel) 3 ≡ some (7 ∷ [])
unfolding try_zone_numeric compute_zone
morsel_run = refl

range_run : try_zone_range naturals true 2 8 (compute_zone naturals widen morsel) 3 ≡ some (0 ∷ [])
unfolding try_zone_range compute_zone
range_run = refl

try_zone_numeric-eval_num_example :
    bit_is_set (7 ∷ []) 2 ≡ bit_is_set (eval_num naturals cast op_gt morsel none 6) 2
try_zone_numeric-eval_num_example =
    try_zone_numeric-eval_num naturals naturals widen cast naturals-IsOrder naturals-IsWidened op_gt
      6 morsel (7 ∷ []) 2 refl morsel_run

try_zone_range-eval_range_example :
    bit_is_set (0 ∷ []) 1 ≡ bit_is_set (eval_range naturals cast true morsel none 2 8) 1
try_zone_range-eval_range_example =
    try_zone_range-eval_range naturals naturals widen cast naturals-IsOrder naturals-IsWidened true
      2 8 morsel (0 ∷ []) 1 refl refl range_run

abbrev morsel_column : ColView ℕ
morsel_column = record { values = morsel; validity = some (7 ∷ []); has_nulls = false }

morsel_rows : (i : ℕ) → i < 3 → bit_is_set (7 ∷ []) i ≡ true
unfolding bit_is_set
morsel_rows zero h = refl
morsel_rows (suc zero) h = refl
morsel_rows (suc (suc zero)) h = refl
morsel_rows (suc (suc (suc i))) h = absurd (omega arith)

morsel_counts : CountsNulls morsel_column
morsel_counts = λ h i l. morsel_rows i l

eval_predicate-rows_example :
    bit_is_set
      (eval_predicate naturals naturals widen cast (numeric_predicate op_gt 12) 2 morsel_column)
      1
    ≡ (passes (λ v. satisfies naturals (numeric_predicate op_gt 12) (widen v)) morsel 1
        && is_valid (some (7 ∷ [])) 1)
eval_predicate-rows_example =
    eval_predicate-rows naturals naturals widen cast naturals-IsOrder naturals-IsWidened
      (numeric_predicate op_gt 12) 2 morsel_column 1 morsel_counts refl

-- A threshold that the element type does not hold: the kernel casts 6.5 to 6 and finds every row
-- equal to it, and the zone map none.
cast_kernel : eval_num naturals cast op_eq (6 ∷ 6 ∷ []) none 13 ≡ 3 ∷ []
unfolding eval_num
cast_kernel = refl

cast_zone :
    try_zone_numeric naturals op_eq 13 (compute_zone naturals widen (6 ∷ 6 ∷ [])) 2 ≡ some (0 ∷ [])
unfolding try_zone_numeric compute_zone
cast_zone = refl

-- The fifth row is null.
eval_num-bitwise_not_example :
    (bit_is_set (eval_num naturals cast (inverted op_gt) column validity 9) 4 ≡ (
      is_valid validity 4
      && bit_is_set (bitwise_not (eval_num naturals cast op_gt column validity 9) 9) 4))
    × (bit_is_set (bitwise_not (eval_num naturals cast op_gt column validity 9) 9) 4 ≡ (
        bit_is_set (eval_num naturals cast (inverted op_gt) column validity 9) 4
        || (not (is_valid validity 4) && ltb 4 9)))
eval_num-bitwise_not_example =
    eval_num-bitwise_not naturals naturals-IsOrder cast op_gt 9 column validity 4

null_row : bit_is_set (eval_num naturals cast (inverted op_gt) column validity 9) 4 ≡ false
unfolding eval_num invert_op bit_is_set
null_row = refl

null_row_complement :
    bit_is_set (bitwise_not (eval_num naturals cast op_gt column validity 9) 9) 4 ≡ true
unfolding eval_num bitwise_not bit_is_set
null_row_complement = refl

-- Numbers with a NaN.
data Float : Type 0 where
  fin : ℕ → Float
  nan : Float

abbrev float_less : Float → Float → Bool
float_less (fin a) (fin b) = ltb a b
float_less _ _ = false

abbrev float_same : Float → Float → Bool
float_same (fin a) (fin b) = a == b
float_same _ _ = false

abbrev floats : Elements Float
floats = record { less = float_less; same = float_same }

-- The kernel leaves the NaN out, and the zone map does not.
nan_kernel : eval_num floats (λ v. v) op_gt (fin 5 ∷ nan ∷ []) none (fin 3) ≡ 1 ∷ []
unfolding eval_num
nan_kernel = refl

nan_zone :
    try_zone_numeric floats op_gt (fin 3) (compute_zone floats (λ v. v) (fin 5 ∷ nan ∷ [])) 2
    ≡ some (3 ∷ [])
unfolding try_zone_numeric compute_zone
nan_zone = refl
