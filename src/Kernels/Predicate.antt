-- ===== src/Kernels/Predicate.antt =====
-- The numeric part of `eval_predicate` of src/core/orchestrator.cpp on one morsel: a zone map where
-- the column has one, else the kernel. A threshold is a `double`, which the kernel casts to the
-- element type and the zone map does not.
use blazerules.Prelude.{ℕ, Bool, not, ◌&&◌, List, Option, none, some, if◌then◌else◌, ltb, length}
use blazerules.Bitmask.{Mask}
use blazerules.Compile.{OpType}
use blazerules.Kernels.{
  Elements, CompareOp, op_gt, op_lt, op_gte, op_lte, op_eq, op_neq, eval_num, eval_range,
}
use blazerules.Kernels.Zones.{ZoneMap, compute_zone, try_zone_numeric, try_zone_range}

abbrev pub num_op_index : OpType → CompareOp
num_op_index OpType.gt = op_gt
num_op_index OpType.less_than = op_lt
num_op_index OpType.gte = op_gte
num_op_index OpType.lte = op_lte
num_op_index OpType.eq = op_eq
num_op_index OpType.neq = op_neq
num_op_index _ = op_gt

-- The rows of a column in the morsel.
pub record ColView (T : Type 0) : Type 0 where
  pub values : List T
  pub validity : Option Mask
  pub has_nulls : Bool

pub data NumericOp (D : Type 0) : Type 0 where
  numeric_predicate : CompareOp → D → NumericOp D
  -- With its ends or without.
  numeric_range_predicate : Bool → D → D → NumericOp D

abbrev pub or_kernel : Option Mask → Mask → Mask
or_kernel none kernel = kernel
or_kernel (some mask) kernel = mask

module _ {T D : Type 0} (e : Elements T) (wide : Elements D) (widen : T → D) (cast : D → T) where
  -- Zones are computed for a column that more than one predicate reads and that has no nulls.
  unfoldable pub zone_of_column : ℕ → ColView T → Option (ZoneMap D)
  unfolding compute_zone
  zone_of_column predicate_count col =
      if ltb 1 predicate_count && not col.has_nulls
      then compute_zone wide widen col.values
      else none

  unfoldable pub eval_predicate : NumericOp D → ℕ → ColView T → Mask
  unfolding zone_of_column try_zone_numeric try_zone_range eval_num eval_range
  eval_predicate (numeric_predicate op thr) predicate_count col =
      or_kernel
        (try_zone_numeric wide op thr (zone_of_column predicate_count col) (length col.values))
        (eval_num e cast op col.values col.validity thr)
  eval_predicate (numeric_range_predicate incl lo hi) predicate_count col =
      or_kernel
        (try_zone_range wide incl lo hi (zone_of_column predicate_count col) (length col.values))
        (eval_range e cast incl col.values col.validity lo hi)
