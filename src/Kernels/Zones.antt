-- ===== src/Kernels/Zones.antt =====
-- Zone maps of src/core/orchestrator.cpp: the least and the greatest value of a morsel, as `double`,
-- decide a predicate without the kernel. `widen` is the conversion of an element to `double`.
use blazerules.Prelude.{
  ℕ, Bool, true, false, ◌&&◌, ◌||◌, List, [], ◌∷◌, Option, none, some, if◌then◌else◌, replicate,
}
use blazerules.Bitmask.{Mask, bitmask_bytes, fill_true}
use blazerules.Kernels.{Elements, CompareOp, op_gt, op_lt, op_gte, op_lte, op_eq, op_neq, scmp}

pub record ZoneMap (D : Type 0) : Type 0 where
  pub min_value : D
  pub max_value : D

module _ {T D : Type 0} (e : Elements D) (widen : T → D) where
  abbrev pub std_min : D → D → D
  std_min a b = if e.less b a then b else a

  abbrev pub std_max : D → D → D
  std_max a b = if e.less a b then b else a

  unfoldable pub scan_zone : ZoneMap D → List T → ZoneMap D
  scan_zone zone [] = zone
  scan_zone zone (v ∷ vs) =
      scan_zone
        (record {
          min_value = std_min zone.min_value (widen v);
          max_value = std_max zone.max_value (widen v);
        })
        vs

  -- A zone that is not ready is `none`.
  unfoldable pub compute_zone : List T → Option (ZoneMap D)
  unfolding scan_zone
  compute_zone [] = none
  compute_zone (v ∷ vs) = some (scan_zone (record { min_value = widen v; max_value = widen v }) vs)

abbrev pub decided : Bool → Bool → ℕ → Option Mask
decided never always m =
    if never
    then some (replicate (bitmask_bytes m) 0)
    else if always
    then some (fill_true m)
    else none

module _ {D : Type 0} (e : Elements D) where
  abbrev pub all_false : CompareOp → D → ZoneMap D → Bool
  all_false op_gt t zone = scmp e op_lte zone.max_value t
  all_false op_gte t zone = scmp e op_lt zone.max_value t
  all_false op_lt t zone = scmp e op_gte zone.min_value t
  all_false op_lte t zone = scmp e op_gt zone.min_value t
  all_false op_eq t zone = scmp e op_lt t zone.min_value || scmp e op_gt t zone.max_value
  all_false op_neq t zone = scmp e op_eq zone.min_value t && scmp e op_eq zone.max_value t

  abbrev pub all_true : CompareOp → D → ZoneMap D → Bool
  all_true op_gt t zone = scmp e op_gt zone.min_value t
  all_true op_gte t zone = scmp e op_gte zone.min_value t
  all_true op_lt t zone = scmp e op_lt zone.max_value t
  all_true op_lte t zone = scmp e op_lte zone.max_value t
  all_true op_eq t zone = false
  all_true op_neq t zone = scmp e op_lt t zone.min_value || scmp e op_gt t zone.max_value

  -- `none` where the kernel has to run.
  unfoldable pub try_zone_numeric : CompareOp → D → Option (ZoneMap D) → ℕ → Option Mask
  unfolding bitmask_bytes fill_true
  try_zone_numeric op t none m = none
  try_zone_numeric op t (some zone) m = decided (all_false op t zone) (all_true op t zone) m

  abbrev pub range_false : Bool → D → D → ZoneMap D → Bool
  range_false true lo hi zone = scmp e op_lt zone.max_value lo || scmp e op_gt zone.min_value hi
  range_false false lo hi zone = scmp e op_lte zone.max_value lo || scmp e op_gte zone.min_value hi

  abbrev pub range_true : Bool → D → D → ZoneMap D → Bool
  range_true true lo hi zone = scmp e op_gte zone.min_value lo && scmp e op_lte zone.max_value hi
  range_true false lo hi zone = scmp e op_gt zone.min_value lo && scmp e op_lt zone.max_value hi

  unfoldable pub try_zone_range : Bool → D → D → Option (ZoneMap D) → ℕ → Option Mask
  unfolding bitmask_bytes fill_true
  try_zone_range incl lo hi none m = none
  try_zone_range incl lo hi (some zone) m =
      decided (range_false incl lo hi zone) (range_true incl lo hi zone) m
