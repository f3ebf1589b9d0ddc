-- ===== src/Reduce/Morsel.antt =====
-- The decision of a row after all rules.
use blazerules.Prelude.{
  ℕ, ◌+◌, ◌-◌, ◌<◌, ◌≤◌, ◌≡◌, refl, ◌∙◌, true, ◌&&◌, List, some, get_elem?, length, ltb, leb, All,
  arith,
}
use blazerules.Bitmask.{Mask, IsBytes, bitmask_bytes}
use blazerules.Reduce.{Floats, RuleReduce, RowState, reduce_rules}
use blazerules.Reduce.Winner.{Outcome, update_rows, update_rows-Outcome}
use blazerules.Reduce.Rows.{matches_at, reduce_rules-rows}

-- For masks of the morsel's size and a row of the morsel: after the reduction, the row has the
-- action rank, severity, priority, decision code and winning rule of the first of the best among
-- the rules that match it and are not shadow rules (best by rank, then severity, then priority),
-- or, if none of them beats what the row began with, it keeps what it began with.
pub reduce_rules-Outcome :
    {F : Type 0} (floats : Floats F) (r0 m r : ℕ) (rules : List (RuleReduce F × Mask))
    (states : List (RowState F)) (i : ℕ) (st : RowState F)
    → All (λ rule. IsBytes rule.1 × (length rule.1 ≡ bitmask_bytes m)) rules
    → r0 ≤ i
    → i < r0 + m
    → get_elem? states i ≡ some st
    → (final : RowState F) × (get_elem? (reduce_rules floats r0 m r rules states) i ≡ some final)
      × Outcome (matches_at r rules (i - r0)) st final
reduce_rules-Outcome floats r0 m r rules states i st h lo hi e =
    let inside : (leb r0 i && ltb i (r0 + m)) ≡ true = ground arith in
    let at_row = reduce_rules-rows floats r0 m r rules states i h in
    (
      update_rows floats (matches_at r rules (i - r0)) st,
      at_row ∙ rw (inside, e) refl,
      update_rows-Outcome floats (matches_at r rules (i - r0)) st,
    )
