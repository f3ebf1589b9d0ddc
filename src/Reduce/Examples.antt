-- ===== src/Reduce/Examples.antt =====
-- Two rules that match the first of two rows with the same key, and a shadow rule.
use mathlib.Core.Option
use blazerules.Prelude.{
  ℕ, ◌+◌, ◌≡◌, refl, Bool, true, false, List, [], ◌∷◌, some, get_elem?, length, ltb, ◌==◌, All,
  arith, ℤ, pos,
}
use blazerules.Bitmask.{Mask, IsBytes, bitmask_bytes}
use blazerules.Reduce.{
  Floats, ActionType, block, review, RuleSeverity, high, RuleReduce, RowState, rule_reduce,
  initial_row, reduce_rules,
}
use blazerules.Reduce.Winner.{Outcome, update_rows}
use blazerules.Reduce.Rows.{matches_at, reduce_rules-rows}
use blazerules.Reduce.Morsel.{reduce_rules-Outcome}

-- Scores that are whole numbers.
abbrev whole : Floats ℕ
whole = record {
  zero = 0;
  of_nat = λ n. n;
  add = λ a b. a + b;
  greater = λ a b. ltb b a;
  equal = λ a b. a == b;
}

abbrev rule : ActionType → RuleSeverity → Bool → ℤ → RuleReduce ℕ
rule action severity shadow code = rule_reduce whole (record {
  action = action;
  rank = pos 0;
  code = code;
  severity = severity;
  priority = pos 5;
  weight = 0;
  score_cap = 50;
  shadow = shadow;
})

abbrev rules : List (RuleReduce ℕ × Mask)
rules =
    (rule review high false (pos 7), 1 ∷ [])
    ∷ (rule block high true (pos 9), 3 ∷ [])
    ∷ (rule review high false (pos 8), 3 ∷ [])
    ∷ []

abbrev start : List (RowState ℕ)
start = initial_row whole (pos 0) (pos 0) ∷ initial_row whole (pos 0) (pos 0) ∷ []

rules_sized : All (λ (r : RuleReduce ℕ × Mask). IsBytes r.1 × (length r.1 ≡ bitmask_bytes 2)) rules
unfolding bitmask_bytes
rules_sized =
    (((omega arith, tt), refl), (((omega arith, tt), refl), (((omega arith, tt), refl), tt)))

reduce_rules-rows_example :
    get_elem? (reduce_rules whole 0 2 0 rules start) 1
    ≡ Option.map (update_rows whole (matches_at 0 rules 1)) (get_elem? start 1)
reduce_rules-rows_example = reduce_rules-rows whole 0 2 0 rules start 1 rules_sized

reduce_rules-Outcome_example :
    (final : RowState ℕ) × (get_elem? (reduce_rules whole 0 2 0 rules start) 0 ≡ some final)
    × Outcome (matches_at 0 rules 0) (initial_row whole (pos 0) (pos 0)) final
reduce_rules-Outcome_example =
    reduce_rules-Outcome whole 0 2 0 rules start 0 (initial_row whole (pos 0) (pos 0)) rules_sized
      (omega arith) (omega arith) refl
