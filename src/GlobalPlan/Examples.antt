-- ===== src/GlobalPlan/Examples.antt =====
-- Two rules that share a predicate, on two rows whose fields are 7 and 12.
use mathlib.Core.Path.{subst}
use blazerules.Prelude.{
  ℕ, zero, suc, ◌<◌, ◌≡◌, refl, ap, Bool, true, false, List, [], ◌∷◌, ◌==◌, ◌&&◌, if◌then◌else◌,
  none, some, length, ltb, leb, All, arith,
}
use blazerules.Bitmask
use blazerules.Bitmask.{Mask, IsBytes, bitmask_bytes, bit_is_set}
use blazerules.Expr.{RuleExprKind, EvalOptions, eval_rule}
use blazerules.Expr.Loops.{Represents}
use blazerules.Compile
use blazerules.Compile.{
  OpType, Kind, Leaf, Condition, leaf, conjunction, negation, nil, cons, compile, invert_op,
  inverts,
}
use blazerules.Compile.Meaning.{Negates, meaning}
use blazerules.GlobalPlan
use blazerules.GlobalPlan.{RuleEvalPlan, build_rule, build_global_plan}
use blazerules.GlobalPlan.Append.{Extends}
use blazerules.GlobalPlan.Rules.{compile_rules, build_global_plan-meaning, build_global_plan-total}
use blazerules.GlobalPlan.Built.{Agrees}
use blazerules.GlobalPlan.Correct.{IsRulePlan, IsSound, empty, build_rule-IsRulePlan}

abbrev op_code : OpType → ℕ
op_code OpType.gt = 1
op_code OpType.lte = 2
op_code _ = 0

abbrev field : ℕ → ℕ
field zero = 7
field (suc row) = 12

abbrev holds : ℕ → Leaf ℕ → Bool
holds row l =
    if op_code l.op == 1
    then ltb l.operands (field row)
    else op_code l.op == 2 && leb (field row) l.operands

abbrev same_key : Leaf ℕ → Leaf ℕ → Bool
same_key p l = (op_code p.op == op_code l.op) && (p.operands == l.operands)

same_key-IsSound : IsSound same_key holds
same_key-IsSound row p l e =
    let ops : op_code p.op ≡ op_code l.op = ground (arith, e) in
    let operands : p.operands ≡ l.operands = ground (arith, e) in rw (ops, operands) refl

abbrev above : ℕ → Leaf ℕ
above n = record { kind = Kind.numeric; op = OpType.gt; operands = n }

abbrev at_most : ℕ → Leaf ℕ
at_most n = record { kind = Kind.numeric; op = OpType.lte; operands = n }

abbrev between : Condition ℕ
between = conjunction (cons (leaf (above 5)) (cons (negation (leaf (above 9))) nil))

between-Negates : (row : ℕ) → Negates (holds row) between
unfolding Negates inverts invert_op
between-Negates zero = (tt, (refl, tt))
between-Negates (suc row) = (tt, (refl, tt))

abbrev plan : RuleEvalPlan
plan = record {
  nodes =
      record {
        kind = RuleExprKind.predicate;
        predicate_index = 0;
        children = [];
        original_children = [];
      }
      ∷ record {
        kind = RuleExprKind.predicate;
        predicate_index = 1;
        children = [];
        original_children = [];
      }
      ∷ record {
        kind = RuleExprKind.conjunction;
        predicate_index = 0;
        children = 0 ∷ 1 ∷ [];
        original_children = 0 ∷ 1 ∷ [];
      }
      ∷ [];
  root_node = 2;
}

abbrev first_plan : RuleEvalPlan
first_plan = record {
  nodes =
      record {
        kind = RuleExprKind.predicate;
        predicate_index = 0;
        children = [];
        original_children = [];
      }
      ∷ [];
  root_node = 0;
}

abbrev conditions : List (Condition ℕ)
conditions = leaf (above 5) ∷ between ∷ []

conditions-Negate : (row : ℕ) → All (Negates (holds row)) conditions
unfolding Negates
conditions-Negate row = (tt, (between-Negates row, tt))

plans_run :
    build_global_plan same_key (compile_rules conditions) []
    ≡ some (first_plan ∷ plan ∷ [], above 5 ∷ at_most 9 ∷ [])
unfolding build_global_plan build_rule blazerules.GlobalPlan.build blazerules.GlobalPlan.build_op
    blazerules.GlobalPlan.intern blazerules.GlobalPlan.find_key blazerules.GlobalPlan.add_node
    blazerules.GlobalPlan.nodes_of blazerules.GlobalPlan.sort_by blazerules.GlobalPlan.insert_by
    blazerules.GlobalPlan.expr_cost blazerules.GlobalPlan.predicate_cost compile
    blazerules.Compile.emit blazerules.Compile.negate_leaf inverts invert_op
plans_run = refl

abbrev options : EvalOptions
options = record {
  enable_selection_vectors = false;
  selection_limit = λ m. 0;
  enable_adaptive_predicate_ordering = true;
}

abbrev masks : List Mask
masks = (3 ∷ []) ∷ (1 ∷ []) ∷ []

masks_sized : All (λ mask. IsBytes mask × (length mask ≡ bitmask_bytes 2)) masks
unfolding blazerules.Bitmask.bitmask_bytes
masks_sized = (((omega arith, tt), refl), (((omega arith, tt), refl), tt))

leaf-inj : (p q : Leaf ℕ) → some p ≡ some q → p ≡ q
leaf-inj p q e = ap (λ o. elim o [ none ↦ p | some x ↦ x ]) e

agrees : (row : ℕ) → row < 2 → Agrees (holds row) row masks (above 5 ∷ at_most 9 ∷ [])
unfolding bit_is_set
agrees zero l zero p e = subst (λ q. true ≡ holds 0 q) (leaf-inj _ _ e) refl
agrees zero l (suc zero) p e = subst (λ q. true ≡ holds 0 q) (leaf-inj _ _ e) refl
agrees (suc zero) l zero p e = subst (λ q. true ≡ holds 1 q) (leaf-inj _ _ e) refl
agrees (suc zero) l (suc zero) p e = subst (λ q. false ≡ holds 1 q) (leaf-inj _ _ e) refl
agrees row l (suc (suc i)) p e = absurd (ground arith)
agrees (suc (suc row)) l i p e = absurd (omega arith)

build_rule-IsRulePlan_example :
    (plan : RuleEvalPlan) × (ps' : List (Leaf ℕ)) × (build_rule same_key
        (compile between empty).1.seq
        (compile between empty).0
        (above 5 ∷ [])
      ≡ some (plan, ps'))
    × IsRulePlan (length ps') plan
build_rule-IsRulePlan_example =
    build_rule-IsRulePlan same_key holds between (above 5 ∷ []) same_key-IsSound between-Negates

build_global_plan-meaning_example :
    (mask : Mask) × (eval_rule plan.nodes plan.root_node masks options 2 [] ≡ some mask)
    × Represents 2 (λ row. meaning (holds row) between) mask
build_global_plan-meaning_example =
    build_global_plan-meaning same_key holds conditions (first_plan ∷ plan ∷ [])
      (above 5 ∷ at_most 9 ∷ []) 1 between plan masks options 2 [] same_key-IsSound
      conditions-Negate plans_run refl refl (omega arith) masks_sized agrees
      (λ e. absurd (ground arith))

build_global_plan-total_example :
    (plans : List RuleEvalPlan) × (ps : List (Leaf ℕ)) × (build_global_plan same_key
        (compile_rules conditions)
        (at_most 9 ∷ [])
      ≡ some (plans, ps))
    × (length plans ≡ 2)
    × Extends (at_most 9 ∷ []) ps
build_global_plan-total_example =
    build_global_plan-total same_key holds conditions (at_most 9 ∷ []) same_key-IsSound
      conditions-Negate
