-- ===== src/GlobalPlan.antt =====
-- `build_global_plan` of src/compiler/compiler.cpp: for each rule the nodes of its expression, and
-- the predicates that it adds to those of the rules before. `predicate_key` is the parameter
-- `same_key`: whether two predicates have one key. `none` is a register that was never written.
pub mod Append
pub mod Dense
pub mod Built
pub mod Build
pub mod Correct
pub mod Rules
pub mod Examples
use Prim.Native.Nat.{min}
use blazerules.Prelude.{
  ℕ, zero, suc, ◌+◌, Bool, true, false, List, [], ◌∷◌, ◌++◌, ◌==◌, ltb, ◌||◌, if◌then◌else◌, Option,
  none, some, length, get_elem?,
}
use blazerules.Expr.{RuleExprKind, RuleExprNode}
use blazerules.Compile.{
  OpType, Kind, Leaf, KernelOp, predicate, bitwise_and, bitwise_or, bitwise_not,
}

-- A score or a distance is compared as a number or, between two bounds, as a range.
abbrev numeric_cost : OpType → ℕ
numeric_cost OpType.between_including = 3
numeric_cost OpType.between_excluding = 3
numeric_cost _ = 2

unfoldable pub predicate_cost : Kind → OpType → ℕ
predicate_cost Kind.categorical op = 1
predicate_cost Kind.array_len op = 1
predicate_cost Kind.null_test op = 1
predicate_cost Kind.bitfield op = 1
predicate_cost Kind.numeric op = 2
predicate_cost Kind.array_any op = 2
predicate_cost Kind.cross_field op = 2
predicate_cost Kind.temporal op = 2
predicate_cost Kind.cidr op = 3
predicate_cost Kind.lookup op = 3
predicate_cost Kind.numeric_range op = 3
predicate_cost Kind.string_test op = 5
predicate_cost Kind.regex_test op = 6
predicate_cost Kind.arithmetic op = 5
predicate_cost Kind.window op = 4
predicate_cost Kind.geo_distance op = 6
predicate_cost Kind.model_score op = numeric_cost op
predicate_cost Kind.vector_distance op = numeric_cost op

pub record Builder (X : Type 0) : Type 0 where
  pub nodes : List RuleExprNode
  pub register_node : ℕ → Option ℕ
  pub predicates : List (Leaf X)

pub record EvalKernelSequence (X : Type 0) : Type 0 where
  pub op : List (KernelOp X)
  pub final_register : ℕ

pub record RuleEvalPlan : Type 0 where
  pub nodes : List RuleExprNode
  pub root_node : ℕ

abbrev least : (ℕ → ℕ) → ℕ → List ℕ → ℕ
least f cost [] = cost
least f cost (c ∷ cs) = least f (min cost (f c)) cs

module _ {X : Type 0} where
  abbrev cost_at : List (Leaf X) → ℕ → ℕ
  cost_at predicates i = elim (get_elem? predicates i) [
    | none ↦ 8
    | some l ↦ predicate_cost l.kind l.op
  ]

  abbrev cost_kind : List (Leaf X) → RuleExprNode → RuleExprKind → (ℕ → ℕ) → ℕ
  cost_kind predicates node RuleExprKind.predicate f = cost_at predicates node.predicate_index
  cost_kind predicates node RuleExprKind.negation f = least f 6 node.children
  cost_kind predicates node RuleExprKind.conjunction f = least f 5 node.children
  cost_kind predicates node RuleExprKind.disjunction f = least f 5 node.children

  -- The fuel is the number of nodes; a child comes before its parent.
  unfoldable pub expr_cost : ℕ → List RuleExprNode → List (Leaf X) → ℕ → ℕ
  unfolding predicate_cost
  expr_cost zero nodes predicates idx = 8
  expr_cost (suc fuel) nodes predicates idx = elim (get_elem? nodes idx) [
    | none ↦ 8
    | some node ↦ cost_kind predicates node node.kind (expr_cost fuel nodes predicates)
  ]

-- `std::sort` of the children by their costs.
unfoldable pub insert_by : (ℕ → ℕ) → ℕ → List ℕ → List ℕ
insert_by cost c [] = c ∷ []
insert_by cost c (d ∷ ds) =
    let later = insert_by cost c ds in if ltb (cost d) (cost c) then d ∷ later else c ∷ d ∷ ds

unfoldable pub sort_by : (ℕ → ℕ) → List ℕ → List ℕ
unfolding insert_by
sort_by cost [] = []
sort_by cost (c ∷ cs) = insert_by cost c (sort_by cost cs)

-- The nodes of some registers.
unfoldable pub nodes_of : (ℕ → Option ℕ) → List ℕ → Option (List ℕ)
nodes_of register_node [] = some []
nodes_of register_node (r ∷ rs) = elim (register_node r) [
  | none ↦ none
  | some c ↦ elim (nodes_of register_node rs) [ none ↦ none | some cs ↦ some (c ∷ cs) ]
]

unfoldable pub add_node : {X : Type 0} → ℕ → RuleExprNode → Builder X → Builder X
add_node output node st = record st {
  nodes = st.nodes ++ node ∷ [];
  register_node = λ r. if r == output then some (length st.nodes) else st.register_node r;
}

abbrev pub with_children : RuleExprKind → List ℕ → List ℕ → RuleExprNode
with_children kind children original = record {
  kind = kind;
  predicate_index = 0;
  children = children;
  original_children = original;
}

module _ {X : Type 0} (same_key : Leaf X → Leaf X → Bool) where
  unfoldable pub find_key : Leaf X → List (Leaf X) → ℕ → Option ℕ
  find_key l [] i = none
  find_key l (p ∷ ps) i =
      let later = find_key l ps (suc i) in if same_key p l then some i else later

  -- `predicate_ids.emplace`: the id of the predicate, and the predicates after it.
  unfoldable pub intern : List (Leaf X) → Leaf X → ℕ × List (Leaf X)
  unfolding find_key
  intern predicates l = elim (find_key l predicates 0) [
    | none ↦ (length predicates, predicates ++ l ∷ [])
    | some i ↦ (i, predicates)
  ]

  unfoldable pub build_op : KernelOp X → Builder X → Option (Builder X)
  unfolding add_node nodes_of intern sort_by expr_cost
  build_op (predicate l output) st =
      let (id, predicates) = intern st.predicates l in
      some (
        add_node output
          (record {
            kind = RuleExprKind.predicate;
            predicate_index = id;
            children = [];
            original_children = [];
          })
          (record st { predicates = predicates }))
  build_op (bitwise_and inputs output) st = elim (nodes_of st.register_node inputs) [
    | none ↦ none
    | some children ↦
        let cost = expr_cost (length st.nodes) st.nodes st.predicates in
        some (
          add_node output (with_children RuleExprKind.conjunction (sort_by cost children) children)
            st)
  ]
  build_op (bitwise_or inputs output) st = elim (nodes_of st.register_node inputs) [
    | none ↦ none
    | some children ↦ some (add_node output (with_children RuleExprKind.disjunction children []) st)
  ]
  build_op (bitwise_not input output) st = elim (st.register_node input) [
    | none ↦ none
    | some child ↦ some (add_node output (with_children RuleExprKind.negation (child ∷ []) []) st)
  ]

  unfoldable pub build : List (KernelOp X) → Builder X → Option (Builder X)
  unfolding build_op
  build [] st = some st
  build (op ∷ ops) st = elim (build_op op st) [ none ↦ none | some st' ↦ build ops st' ]

  -- One rule: its plan, and the predicates after it.
  unfoldable pub build_rule :
      List (KernelOp X) → ℕ → List (Leaf X) → Option (RuleEvalPlan × List (Leaf X))
  unfolding build
  build_rule op final_register predicates =
      elim (build op (record { nodes = []; register_node = λ r. none; predicates = predicates })) [
        | none ↦ none
        | some st ↦ elim (st.register_node final_register) [
          | none ↦ none
          | some root ↦ some (record { nodes = st.nodes; root_node = root }, st.predicates)
        ]
      ]

  -- The plans of all rules, and the predicates that they read.
  unfoldable pub build_global_plan :
      List (EvalKernelSequence X) → List (Leaf X) → Option (List RuleEvalPlan × List (Leaf X))
  unfolding build_rule
  build_global_plan [] predicates = some ([], predicates)
  build_global_plan (rule ∷ rules) predicates =
      elim (build_rule rule.op rule.final_register predicates) [
        | none ↦ none
        | some (plan, predicates') ↦ elim (build_global_plan rules predicates') [
          | none ↦ none
          | some (plans, all) ↦ some (plan ∷ plans, all)
        ]
      ]
