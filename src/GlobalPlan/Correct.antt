-- ===== src/GlobalPlan/Correct.antt =====
-- What the plan of a rule computes.
use mathlib.Core.Path.{subst}
use blazerules.Prelude.{
  some-inj, ℕ, ◌+◌, ◌<◌, ◌≤◌, ◌≡◌, ◌≢◌, refl, sym, ◌∙◌, Bool, true, false, List, [], none, some,
  length, get_elem?, All, arith,
}
use blazerules.Bitmask.{Mask, IsBytes, bitmask_bytes}
use blazerules.Expr.{RuleExprKind, RuleExprNode, EvalOptions, eval_rule}
use blazerules.Expr.Truth.{Topological, truth}
use blazerules.Expr.Order.{IsOrder, RecordsOrder}
use blazerules.Expr.Loops.{Represents, Represents-ext}
use blazerules.Expr.Kinds.{IsUnshared}
use blazerules.Expr.Correct.{eval_rule-truth}
use blazerules.Compile.{Leaf, Condition, Code, compile}
use blazerules.Compile.Meaning.{meaning, Negates}
use blazerules.Compile.Correct.{compile-Yields, compile-meaning}
use blazerules.GlobalPlan.{Builder, RuleEvalPlan, build_rule}
use blazerules.GlobalPlan.Append.{Extends}
use blazerules.GlobalPlan.Dense.{IsDense, compile-IsDense}
use blazerules.GlobalPlan.Built.{Agrees, Built}
use blazerules.GlobalPlan.Build.{build-Built}

-- A rule's plan: its nodes come after their children, its root is one of them, and it reads
-- `count` predicates.
pub record IsRulePlan (count : ℕ) (plan : RuleEvalPlan) : Type 0 where
  pub topological : Topological plan.nodes
  pub root : plan.root_node < length plan.nodes
  pub order : (idx : ℕ) (node : RuleExprNode) → get_elem? plan.nodes idx ≡ some node → IsOrder node
  pub recorded :
      (idx : ℕ) (node : RuleExprNode) → get_elem? plan.nodes idx ≡ some node → RecordsOrder node
  pub in_range :
      (idx : ℕ) (node : RuleExprNode)
      → get_elem? plan.nodes idx ≡ some node
      → node.kind ≡ RuleExprKind.predicate
      → node.predicate_index < count
  pub operand :
      (idx : ℕ) (node : RuleExprNode)
      → get_elem? plan.nodes idx ≡ some node
      → node.kind ≡ RuleExprKind.negation
      → node.children ≢ []

module _ {X : Type 0} where
  abbrev pub start : List (Leaf X) → Builder X
  start ps = record { nodes = []; register_node = λ r. none; predicates = ps }

  abbrev pub empty : Code X
  empty = record { seq = []; next_register = 0 }

  start-Built :
      (holds : Leaf X → Bool) (row : ℕ) (ps : List (Leaf X))
      → Built holds row 0 (start ps) (λ r. false)
  start-Built holds row ps = record {
    size = refl;
    dense = λ r l. absurd (omega arith);
    topological = λ idx node e. absurd (ground arith);
    order = λ idx node e. absurd (ground arith);
    in_range = λ idx node e k. absurd (ground arith);
    operand = λ idx node e k. absurd (ground arith);
    truths = λ masks a r l. absurd (omega arith);
  }

  module _ (same_key : Leaf X → Leaf X → Bool) (holds : Leaf X → Bool) (row : ℕ)
      (sound : (p l : Leaf X) → same_key p l ≡ true → holds p ≡ holds l) (c : Condition X)
      (neg : Negates holds c) (ps : List (Leaf X)) where
    abbrev code : Code X
    code = (compile c empty).1

    empty-IsDense : IsDense empty
    empty-IsDense = record { formed = tt; counted = refl }

    -- The builder ends, and its root has the truth of the condition.
    abbrev Compiled : Type 0
    Compiled =
        (plan : RuleEvalPlan) × (ps' : List (Leaf X)) × (build_rule same_key code.seq
            (compile c empty).0 ps
          ≡ some (plan, ps'))
        × Extends ps ps'
        × IsRulePlan (length ps') plan
        × ((masks : List Mask)
            → Agrees holds row masks ps'
            → truth plan.nodes masks row plan.root_node ≡ meaning holds c)

    compiled : Compiled
    unfolding build_rule
    compiled =
        let y = compile-Yields holds c empty neg in
        let d = compile-IsDense holds c empty neg empty-IsDense in
        let (st, e, t, x) =
          build-Built same_key holds row sound 0 code.seq (start ps) (λ r. false) d.formed
            (start-Built holds row ps) in
        let l : (compile c empty).0 < 0 + length code.seq = omega (arith, y.allocated, d.counted) in
        (
          record { nodes = st.nodes; root_node = (compile c empty).0 },
          st.predicates,
          rw (build_rule, e, t.dense _ l) refl,
          x,
          record {
            topological = t.topological;
            root = omega (arith, t.size);
            order = λ idx node e. (t.order idx node e).0;
            recorded = λ idx node e. (t.order idx node e).1;
            in_range = t.in_range;
            operand = t.operand;
          },
          λ masks a. t.truths masks a _ l ∙ compile-meaning holds c empty neg,
        )

-- Two predicates of one key hold alike for every row.
abbrev pub IsSound : {X : Type 0} → (Leaf X → Leaf X → Bool) → (ℕ → Leaf X → Bool) → Type 0
IsSound {X} same_key holds =
    (row : ℕ) (p l : Leaf X) → same_key p l ≡ true → holds row p ≡ holds row l

-- If predicates of one key hold alike, and every predicate whose operator a negation changes comes
-- out negated for every row, then the builder ends with a plan for a compiled condition, after the
-- predicates `ps` of other rules: every node comes after its children, the root is a node, the
-- predicate indices are those of predicates of the plan, every conjunction records an original order
-- that is a permutation of its children, any other node records such an order or none, and every
-- negation has an operand.
pub build_rule-IsRulePlan :
    {X : Type 0} (same_key : Leaf X → Leaf X → Bool) (holds : ℕ → Leaf X → Bool) (c : Condition X)
    (ps : List (Leaf X))
    → IsSound same_key holds
    → ((row : ℕ) → Negates (holds row) c)
    → (plan : RuleEvalPlan) × (ps' : List (Leaf X)) × (build_rule same_key
          (compile c empty).1.seq
          (compile c empty).0
          ps
        ≡ some (plan, ps'))
      × IsRulePlan (length ps') plan
build_rule-IsRulePlan same_key holds c ps sound neg =
    let (plan, ps', e, x, is, t) = compiled same_key (holds 0) 0 (sound 0) c (neg 0) ps in
    (plan, ps', e, is)

-- A plan computes a condition from masks of the predicates `ps`.
abbrev pub Computes :
    {X : Type 0} → (ℕ → Leaf X → Bool) → Condition X → RuleEvalPlan × List (Leaf X) → Type 0
Computes holds c (plan, ps) =
    IsRulePlan (length ps) plan
    × ((row : ℕ) (masks : List Mask)
        → Agrees (holds row) row masks ps
        → truth plan.nodes masks row plan.root_node ≡ meaning (holds row) c)

pub built_rule :
    {X : Type 0} (same_key : Leaf X → Leaf X → Bool) (holds : ℕ → Leaf X → Bool) (c : Condition X)
    (ps : List (Leaf X))
    → IsSound same_key holds
    → ((row : ℕ) → Negates (holds row) c)
    → (r : RuleEvalPlan × List (Leaf X)) × (build_rule same_key
          (compile c empty).1.seq
          (compile c empty).0
          ps
        ≡ some r)
      × Extends ps r.1
      × Computes holds c r
built_rule same_key holds c ps sound neg =
    let (plan, ps', e, x, is, t) = compiled same_key (holds 0) 0 (sound 0) c (neg 0) ps in
    (
      (plan, ps'),
      e,
      x,
      (
        is,
        λ row masks a.
            let (plan', qs, e', x', is', t') =
              compiled same_key (holds row) row (sound row) c (neg row) ps in
            let same = some-inj (plan', qs) (plan, ps') (sym e' ∙ e) in
            subst
              (λ r.
                (masks : List Mask)
                → Agrees (holds row) row masks r.1
                → truth r.0.nodes masks row r.0.root_node ≡ meaning (holds row) c)
              same t' masks a,
      ),
    )

pub Computes-eval :
    {X : Type 0} (holds : ℕ → Leaf X → Bool) (c : Condition X) (plan : RuleEvalPlan)
    (ps : List (Leaf X)) (masks : List Mask) (options : EvalOptions) (m : ℕ) (survivors : List ℕ)
    → Computes holds c (plan, ps)
    → length ps ≤ length masks
    → All (λ mask. IsBytes mask × (length mask ≡ bitmask_bytes m)) masks
    → ((row : ℕ) → row < m → Agrees (holds row) row masks ps)
    → (options.enable_selection_vectors ≡ true → IsUnshared options plan.nodes)
    → (mask : Mask) × (eval_rule plan.nodes plan.root_node masks options m survivors ≡ some mask)
      × Represents m (λ row. meaning (holds row) c) mask
Computes-eval holds c plan ps masks options m survivors (is, t) count sized agrees un =
    let (mask, done, rep) =
      eval_rule-truth plan.nodes plan.root_node masks options m survivors
        (record {
          topological = is.topological;
          order = is.order;
          in_range = λ idx node e k. omega (arith, is.in_range idx node e k);
          operand = is.operand;
          masks = sized;
        })
        is.root un in
    (mask, done, Represents-ext m _ _ mask (λ row l. t row masks (agrees row l)) rep)
