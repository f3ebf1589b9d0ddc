-- ===== src/Expr/Examples.antt =====
-- Plans with concrete masks, and the evaluator run on them.
use blazerules.Prelude.{
  ℕ, zero, suc, ◌+◌, ◌/◌, ◌<◌, ◌≡◌, ◌≢◌, refl, sym, inl, true, List, [], ◌∷◌, some, get_elem?, All,
  arith,
}
use blazerules.Bitmask
use blazerules.Bitmask.{Mask, IsBytes, bitmask_bytes}
use blazerules.Expr.{
  RuleExprKind, predicate, conjunction, disjunction, negation, RuleExprNode, EvalOptions, eval_rule,
  ordered_children,
}
use blazerules.Expr.Truth
use blazerules.Expr.Truth.{truth, quiet}
use blazerules.Expr.Order.{IsOrder}
use blazerules.Expr.Loops.{Represents}
use blazerules.Expr.Kinds.{IsPlan, IsUnshared, tail}
use blazerules.Expr.Correct.{eval_rule-truth}

abbrev AllAt : (ℕ → RuleExprNode → Type 0) → ℕ → List RuleExprNode → Type 0
AllAt P base [] = Unit {0}
AllAt P base (x ∷ xs) = P base x × AllAt P (suc base) xs

some-inj : {a b : RuleExprNode} → some a ≡ some b → a ≡ b
some-inj e = ground arith

at_index :
    (P : ℕ → RuleExprNode → Type 0) (xs : List RuleExprNode) (base idx : ℕ) (node : RuleExprNode)
    → AllAt P base xs
    → get_elem? xs idx ≡ some node
    → P (base + idx) node
at_index P [] base idx node h e = absurd (ground arith)
at_index P (x ∷ xs) base zero node h e =
    let same : x ≡ node = some-inj e in
    let here : base + 0 ≡ base = omega arith in rw (here, sym same) h.0
at_index P (x ∷ xs) base (suc idx) node h e =
    let here : base + suc idx ≡ suc base + idx = omega arith in
    rw here (at_index P xs (suc base) idx node h.1 e)

node_at :
    (P : ℕ → RuleExprNode → Type 0) (xs : List RuleExprNode) (idx : ℕ) (node : RuleExprNode)
    → AllAt P 0 xs
    → get_elem? xs idx ≡ some node
    → P idx node
node_at P xs idx node h e =
    let here : idx ≡ 0 + idx = omega arith in rw here (at_index P xs 0 idx node h e)

abbrev leaf : ℕ → RuleExprNode
leaf p = record { kind = predicate; predicate_index = p; children = []; original_children = [] }

abbrev branch : RuleExprKind → List ℕ → RuleExprNode
branch kind cs = record { kind = kind; predicate_index = 0; children = cs; original_children = [] }

abbrev defaults : EvalOptions
defaults = record {
  enable_selection_vectors = true;
  selection_limit = λ m. m / 5;
  enable_adaptive_predicate_ordering = true;
}

-- `p0 and not p1`, and `p0 and ((p1 and p2) or p3)`.
abbrev simple : List RuleExprNode
simple = leaf 0 ∷ leaf 1 ∷ branch negation (1 ∷ []) ∷ branch conjunction (0 ∷ 2 ∷ []) ∷ []

abbrev nested : List RuleExprNode
nested =
    leaf 0
    ∷ leaf 1
    ∷ leaf 2
    ∷ leaf 3
    ∷ branch conjunction (1 ∷ 2 ∷ [])
    ∷ branch disjunction (4 ∷ 3 ∷ [])
    ∷ branch conjunction (0 ∷ 5 ∷ [])
    ∷ []

simple_run :
    eval_rule simple 3 ((17 ∷ 0 ∷ []) ∷ (1 ∷ 0 ∷ []) ∷ []) defaults 10 [] ≡ some (16 ∷ 0 ∷ [])
unfolding eval_rule blazerules.Bitmask.count_set_bits blazerules.Bitmask.popcount32
    blazerules.Bitmask.popcount blazerules.Bitmask.collect_set_bits blazerules.Bitmask.collect_from
    blazerules.Bitmask.drain blazerules.Bitmask.ctz32 blazerules.Bitmask.ctz
    blazerules.Bitmask.bit_is_set blazerules.Bitmask.bitwise_not blazerules.Bitmask.set_bit
    blazerules.Bitmask.bitmask_bytes
simple_run = refl

-- The rows that satisfy `nested` are 0 and no other, the code returns row 2.
nested_run :
    eval_rule nested 6
      ((1 ∷ 0 ∷ []) ∷ (4 ∷ 0 ∷ []) ∷ (4 ∷ 0 ∷ []) ∷ (1 ∷ 0 ∷ []) ∷ [])
      defaults
      10
      []
    ≡ some (4 ∷ 0 ∷ [])
unfolding eval_rule blazerules.Bitmask.count_set_bits blazerules.Bitmask.popcount32
    blazerules.Bitmask.popcount blazerules.Bitmask.collect_set_bits blazerules.Bitmask.collect_from
    blazerules.Bitmask.drain blazerules.Bitmask.ctz32 blazerules.Bitmask.ctz
    blazerules.Bitmask.bit_is_set blazerules.Bitmask.or_into blazerules.Bitmask.set_bit
    blazerules.Bitmask.bitmask_bytes
nested_run = refl

abbrev simple_masks : List Mask
simple_masks = (17 ∷ 0 ∷ []) ∷ (1 ∷ 0 ∷ []) ∷ []

simple-IsPlan : IsPlan simple simple_masks 10
unfolding bitmask_bytes
simple-IsPlan = record {
  topological = λ idx node e.
      node_at (λ i n. All (λ c. c < i) n.children) simple idx node
        (tt, (tt, ((omega arith, tt), ((omega arith, (omega arith, tt)), tt)))) e;
  order = λ idx node e.
      node_at (λ i n. IsOrder n) simple idx node (inl refl, (inl refl, (inl refl, (inl refl, tt))))
        e;
  in_range = λ idx node e.
      node_at (λ i n. n.kind ≡ predicate → n.predicate_index < 2) simple idx node
        (λ k. omega arith, (λ k. omega arith, (λ k. omega arith, (λ k. omega arith, tt)))) e;
  operand = λ idx node e.
      node_at (λ i n. n.kind ≡ negation → n.children ≢ []) simple idx node
        (
          λ k. absurd (ground arith),
          (
            λ k. absurd (ground arith),
            (λ k n. absurd (ground arith), (λ k. absurd (ground arith), tt)),
          ),
        )
        e;
  masks =
      (((omega arith, (omega arith, tt)), refl), (((omega arith, (omega arith, tt)), refl), tt));
}

simple-IsUnshared : IsUnshared defaults simple
unfolding quiet ordered_children blazerules.Expr.Truth.fold
simple-IsUnshared idx node e =
    node_at
      (λ i n.
        n.kind ≡ conjunction
        → All (λ c. quiet true simple c ≡ true) (tail (ordered_children defaults n)))
      simple idx node (λ k. tt, (λ k. tt, (λ k. tt, (λ k. (refl, tt), tt)))) e

eval_rule-truth_example :
    (mask : Mask) × (eval_rule simple 3 simple_masks defaults 10 [] ≡ some mask)
    × Represents 10 (λ row. truth simple simple_masks row 3) mask
eval_rule-truth_example =
    eval_rule-truth simple 3 simple_masks defaults 10 [] simple-IsPlan (omega arith)
      (λ t. simple-IsUnshared)
