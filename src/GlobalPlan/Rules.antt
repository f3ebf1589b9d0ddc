-- ===== src/GlobalPlan/Rules.antt =====
-- The plans of all rules.
use mathlib.Core.Path.{subst}
use blazerules.Prelude.{
  some-inj, ℕ, zero, suc, ◌<◌, ◌≤◌, ◌≡◌, refl, sym, ◌∙◌, Bool, true, List, [], ◌∷◌, some, length,
  get_elem?, All, arith,
}
use blazerules.Bitmask.{Mask, IsBytes, bitmask_bytes}
use blazerules.Expr.{EvalOptions, eval_rule}
use blazerules.Expr.Loops.{Represents}
use blazerules.Expr.Kinds.{IsUnshared}
use blazerules.Compile.{Leaf, Condition, compile}
use blazerules.Compile.Meaning.{meaning, Negates}
use blazerules.GlobalPlan.{RuleEvalPlan, EvalKernelSequence, build_global_plan}
use blazerules.GlobalPlan.Append.{Extends, Extends-refl, Extends-trans}
use blazerules.GlobalPlan.Built.{Agrees}
use blazerules.GlobalPlan.Correct.{IsSound, empty, Computes, Computes-eval, built_rule}

abbrev pub compile_rules : {X : Type 0} → List (Condition X) → List (EvalKernelSequence X)
compile_rules [] = []
compile_rules (c ∷ cs) =
    record { op = (compile c empty).1.seq; final_register = (compile c empty).0 } ∷ compile_rules cs

module _ {X : Type 0} (holds : ℕ → Leaf X → Bool) where
  Computes-grow :
      (c : Condition X) (plan : RuleEvalPlan) (ps qs : List (Leaf X))
      → Extends ps qs
      → Computes holds c (plan, ps)
      → Computes holds c (plan, qs)
  Computes-grow c plan ps qs x (is, t) = (
    record {
      topological = is.topological;
      root = is.root;
      order = is.order;
      recorded = is.recorded;
      in_range = λ idx node e k. omega (arith, is.in_range idx node e k, x.1);
      operand = is.operand;
    },
    λ row masks a. t row masks (λ i p e. a i p (x.0 i p e)),
  )

  abbrev AllCompute : List (Condition X) → List RuleEvalPlan × List (Leaf X) → Type 0
  AllCompute [] ([], ps) = Unit {0}
  AllCompute [] (plan ∷ plans, ps) = ⊥
  AllCompute (c ∷ cs) ([], ps) = ⊥
  AllCompute (c ∷ cs) (plan ∷ plans, ps) = Computes holds c (plan, ps) × AllCompute cs (plans, ps)

  AllCompute-at :
      (cs : List (Condition X)) (plans : List RuleEvalPlan) (ps : List (Leaf X)) (k : ℕ)
      (c : Condition X) (plan : RuleEvalPlan)
      → AllCompute cs (plans, ps)
      → get_elem? cs k ≡ some c
      → get_elem? plans k ≡ some plan
      → Computes holds c (plan, ps)
  AllCompute-at [] plans ps k c plan h e f = absurd (ground arith)
  AllCompute-at (c' ∷ cs) [] ps k c plan h e f = absurd h
  AllCompute-at (c' ∷ cs) (plan' ∷ plans) ps zero c plan h e f =
      subst (λ d. Computes holds d (plan, ps)) (some-inj c' c e)
        (subst (λ p. Computes holds c' (p, ps)) (some-inj plan' plan f) h.0)
  AllCompute-at (c' ∷ cs) (plan' ∷ plans) ps (suc k) c plan h e f =
      AllCompute-at cs plans ps k c plan h.1 e f

  AllCompute-length :
      (cs : List (Condition X)) (plans : List RuleEvalPlan) (ps : List (Leaf X))
      → AllCompute cs (plans, ps)
      → length plans ≡ length cs
  AllCompute-length [] [] ps h = refl
  AllCompute-length [] (plan ∷ plans) ps h = absurd h
  AllCompute-length (c ∷ cs) [] ps h = absurd h
  AllCompute-length (c ∷ cs) (plan ∷ plans) ps h =
      let rest = AllCompute-length cs plans ps h.1 in omega (arith, rest)

  built_rules :
      (same_key : Leaf X → Leaf X → Bool) (cs : List (Condition X)) (ps : List (Leaf X))
      → IsSound same_key holds
      → ((row : ℕ) → All (Negates (holds row)) cs)
      → (r : List RuleEvalPlan × List (Leaf X)) × (build_global_plan same_key (compile_rules cs) ps
          ≡ some r)
        × Extends ps r.1
        × AllCompute cs r
  unfolding build_global_plan
  built_rules same_key [] ps sound neg = (([], ps), refl, Extends-refl ps, tt)
  built_rules same_key (c ∷ cs) ps sound neg =
      let ((plan, ps₁), e, x, done) = built_rule same_key holds c ps sound (λ row. (neg row).0) in
      let ((plans, ps₂), e', x', rest) = built_rules same_key cs ps₁ sound (λ row. (neg row).1) in
      (
        (plan ∷ plans, ps₂),
        rw (build_global_plan, e, e') refl,
        Extends-trans ps ps₁ ps₂ x x',
        (Computes-grow c plan ps₁ ps₂ x' done, rest),
      )

-- Suppose that predicates of one key hold alike, that every predicate whose operator a negation
-- changes comes out negated for every row, that the builder makes `plans` and their predicates from
-- the rules that are compiled from the conditions `cs`, that the masks, of the size of `m` rows, hold
-- for each row what these predicates hold, and, with selection vectors on, that no child but the
-- first of a conjunction of the plan runs a conjunction of two or more children. Then the evaluation
-- of the plan at the index `k` ends with a mask that has exactly the rows that satisfy the condition
-- at that index.
pub build_global_plan-meaning :
    {X : Type 0} (same_key : Leaf X → Leaf X → Bool) (holds : ℕ → Leaf X → Bool)
    (cs : List (Condition X)) (plans : List RuleEvalPlan) (ps : List (Leaf X)) (k : ℕ)
    (c : Condition X) (plan : RuleEvalPlan) (masks : List Mask) (options : EvalOptions) (m : ℕ)
    (survivors : List ℕ)
    → IsSound same_key holds
    → ((row : ℕ) → All (Negates (holds row)) cs)
    → build_global_plan same_key (compile_rules cs) [] ≡ some (plans, ps)
    → get_elem? cs k ≡ some c
    → get_elem? plans k ≡ some plan
    → length ps ≤ length masks
    → All (λ mask. IsBytes mask × (length mask ≡ bitmask_bytes m)) masks
    → ((row : ℕ) → row < m → Agrees (holds row) row masks ps)
    → (options.enable_selection_vectors ≡ true → IsUnshared options plan.nodes)
    → (mask : Mask) × (eval_rule plan.nodes plan.root_node masks options m survivors ≡ some mask)
      × Represents m (λ row. meaning (holds row) c) mask
build_global_plan-meaning same_key holds cs plans ps k c plan masks options m survivors sound neg e
      at_c at_plan count sized agrees un =
    let (r, e', x, all) = built_rules holds same_key cs [] sound neg in
    let all' = subst (AllCompute holds cs) (some-inj r (plans, ps) (sym e' ∙ e)) all in
    Computes-eval holds c plan ps masks options m survivors
      (AllCompute-at holds cs plans ps k c plan all' at_c at_plan) count sized agrees un

-- If predicates of one key hold alike, and every predicate whose operator a negation changes comes
-- out negated for every row, then the builder ends for the rules that are compiled from the
-- conditions `cs`, with as many plans as there are rules, and every predicate that was there before
-- keeps its id.
pub build_global_plan-total :
    {X : Type 0} (same_key : Leaf X → Leaf X → Bool) (holds : ℕ → Leaf X → Bool)
    (cs : List (Condition X)) (before : List (Leaf X))
    → IsSound same_key holds
    → ((row : ℕ) → All (Negates (holds row)) cs)
    → (plans : List RuleEvalPlan) × (ps : List (Leaf X)) × (build_global_plan same_key
          (compile_rules cs)
          before
        ≡ some (plans, ps))
      × (length plans ≡ length cs)
      × Extends before ps
build_global_plan-total same_key holds cs before sound neg =
    let ((plans, ps), e, x, all) = built_rules holds same_key cs before sound neg in
    (plans, ps, e, AllCompute-length holds cs plans ps all, x)
