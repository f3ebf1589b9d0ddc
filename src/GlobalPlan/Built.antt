-- ===== src/GlobalPlan/Built.antt =====
-- What the builder of a plan has after some operations: as many nodes as operations, each register
-- at the node of its number, and for a row the meaning that the registers have.
use blazerules.Prelude.{
  ℕ, suc, ◌<◌, ◌≡◌, ◌≢◌, ap, ◌∙◌, inl, inr, Bool, List, [], ◌∷◌, ◌++◌, ◌==◌, some, length,
  length-append, get_elem?, get_or, All, arith, Bool-cases,
}
use blazerules.Bitmask.{Mask, bit_is_set}
use blazerules.Expr.{RuleExprKind, RuleExprNode}
use blazerules.Expr.Truth.{Topological, All-map, truth, truth_kind, truth_node, truth_kind_local}
use blazerules.Expr.Order.{IsOrder, RecordsOrder}
use blazerules.Compile.{Leaf}
use blazerules.Compile.Meaning.{Registers, assign}
use blazerules.GlobalPlan.{Builder, add_node}
use blazerules.GlobalPlan.Append.{get_elem?-last, snoc_cases, truth-append}

module _ {X : Type 0} (holds : Leaf X → Bool) (row : ℕ) where
  -- The masks hold, for the row, what the predicates hold.
  abbrev pub Agrees : List Mask → List (Leaf X) → Type 0
  Agrees masks predicates =
      (i : ℕ) (p : Leaf X)
      → get_elem? predicates i ≡ some p
      → bit_is_set (get_or masks i []) row ≡ holds p

  pub record Built (n : ℕ) (st : Builder X) (regs : Registers) : Type 0 where
    pub size : length st.nodes ≡ n
    pub dense : (r : ℕ) → r < n → st.register_node r ≡ some r
    pub topological : Topological st.nodes
    pub order :
        (idx : ℕ) (node : RuleExprNode)
        → get_elem? st.nodes idx ≡ some node
        → IsOrder node × RecordsOrder node
    pub in_range :
        (idx : ℕ) (node : RuleExprNode)
        → get_elem? st.nodes idx ≡ some node
        → node.kind ≡ RuleExprKind.predicate
        → node.predicate_index < length st.predicates
    pub operand :
        (idx : ℕ) (node : RuleExprNode)
        → get_elem? st.nodes idx ≡ some node
        → node.kind ≡ RuleExprKind.negation
        → node.children ≢ []
    pub truths :
        (masks : List Mask)
        → Agrees masks st.predicates
        → (r : ℕ) → r < n
        → truth st.nodes masks row r ≡ regs r

  -- A node that may be added.
  pub record Fits (n : ℕ) (st : Builder X) (x : RuleExprNode) (b : Bool) : Type 0 where
    pub below : All (λ c. c < n) x.children
    pub ordered : IsOrder x × RecordsOrder x
    pub ranged : x.kind ≡ RuleExprKind.predicate → x.predicate_index < length st.predicates
    pub has_operand : x.kind ≡ RuleExprKind.negation → x.children ≢ []
    pub means :
        (masks : List Mask)
        → Agrees masks st.predicates
        → truth_kind masks row x x.kind (truth st.nodes masks row) ≡ b

  add_node-Built :
      (n : ℕ) (st : Builder X) (regs : Registers) (x : RuleExprNode) (b : Bool)
      → Built n st regs
      → Fits n st x b
      → Built (suc n) (add_node n x st) (assign regs n b)
  unfolding add_node
  add_node-Built n st regs x b t f =
      let size' : length st.nodes ≡ n = t.size in
      let below' : All (λ c. c < length st.nodes) x.children =
        All-map x.children (λ c l. omega arith) f.below in
      let top : Topological (st.nodes ++ x ∷ []) =
        snoc_cases (λ idx node. All (λ c. c < idx) node.children) st.nodes x t.topological below' in
      record {
        size = length-append st.nodes (x ∷ []) ∙ omega arith;
        dense = λ r l. elim (Bool-cases (r == n)) [
          | inl e ↦ rw e (ap some (ground arith))
          | inr ne ↦ rw ne (t.dense r (ground arith))
        ];
        topological = top;
        order =
            snoc_cases (λ idx node. IsOrder node × RecordsOrder node) st.nodes x t.order f.ordered;
        in_range =
            snoc_cases
              (λ idx node.
                node.kind ≡ RuleExprKind.predicate → node.predicate_index < length st.predicates)
              st.nodes x t.in_range f.ranged;
        operand =
            snoc_cases (λ idx node. node.kind ≡ RuleExprKind.negation → node.children ≢ []) st.nodes
              x t.operand f.has_operand;
        truths = λ masks a r l. elim (Bool-cases (r == n)) [
          | inl e ↦
              let e' : r ≡ length st.nodes = ground arith in
              rw e (
                ap (λ (k : ℕ). truth (st.nodes ++ x ∷ []) masks row k) e'
                ∙ truth_node (st.nodes ++ x ∷ []) masks row (length st.nodes) x top
                    (get_elem?-last st.nodes x)
                ∙ truth_kind_local masks row x x.kind _ _ (
                    All-map x.children
                      (λ c k.
                        truth-append st.nodes x masks row t.topological top (suc c) c (omega arith)
                          (omega arith))
                      below')
                ∙ f.means masks a)
          | inr ne ↦ rw ne (
              truth-append st.nodes x masks row t.topological top (suc r) r (omega arith)
                (ground arith)
              ∙ t.truths masks a r (ground arith))
        ];
      }

  pub add_at-Built :
      (n r : ℕ) (st : Builder X) (regs : Registers) (x : RuleExprNode) (b : Bool)
      → r ≡ n
      → Built n st regs
      → Fits n st x b
      → Built (suc n) (add_node r x st) (assign regs r b)
  add_at-Built n r st regs x b o t f = rw o (add_node-Built n st regs x b t f)
