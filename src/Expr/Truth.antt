-- ===== src/Expr/Truth.antt =====
-- The meaning of a rule's expression for one row, and the plans that the compiler builds: each
-- node comes after its children.
use blazerules.Prelude.{
  ℕ, zero, suc, ◌<◌, ◌≡◌, refl, ap, inl, inr, Bool, true, false, List, [], ◌∷◌, ◌&&◌, ◌||◌, none,
  some, get_elem?, get_or, not, All, arith, Option-cases,
}
use blazerules.Bitmask.{Mask, bit_is_set}
use blazerules.Expr.{RuleExprKind, predicate, conjunction, disjunction, negation, RuleExprNode}

abbrev pub all_of : (ℕ → Bool) → List ℕ → Bool
all_of f [] = true
all_of f (c ∷ cs) = f c && all_of f cs

abbrev pub any_of : (ℕ → Bool) → List ℕ → Bool
any_of f [] = false
any_of f (c ∷ cs) = f c || any_of f cs

-- A recursion over the plan: `alg` says what a node is, given what its children are.
abbrev pub Algebra : Type 0
Algebra = RuleExprNode → (ℕ → Bool) → Bool

unfoldable pub fold : Algebra → ℕ → List RuleExprNode → ℕ → Bool
fold alg zero nodes idx = false
fold alg (suc fuel) nodes idx = elim (get_elem? nodes idx) [
  | none ↦ false
  | some node ↦ alg node (fold alg fuel nodes)
]

-- An algebra looks at the children only.
abbrev pub IsLocal : Algebra → Type 0
IsLocal alg =
    (node : RuleExprNode) (f g : ℕ → Bool)
    → All (λ c. f c ≡ g c) node.children
    → alg node f ≡ alg node g

abbrev pub Topological : List RuleExprNode → Type 0
Topological nodes =
    (idx : ℕ) (node : RuleExprNode)
    → get_elem? nodes idx ≡ some node
    → All (λ c. c < idx) node.children

pub All-map {ℓ κ λ'} :
    {A : Type ℓ} {P : A → Type κ} {Q : A → Type λ'} (xs : List A)
    → ((a : A) → P a → Q a)
    → All P xs
    → All Q xs
All-map [] f h = tt
All-map (x ∷ xs) f h = (f x h.0, All-map xs f h.1)

module _ (alg : Algebra) (local : IsLocal alg) (nodes : List RuleExprNode)
    (top : Topological nodes) where
  fold_fuel : (f g idx : ℕ) → idx < f → idx < g → fold alg f nodes idx ≡ fold alg g nodes idx
  unfolding fold
  fold_fuel zero g idx h k = absurd (omega arith)
  fold_fuel (suc f) zero idx h k = absurd (omega arith)
  fold_fuel (suc f) (suc g) idx h k = elim (Option-cases (get_elem? nodes idx)) [
    | inl e ↦ rw (e, fold)
    | inr (node, e) ↦
        rw (e, fold)
          (local node _ _ (
            All-map node.children (λ c l. fold_fuel f g c (omega arith) (omega arith))
              (top idx node e)))
  ]

  -- What a node is, from what its children are.
  pub fold_node :
      (idx : ℕ) (node : RuleExprNode)
      → get_elem? nodes idx ≡ some node
      → fold alg (suc idx) nodes idx ≡ alg node (λ c. fold alg (suc c) nodes c)
  unfolding fold
  fold_node idx node e =
      rw (e, fold)
        (local node _ _
          (All-map node.children (λ c l. fold_fuel idx (suc c) c l (omega arith)) (top idx node e)))

pub all_of_local :
    (f g : ℕ → Bool) (cs : List ℕ) → All (λ c. f c ≡ g c) cs → all_of f cs ≡ all_of g cs
all_of_local f g [] h = refl
all_of_local f g (c ∷ cs) h = rw (h.0, all_of_local f g cs h.1)

pub any_of_local :
    (f g : ℕ → Bool) (cs : List ℕ) → All (λ c. f c ≡ g c) cs → any_of f cs ≡ any_of g cs
any_of_local f g [] h = refl
any_of_local f g (c ∷ cs) h = rw (h.0, any_of_local f g cs h.1)

-- A row satisfies a conjunction with all its children, a disjunction with one, a negation if the
-- child fails; a node with no children, which validated rules do not have, is false.
abbrev pub truth_not : (ℕ → Bool) → List ℕ → Bool
truth_not f [] = false
truth_not f (c ∷ cs) = not (f c)

abbrev pub null {ℓ} : {A : Type ℓ} → List A → Bool
null [] = true
null (c ∷ cs) = false

abbrev pub truth_and : (ℕ → Bool) → List ℕ → Bool
truth_and f cs = not (null cs) && all_of f cs

abbrev pub truth_kind : List Mask → ℕ → RuleExprNode → RuleExprKind → (ℕ → Bool) → Bool
truth_kind predicates row node predicate f =
    bit_is_set (get_or predicates node.predicate_index []) row
truth_kind predicates row node conjunction f = truth_and f node.children
truth_kind predicates row node disjunction f = any_of f node.children
truth_kind predicates row node negation f = truth_not f node.children

abbrev pub truth_algebra : List Mask → ℕ → Algebra
truth_algebra predicates row node f = truth_kind predicates row node node.kind f

unfoldable pub truth : List RuleExprNode → List Mask → ℕ → ℕ → Bool
truth nodes predicates row idx = fold (truth_algebra predicates row) (suc idx) nodes idx

pub truth_kind_local :
    (predicates : List Mask) (row : ℕ) (node : RuleExprNode) (kind : RuleExprKind) (f g : ℕ → Bool)
    → All (λ c. f c ≡ g c) node.children
    → truth_kind predicates row node kind f ≡ truth_kind predicates row node kind g
truth_kind_local predicates row node predicate f g h = refl
truth_kind_local predicates row node conjunction f g h = rw (all_of_local f g node.children h)
truth_kind_local predicates row node disjunction f g h = any_of_local f g node.children h
truth_kind_local predicates row node negation f g h = go node.children h
  where
    go : (cs : List ℕ) → All (λ c. f c ≡ g c) cs → truth_not f cs ≡ truth_not g cs
    go [] k = refl
    go (c ∷ cs) k = ap not k.0

pub truth_node :
    (nodes : List RuleExprNode) (predicates : List Mask) (row idx : ℕ) (node : RuleExprNode)
    → Topological nodes
    → get_elem? nodes idx ≡ some node
    → truth nodes predicates row idx
      ≡ truth_kind predicates row node node.kind (truth nodes predicates row)
unfolding truth
truth_node nodes predicates row idx node top e =
    fold_node (truth_algebra predicates row)
      (λ n f g h. truth_kind_local predicates row n n.kind f g h) nodes top idx node e

-- A node is quiet if its evaluation leaves the shared survivors alone: no conjunction of two or
-- more children is evaluated with selection vectors.
abbrev pub short : List ℕ → Bool
short [] = true
short (c ∷ cs) = null cs

abbrev pub quiet_and : Bool → (ℕ → Bool) → List ℕ → Bool
quiet_and selection f cs = (not selection || short cs) && all_of f cs

abbrev pub quiet_kind : Bool → RuleExprNode → RuleExprKind → (ℕ → Bool) → Bool
quiet_kind selection node predicate f = true
quiet_kind selection node conjunction f = quiet_and selection f node.children
quiet_kind selection node disjunction f = all_of f node.children
quiet_kind selection node negation f = all_of f node.children

abbrev quiet_algebra : Bool → Algebra
quiet_algebra selection node f = quiet_kind selection node node.kind f

unfoldable pub quiet : Bool → List RuleExprNode → ℕ → Bool
quiet selection nodes idx = fold (quiet_algebra selection) (suc idx) nodes idx

quiet_kind_local :
    (selection : Bool) (node : RuleExprNode) (kind : RuleExprKind) (f g : ℕ → Bool)
    → All (λ c. f c ≡ g c) node.children
    → quiet_kind selection node kind f ≡ quiet_kind selection node kind g
quiet_kind_local selection node predicate f g h = refl
quiet_kind_local selection node conjunction f g h = rw (all_of_local f g node.children h)
quiet_kind_local selection node disjunction f g h = all_of_local f g node.children h
quiet_kind_local selection node negation f g h = all_of_local f g node.children h

pub quiet_node :
    (selection : Bool) (nodes : List RuleExprNode) (idx : ℕ) (node : RuleExprNode)
    → Topological nodes
    → get_elem? nodes idx ≡ some node
    → quiet selection nodes idx ≡ quiet_kind selection node node.kind (quiet selection nodes)
unfolding quiet
quiet_node selection nodes idx node top e =
    fold_node (quiet_algebra selection) (λ n f g h. quiet_kind_local selection n n.kind f g h) nodes
      top idx node e
