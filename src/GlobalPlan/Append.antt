-- ===== src/GlobalPlan/Append.antt =====
-- Nodes that are added at the end, and the nodes before them.
use blazerules.Prelude.{
  ◌≤◌, ℕ, zero, suc, ◌<◌, ◌≡◌, refl, sym, ap, ◌∙◌, inl, inr, ◌⊎◌, List, [], ◌∷◌, ◌++◌, some, length,
  get_elem?, arith,
}
use blazerules.Bitmask.{Mask}
use blazerules.Expr.{RuleExprNode}
use blazerules.Expr.Kinds.{get_elem?-lt}
use blazerules.Expr.Truth.{Topological, All-map, truth, truth_node, truth_kind_local}

some-inj : {a b : RuleExprNode} → some a ≡ some b → a ≡ b
some-inj e = ground arith

module _ {A : Type 0} where
  pub get_elem?-append :
      (xs ys : List A) (i : ℕ) → i < length xs → get_elem? (xs ++ ys) i ≡ get_elem? xs i
  get_elem?-append [] ys i h = absurd (omega arith)
  get_elem?-append (x ∷ xs) ys zero h = refl
  get_elem?-append (x ∷ xs) ys (suc i) h = get_elem?-append xs ys i (omega arith)

  pub get_elem?-last : (xs : List A) (a : A) → get_elem? (xs ++ a ∷ []) (length xs) ≡ some a
  get_elem?-last [] a = refl
  get_elem?-last (x ∷ xs) a = get_elem?-last xs a

  pub get_elem?-bound : (xs : List A) (i : ℕ) (a : A) → get_elem? xs i ≡ some a → i < length xs
  get_elem?-bound [] i a h = absurd (ground arith)
  get_elem?-bound (x ∷ xs) zero a h = omega arith
  get_elem?-bound (x ∷ xs) (suc i) a h = omega (arith, get_elem?-bound xs i a h)

snoc_lookup :
    (xs : List RuleExprNode) (x y : RuleExprNode) (i : ℕ)
    → get_elem? (xs ++ x ∷ []) i ≡ some y
    → (get_elem? xs i ≡ some y) ⊎ ((i ≡ length xs) × (x ≡ y))
snoc_lookup [] x y zero h = inr (refl, some-inj h)
snoc_lookup [] x y (suc i) h = absurd (ground arith)
snoc_lookup (z ∷ xs) x y zero h = inl h
snoc_lookup (z ∷ xs) x y (suc i) h = elim (snoc_lookup xs x y i h) [
  | inl e ↦ inl e
  | inr (e, e') ↦ inr (ap suc e, e')
]

-- A node and its place, after one node is added: an old one, or the new one.
pub snoc_cases :
    (P : ℕ → RuleExprNode → Type 0) (nodes : List RuleExprNode) (x : RuleExprNode)
    → ((idx : ℕ) (node : RuleExprNode) → get_elem? nodes idx ≡ some node → P idx node)
    → P (length nodes) x
    → (idx : ℕ) (node : RuleExprNode) → get_elem? (nodes ++ x ∷ []) idx ≡ some node
    → P idx node
snoc_cases P nodes x old new idx node h = elim (snoc_lookup nodes x node idx h) [
  | inl e ↦ old idx node e
  | inr (e, e') ↦ rw (e, sym e') new
]

pub truth-append :
    (nodes : List RuleExprNode) (x : RuleExprNode) (predicates : List Mask) (row : ℕ)
    → Topological nodes
    → Topological (nodes ++ x ∷ [])
    → (fuel idx : ℕ) → idx < fuel
    → idx < length nodes
    → truth (nodes ++ x ∷ []) predicates row idx ≡ truth nodes predicates row idx
truth-append nodes x predicates row t t' zero idx h l = absurd (omega arith)
truth-append nodes x predicates row t t' (suc fuel) idx h l =
    let (node, e) = get_elem?-lt nodes idx l in
    truth_node (nodes ++ x ∷ []) predicates row idx node t'
      (get_elem?-append nodes (x ∷ []) idx l ∙ e)
    ∙ truth_kind_local predicates row node node.kind _ _ (
        All-map node.children
          (λ c b. truth-append nodes x predicates row t t' fuel c (omega arith) (omega arith))
          (t idx node e))
    ∙ sym (truth_node nodes predicates row idx node t e)

-- No element changes its index.
abbrev pub Extends : {A : Type 0} → List A → List A → Type 0
Extends {A} xs ys =
    ((i : ℕ) (a : A) → get_elem? xs i ≡ some a → get_elem? ys i ≡ some a) × (length xs ≤ length ys)

pub Extends-refl : {A : Type 0} (xs : List A) → Extends xs xs
Extends-refl xs = (λ i a h. h, omega arith)

pub Extends-trans : {A : Type 0} (xs ys zs : List A) → Extends xs ys → Extends ys zs → Extends xs zs
Extends-trans xs ys zs p q = (λ i a h. q.0 i a (p.0 i a h), omega (arith, p.1, q.1))
