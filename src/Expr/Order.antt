-- ===== src/Expr/Order.antt =====
-- The compiler may evaluate the children of a conjunction in another order; the meaning and the
-- quietness of the node do not depend on it.
use mathlib.Core.Bool.{Bool-set}
use mathlib.Core.Logic.{∥∥₁_elim}
use mathlib.Core.List.{Perm, Permᴰ}
use mathlib.Core.List.Perm
use mathlib.Core.Path.{ap₂}
use blazerules.Prelude.{
  ℕ, ◌≡◌, refl, ap, ◌∙◌, ◌⊎◌, inl, inr, Bool, true, false, List, [], ◌∷◌, ◌&&◌, arith,
}
use blazerules.Expr.{RuleExprKind, RuleExprNode, EvalOptions, ordered_children, choose_children}
use blazerules.Expr.Truth.{all_of, null, short}

module _ (f : ℕ → Bool) where
  all_of_permᴰ : {xs ys : List ℕ} → Permᴰ xs ys → all_of f xs ≡ all_of f ys
  all_of_permᴰ Permᴰ.nil = refl
  all_of_permᴰ (Permᴰ.cons e d) = ap₂ ◌&&◌ (ap f e) (all_of_permᴰ d)
  all_of_permᴰ (Permᴰ.swap {a} {b} {a'} {b'} {l} e e') = ground (arith, ap f e, ap f e')
  all_of_permᴰ (Permᴰ.trans d d') = all_of_permᴰ d ∙ all_of_permᴰ d'

  pub all_of-perm : {xs ys : List ℕ} → Perm xs ys → all_of f xs ≡ all_of f ys
  all_of-perm p = ∥∥₁_elim p (Bool-set _ _) all_of_permᴰ

null_permᴰ : {xs ys : List ℕ} → Permᴰ xs ys → null xs ≡ null ys
null_permᴰ Permᴰ.nil = refl
null_permᴰ (Permᴰ.cons e d) = refl
null_permᴰ (Permᴰ.swap e e') = refl
null_permᴰ (Permᴰ.trans d d') = null_permᴰ d ∙ null_permᴰ d'

pub null-perm : {xs ys : List ℕ} → Perm xs ys → null xs ≡ null ys
null-perm p = ∥∥₁_elim p (Bool-set _ _) null_permᴰ

short_permᴰ : {xs ys : List ℕ} → Permᴰ xs ys → short xs ≡ short ys
short_permᴰ Permᴰ.nil = refl
short_permᴰ (Permᴰ.cons e d) = null_permᴰ d
short_permᴰ (Permᴰ.swap e e') = refl
short_permᴰ (Permᴰ.trans d d') = short_permᴰ d ∙ short_permᴰ d'

pub short-perm : {xs ys : List ℕ} → Perm xs ys → short xs ≡ short ys
short-perm p = ∥∥₁_elim p (Bool-set _ _) short_permᴰ

-- What is recorded as the original order is a permutation of the sorted children, or absent.
abbrev pub IsOrder : RuleExprNode → Type 0
IsOrder node = (node.original_children ≡ []) ⊎ Perm node.original_children node.children

-- A conjunction has its original order recorded.
abbrev pub RecordsOrder : RuleExprNode → Type 0
RecordsOrder node = node.kind ≡ RuleExprKind.conjunction → Perm node.original_children node.children

choose_perm :
    (adaptive : Bool) (children original : List ℕ)
    → (original ≡ []) ⊎ Perm original children
    → Perm (choose_children adaptive children original) children
unfolding choose_children
choose_perm adaptive children [] h = Perm.refl children
choose_perm true children (c ∷ cs) h = Perm.refl children
choose_perm false children (c ∷ cs) (inl e) = cc
choose_perm false children (c ∷ cs) (inr p) = p

pub ordered_children-perm :
    (options : EvalOptions) (node : RuleExprNode)
    → IsOrder node
    → Perm (ordered_children options node) node.children
unfolding ordered_children
ordered_children-perm options node h =
    choose_perm options.enable_adaptive_predicate_ordering node.children node.original_children h
