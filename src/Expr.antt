-- ===== src/Expr.antt =====
-- `ExprEvaluator` of src/core/orchestrator.cpp: one rule's expression over the masks of its
-- predicates, with the cache of node masks and the `survivors` vector that all calls share.
-- `none` is an index out of range, or the end of the fuel.
pub mod Truth
pub mod Order
pub mod Loops
pub mod Select
pub mod Kinds
pub mod Correct
pub mod Examples
use mathlib.Core.List.{filter}
use blazerules.Prelude.{
  ℕ, zero, suc, ◌+◌, ◌<◌, ◌≡◌, Bool, true, false, List, [], ◌∷◌, ◌==◌, leb, ◌&&◌, if◌then◌else◌,
  Option, none, some, length, get_elem?, set, replicate, not,
}
use blazerules.Bitmask.{
  Mask, bitmask_bytes, count_set_bits, collect_set_bits, or_into, and_into, bit_is_set, set_bit,
  bitwise_not,
}

pub data RuleExprKind : Type 0 where
  predicate conjunction disjunction negation : RuleExprKind

pub record RuleExprNode : Type 0 where
  pub kind : RuleExprKind
  pub predicate_index : ℕ
  pub children : List ℕ
  pub original_children : List ℕ

-- `selection_limit m` is the integer part of `selection_vector_threshold * m`.
pub record EvalOptions : Type 0 where
  pub enable_selection_vectors : Bool
  pub selection_limit : ℕ → ℕ
  pub enable_adaptive_predicate_ordering : Bool

pub record Scratch : Type 0 where
  pub node_masks : List (Option Mask)
  pub survivors : List ℕ

-- A computation on the scratch space that can fail.
abbrev pub M : Type 0 → Type 0
M A = Scratch → Option (A × Scratch)

infixl 5 ◌>>=◌ ◌>>◌
abbrev pub ◌>>=◌ : {A B : Type 0} → M A → (A → M B) → M B
◌>>=◌ m f st = elim (m st) [ none ↦ none | some (a, st') ↦ f a st' ]

abbrev pub ◌>>◌ : {B : Type 0} → M (Unit {0}) → M B → M B
◌>>◌ m k = m >>= λ _. k

abbrev pub pure : {A : Type 0} → A → M A
pure a st = some (a, st)

-- An element of a vector; `none` where the source would read out of bounds.
abbrev pub lift : {A : Type 0} → Option A → M A
lift none st = none
lift (some a) st = some (a, st)

abbrev pub put_survivors : List ℕ → M (Unit {0})
put_survivors xs st = some (tt, record st { survivors = xs })

-- The survivors whose bit is set in the child's mask.
unfoldable pub keep : Mask → List ℕ → List ℕ
keep mask [] = []
keep mask (i ∷ is) = let rest = keep mask is in if bit_is_set mask i then i ∷ rest else rest

unfoldable pub set_bits : List ℕ → Mask → Mask
set_bits [] out = out
set_bits (i ∷ is) out = set_bits is (set_bit out i)

abbrev pub Evaluate : Type 0
Evaluate = ℕ → M Mask

unfoldable pub or_children : Evaluate → List ℕ → Mask → M Mask
or_children eval [] out = pure out
or_children eval (c ∷ cs) out = do mask ← eval c; or_children eval cs (or_into out mask)

unfoldable pub and_children : Evaluate → List ℕ → Mask → M Mask
and_children eval [] out = pure out
and_children eval (c ∷ cs) out = do mask ← eval c; and_children eval cs (and_into out mask)

-- The loop that narrows the survivors stops when there is none left. A call of `eval` may write
-- the vector before it is filtered.
unfoldable pub select_children : Evaluate → List ℕ → M (Unit {0})
unfolding keep
select_children eval [] st = some (tt, st)
select_children eval (c ∷ cs) st = elim st.survivors [
  | [] ↦ some (tt, st)
  | i ∷ is ↦
      (eval c >>= λ mask st'.
      select_children eval cs (record st' { survivors = keep mask st'.survivors }))
        st
]

abbrev pub read_survivors : M (List ℕ)
read_survivors st = some (st.survivors, st)

-- `children.size() > 1 && first_count <= threshold`, where `rest` are the children but the first.
unfoldable pub selects : EvalOptions → ℕ → List ℕ → Mask → Bool
selects options m [] first = false
selects options m (c ∷ cs) first =
    options.enable_selection_vectors && leb (count_set_bits first) (options.selection_limit m)

unfoldable pub narrow : Evaluate → ℕ → List ℕ → Mask → M Mask
unfolding select_children set_bits
narrow eval m rest first =
    if count_set_bits first == 0 then pure (replicate (bitmask_bytes m) 0) else do
      put_survivors (collect_set_bits first m)
      select_children eval rest
      left ← read_survivors
      pure (set_bits left (replicate (bitmask_bytes m) 0))

unfoldable pub and_rest : Evaluate → EvalOptions → ℕ → List ℕ → Mask → M Mask
unfolding selects narrow and_children
and_rest eval options m rest first =
    if selects options m rest first then narrow eval m rest first else and_children eval rest first

-- The children in the order in which they are evaluated: `original_children` only where the
-- reordering is off and they were recorded.
unfoldable pub choose_children : Bool → List ℕ → List ℕ → List ℕ
choose_children adaptive children [] = children
choose_children adaptive children (c ∷ cs) = if adaptive then children else c ∷ cs

unfoldable pub ordered_children : EvalOptions → RuleExprNode → List ℕ
unfolding choose_children
ordered_children options node =
    choose_children options.enable_adaptive_predicate_ordering node.children node.original_children

unfoldable pub eval_and : Evaluate → EvalOptions → ℕ → List ℕ → M Mask
unfolding and_rest
eval_and eval options m [] = pure (replicate (bitmask_bytes m) 0)
eval_and eval options m (c ∷ cs) = do first ← eval c; and_rest eval options m cs first

unfoldable pub eval_or : Evaluate → ℕ → List ℕ → M Mask
unfolding or_children
eval_or eval m [] = pure (replicate (bitmask_bytes m) 0)
eval_or eval m (c ∷ cs) = do first ← eval c; or_children eval cs first

unfoldable pub eval_not : Evaluate → ℕ → List ℕ → M Mask
eval_not eval m [] st = none
eval_not eval m (c ∷ cs) st = (do child ← eval c; pure (bitwise_not child m)) st

-- A node that is not in the cache.
unfoldable pub eval_kind :
    Evaluate → List Mask → EvalOptions → ℕ → RuleExprNode → RuleExprKind → M Mask
unfolding eval_and eval_or eval_not ordered_children
eval_kind eval predicates options m node predicate =
    lift (get_elem? predicates node.predicate_index)
eval_kind eval predicates options m node negation = eval_not eval m node.children
eval_kind eval predicates options m node disjunction = eval_or eval m node.children
eval_kind eval predicates options m node conjunction =
    eval_and eval options m (ordered_children options node)

abbrev pub read_cache : ℕ → M (Option Mask)
read_cache idx st = lift (get_elem? st.node_masks idx) st

abbrev pub write_cache : ℕ → Mask → M Mask
write_cache idx mask st = some (mask, record st { node_masks = set st.node_masks idx (some mask) })

unfoldable pub eval : ℕ → List RuleExprNode → List Mask → EvalOptions → ℕ → Evaluate
unfolding eval_kind
eval zero nodes predicates options m idx st = none
eval (suc fuel) nodes predicates options m idx st =
    (read_cache idx >>= λ cached. elim cached [
      | some mask ↦ pure mask
      | none ↦ do
        node ← lift (get_elem? nodes idx)
        mask ← eval_kind (eval fuel nodes predicates options m) predicates options m node node.kind
        write_cache idx mask
    ])
      st

-- The mask of a rule: the root node, from an empty cache.
unfoldable pub eval_rule :
    List RuleExprNode → ℕ → List Mask → EvalOptions → ℕ → List ℕ → Option Mask
unfolding eval
eval_rule nodes root_node predicates options m survivors =
    elim (eval (suc root_node) nodes predicates options m root_node
      (record { node_masks = replicate (length nodes) none; survivors = survivors })) [
        | none ↦ none
        | some (mask, st) ↦ some mask
      ]
