-- ===== src/Expr/Correct.antt =====
-- The evaluation of a rule, node by node.
use mathlib.Core.List.{Perm}
use blazerules.Prelude.{
  ℕ, zero, suc, ◌<◌, ◌≡◌, refl, sym, ap, ◌∙◌, inl, inr, Bool, true, List, [], ◌∷◌, Option, none,
  some, length, get_elem?, get_or, replicate, length-replicate, All, arith, Option-cases, ltb,
}
use blazerules.Bitmask.{Mask, IsBytes, bitmask_bytes, bit_is_set}
use blazerules.Expr.{
  RuleExprKind, predicate, conjunction, disjunction, negation, RuleExprNode, EvalOptions, Scratch,
  Evaluate, ◌>>=◌, lift, ordered_children, eval_kind, eval, eval_rule, write_cache,
}
use blazerules.Expr.Truth.{
  All-map, all_of, truth_kind, truth, truth_node, quiet_kind, quiet, quiet_node,
}
use blazerules.Expr.Order.{ordered_children-perm, all_of-perm, null-perm, short-perm}
use blazerules.Expr.Loops.{Represents, CacheOk, Ran, Works, Ran-ext, Represents-ext}
use blazerules.Expr.Kinds.{
  IsPlan, IsUnshared, get_elem?-lt, get_elem?-get_or, All-get_or, write_cache-CacheOk, eval_not-Ran,
  eval_or-Ran, eval_and-Ran,
}

all_of-ltb : (k : ℕ) (xs : List ℕ) → All (λ c. c < k) xs → all_of (λ c. ltb c k) xs ≡ true
all_of-ltb k [] h = refl
all_of-ltb k (x ∷ xs) h = let first = h.0 in ground (arith, all_of-ltb k xs h.1)

ltb-All : (k : ℕ) (xs : List ℕ) → all_of (λ c. ltb c k) xs ≡ true → All (λ c. c < k) xs
ltb-All k [] h = tt
ltb-All k (x ∷ xs) h = (ground arith, ltb-All k xs (ground arith))

pub All-below-perm :
    (k : ℕ) {xs ys : List ℕ} → Perm xs ys → All (λ c. c < k) ys → All (λ c. c < k) xs
All-below-perm k {xs} {ys} p h = ltb-All k xs (all_of-perm (λ c. ltb c k) p ∙ all_of-ltb k ys h)

module _ (nodes : List RuleExprNode) (predicates : List Mask) (options : EvalOptions) (m : ℕ)
    (plan : IsPlan nodes predicates m) where
  abbrev v : ℕ → ℕ → Bool
  v c row = truth nodes predicates row c

  abbrev q : ℕ → Bool
  q = quiet options.enable_selection_vectors nodes

  predicate-Ran :
      (node : RuleExprNode) (st : Scratch)
      → node.predicate_index < length predicates
      → CacheOk m (length nodes) v q st
      → Ran m
          (length nodes)
          v
          q
          (λ row. bit_is_set (get_or predicates node.predicate_index []) row)
          true
          st
          (lift (get_elem? predicates node.predicate_index) st)
  predicate-Ran node st h ok =
      let here =
        All-get_or (λ mask. IsBytes mask × (length mask ≡ bitmask_bytes m)) predicates
          node.predicate_index [] h plan.masks in
      (
        get_or predicates node.predicate_index [],
        st,
        rw (get_elem?-get_or predicates node.predicate_index [] h) refl,
        record { bytes = here.0; size = here.1; bits = λ row l. refl },
        ok,
        λ t. refl,
      )

  kind-Ran :
      (run : Evaluate) (idx : ℕ) (node : RuleExprNode) (kind : RuleExprKind) (st : Scratch)
      → get_elem? nodes idx ≡ some node
      → node.kind ≡ kind
      → All (Works m (length nodes) v q run) node.children
      → All (Works m (length nodes) v q run) (ordered_children options node)
      → (options.enable_selection_vectors ≡ true → IsUnshared options nodes)
      → CacheOk m (length nodes) v q st
      → Ran m
          (length nodes)
          v
          q
          (λ row. truth_kind predicates row node kind (λ c. v c row))
          (quiet_kind options.enable_selection_vectors node kind q)
          st
          (eval_kind run predicates options m node kind st)
  unfolding eval_kind
  kind-Ran run idx node predicate st e ek h ho un ok =
      predicate-Ran node st (plan.in_range idx node e ek) ok
  kind-Ran run idx node negation st e ek h ho un ok =
      eval_not-Ran predicates options m (length nodes) v q run node.children st
        (plan.operand idx node e ek) h ok
  kind-Ran run idx node disjunction st e ek h ho un ok =
      eval_or-Ran predicates options m (length nodes) v q run node.children st h ok
  kind-Ran run idx node conjunction st e ek h ho un ok =
      let perm = ordered_children-perm options node (plan.order idx node e) in
      Ran-ext m (length nodes) v q _ _ _ _ st _
        (λ row l. rw (null-perm perm, all_of-perm (λ c. v c row) perm) refl)
        (λ t. rw (short-perm perm, all_of-perm q perm) t)
        (eval_and-Ran predicates options m (length nodes) v q run (ordered_children options node) st
          ho (λ s. un s idx node e ek) ok)

  eval-Ran :
      (fuel idx : ℕ) (st : Scratch)
      → idx < fuel
      → idx < length nodes
      → (options.enable_selection_vectors ≡ true → IsUnshared options nodes)
      → CacheOk m (length nodes) v q st
      → Ran m (length nodes) v q (v idx) (q idx) st (eval fuel nodes predicates options m idx st)
  unfolding eval
  eval-Ran zero idx st h hn un ok = absurd (omega arith)
  eval-Ran (suc fuel) idx st h hn un ok =
      let (cell, here) = get_elem?-lt st.node_masks idx (omega (arith, ok.sized)) in
      elim (Option-cases cell) [
        | inr (mask, e) ↦
            let hit : get_elem? st.node_masks idx ≡ some (some mask) = here ∙ ap some e in
            (mask, st, rw (hit, ◌>>=◌) refl, ok.cached idx mask hit, ok, λ t. refl)
        | inl e ↦
            let miss : get_elem? st.node_masks idx ≡ some none = here ∙ ap some e in
            let (node, en) = get_elem?-lt nodes idx hn in
            let below = plan.topological idx node en in
            let works : (cs : List ℕ)
                → All (λ c. c < idx) cs
                → All (Works m (length nodes) v q (eval fuel nodes predicates options m)) cs =
              λ cs b.
                All-map cs (λ c l st' ok'. eval-Ran fuel c st' (omega arith) (omega arith) un ok')
                  b in
            let (mask, st', e', rep, ok', keeps) =
              kind-Ran (eval fuel nodes predicates options m) idx node node.kind st en refl
                (works node.children below)
                (works (ordered_children options node) (
                  All-below-perm idx (ordered_children-perm options node (plan.order idx node en))
                    below))
                un ok in
            let rep' : Represents m (v idx) mask =
              Represents-ext m _ _ mask
                (λ row l. sym (truth_node nodes predicates row idx node plan.topological en)) rep in
            (
              mask,
              _,
              rw (miss, ◌>>=◌, en, e', write_cache) refl,
              rep',
              write_cache-CacheOk m (length nodes) v q st' idx mask rep' ok',
              λ t. keeps (
                  sym
                    (quiet_node options.enable_selection_vectors nodes idx node plan.topological en)
                  ∙ t),
            )
      ]

no_masks :
    (n i : ℕ) (mask : Mask)
    → get_elem? (replicate {A = Option Mask} n none) i ≡ some (some mask)
    → ⊥
no_masks zero i mask h = ground arith
no_masks (suc n) zero mask h = ground arith
no_masks (suc n) (suc i) mask h = no_masks n i mask h

-- For a plan whose nodes come after their children, whose predicate indices are in range, whose
-- recorded original orders are permutations of the children, whose negations have an operand and
-- whose predicate masks have the size of `m` rows, and a root that is a node: the evaluation of the
-- rule ends with a mask, and the mask has exactly the rows that satisfy the expression, whichever
-- options are set. With selection vectors on this needs, of every conjunction, that no child but
-- the first evaluated runs a conjunction of two or more children.
pub eval_rule-truth :
    (nodes : List RuleExprNode) (root_node : ℕ) (predicates : List Mask) (options : EvalOptions)
    (m : ℕ) (survivors : List ℕ)
    → IsPlan nodes predicates m
    → root_node < length nodes
    → (options.enable_selection_vectors ≡ true → IsUnshared options nodes)
    → (mask : Mask) × (eval_rule nodes root_node predicates options m survivors ≡ some mask)
      × Represents m (λ row. truth nodes predicates row root_node) mask
unfolding eval_rule
eval_rule-truth nodes root_node predicates options m survivors plan h un =
    let (mask, st', e, rep, ok, keeps) =
      eval-Ran nodes predicates options m plan (suc root_node) root_node
        (record { node_masks = replicate (length nodes) none; survivors = survivors }) (omega arith)
        h un
        (record {
          sized = length-replicate (length nodes) none;
          cached = λ i mask e. absurd (no_masks (length nodes) i mask e);
        }) in
    (mask, rw (eval_rule, e) refl, rep)
