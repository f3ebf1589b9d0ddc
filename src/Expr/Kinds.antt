-- ===== src/Expr/Kinds.antt =====
-- The plans that the compiler builds, the cache, and one node of each kind.

use blazerules.Prelude.{
  ℕ, zero, suc, ◌<◌, ◌≡◌, ◌≢◌, refl, sym, ◌∙◌, inl, inr, Bool, true, List, [], ◌∷◌, ◌&&◌, ◌||◌, not,
  leb, some, length, get_elem?, get_elem?-set, get_or, set, length-set, All, arith, Bool-cases,
}
use blazerules.Bitmask.{Mask, IsBytes, bitmask_bytes, bitwise_not, count_set_bits}
use blazerules.Expr.{
  predicate, conjunction, negation, RuleExprNode, EvalOptions, Scratch, Evaluate, pure, selects,
  and_rest, ordered_children, eval_and, eval_or, eval_not, or_children,
}
use blazerules.Expr.Truth.{
  Topological, all_of, any_of, null, truth_and, truth_not, quiet_and, quiet,
}
use blazerules.Expr.Order.{IsOrder}
use blazerules.Expr.Loops.{
  Represents, CacheOk, Ran, Works, Ran-ext, Ran-bind, or_children-Ran, and_children-Ran,
  zero-Represents, bitwise_not-Represents,
}
use blazerules.Expr.Select.{narrow-Ran}

-- A plan as the compiler builds it, with the masks of its predicates for `m` rows.
pub record IsPlan (nodes : List RuleExprNode) (predicates : List Mask) (m : ℕ) : Type 0 where
  pub topological : Topological nodes
  pub order : (idx : ℕ) (node : RuleExprNode) → get_elem? nodes idx ≡ some node → IsOrder node
  pub in_range :
      (idx : ℕ) (node : RuleExprNode)
      → get_elem? nodes idx ≡ some node
      → node.kind ≡ predicate
      → node.predicate_index < length predicates
  pub operand :
      (idx : ℕ) (node : RuleExprNode)
      → get_elem? nodes idx ≡ some node
      → node.kind ≡ negation
      → node.children ≢ []
  pub masks : All (λ mask. IsBytes mask × (length mask ≡ bitmask_bytes m)) predicates

abbrev pub tail : List ℕ → List ℕ
tail [] = []
tail (c ∷ cs) = cs

-- No conjunction's child but the first writes the survivors that the conjunction narrows.
abbrev pub IsUnshared : EvalOptions → List RuleExprNode → Type 0
IsUnshared options nodes =
    (idx : ℕ) (node : RuleExprNode)
    → get_elem? nodes idx ≡ some node
    → node.kind ≡ conjunction
    → All (λ c. quiet options.enable_selection_vectors nodes c ≡ true)
        (tail (ordered_children options node))

pub get_elem?-lt {ℓ} :
    {A : Type ℓ} (xs : List A) (i : ℕ) → i < length xs → (a : A) × (get_elem? xs i ≡ some a)
get_elem?-lt [] i h = absurd (omega arith)
get_elem?-lt (x ∷ xs) zero h = (x, refl)
get_elem?-lt (x ∷ xs) (suc i) h = get_elem?-lt xs i (omega arith)

pub get_elem?-get_or {ℓ} :
    {A : Type ℓ} (xs : List A) (i : ℕ) (d : A)
    → i < length xs
    → get_elem? xs i ≡ some (get_or xs i d)
get_elem?-get_or [] i d h = absurd (omega arith)
get_elem?-get_or (x ∷ xs) zero d h = refl
get_elem?-get_or (x ∷ xs) (suc i) d h = get_elem?-get_or xs i d (omega arith)

pub All-get_or {ℓ κ} :
    {A : Type ℓ} (P : A → Type κ) (xs : List A) (i : ℕ) (d : A)
    → i < length xs
    → All P xs
    → P (get_or xs i d)
All-get_or P [] i d h a = absurd (omega arith)
All-get_or P (x ∷ xs) zero d h a = a.0
All-get_or P (x ∷ xs) (suc i) d h a = All-get_or P xs i d (omega arith) a.1

some-inj : {a b : Mask} → some a ≡ some b → a ≡ b
some-inj e = ground arith

module _ (m len : ℕ) (v : ℕ → ℕ → Bool) (q : ℕ → Bool) where
  pub write_cache-CacheOk :
      (st : Scratch) (idx : ℕ) (mask : Mask)
      → Represents m (v idx) mask
      → CacheOk m len v q st
      → CacheOk m len v q (record st { node_masks = set st.node_masks idx (some mask) })
  write_cache-CacheOk st idx mask r ok = record {
    sized = length-set st.node_masks idx (some mask) ∙ ok.sized;
    cached = λ i mk e. elim (get_elem?-set st.node_masks idx i (some mask) (some mk) e) [
      | inl (ei, em) ↦ let em' : mask ≡ mk = some-inj em in rw (sym ei, sym em') r
      | inr kept ↦ ok.cached i mk kept
    ];
  }

module _ (predicates : List Mask) (options : EvalOptions) (m len : ℕ) (v : ℕ → ℕ → Bool)
    (q : ℕ → Bool) (run : Evaluate) where
  pub eval_not-Ran :
      (cs : List ℕ) (st : Scratch)
      → cs ≢ []
      → All (Works m len v q run) cs
      → CacheOk m len v q st
      → Ran m len v q (λ row. truth_not (λ c. v c row) cs) (all_of q cs) st (eval_not run m cs st)
  unfolding eval_not
  eval_not-Ran [] st ne h ok = absurd (ne refl)
  eval_not-Ran (c ∷ cs) st ne h ok =
      Ran-bind m len v q (v c) _ (q c) (all_of q cs) st (run c)
        (λ child. pure (bitwise_not child m)) (h.0 st ok)
        λ mask st' r ok'. (_, st', refl, bitwise_not-Represents m (v c) mask r, ok', λ t. refl)

  pub eval_or-Ran :
      (cs : List ℕ) (st : Scratch)
      → All (Works m len v q run) cs
      → CacheOk m len v q st
      → Ran m len v q (λ row. any_of (λ c. v c row) cs) (all_of q cs) st (eval_or run m cs st)
  unfolding eval_or
  eval_or-Ran [] st h ok = (_, st, refl, zero-Represents m, ok, λ t. refl)
  eval_or-Ran (c ∷ cs) st h ok =
      Ran-bind m len v q (v c) _ (q c) (all_of q cs) st (run c) (λ first. or_children run cs first)
        (h.0 st ok) λ mask st' r ok'. or_children-Ran m len v q run cs (v c) mask st' h.1 r ok'

  abbrev selection : Bool
  selection = options.enable_selection_vectors

  and_rest-Ran :
      (cs : List ℕ) (p : ℕ → Bool) (first : Mask) (st : Scratch)
      → All (Works m len v q run) cs
      → (selection ≡ true → All (λ c. q c ≡ true) cs)
      → Represents m p first
      → CacheOk m len v q st
      → Ran m len v q
          (λ row. p row && all_of (λ c. v c row) cs)
          ((not selection || null cs) && all_of q cs)
          st
          (and_rest run options m cs first st)
  unfolding and_rest selects
  and_rest-Ran [] p first st h hq r ok =
      Ran-ext m len v q _ _ (all_of q []) _ st _ (λ row l. refl) (λ t. refl)
        (and_children-Ran m len v q run [] p first st tt r ok)
  and_rest-Ran (d ∷ cs) p first st h hq r ok =
      elim (Bool-cases (selection && leb (count_set_bits first) (options.selection_limit m))) [
        | inl t ↦ rw t (
            narrow-Ran m len v q run (d ∷ cs) p first st _ h (hq (ground arith)) r ok
              (λ b. ground arith))
        | inr f ↦ rw f (
            Ran-ext m len v q _ _ (all_of q (d ∷ cs)) _ st _ (λ row l. refl) (λ b. ground arith)
              (and_children-Ran m len v q run (d ∷ cs) p first st h r ok))
      ]

  pub eval_and-Ran :
      (cs : List ℕ) (st : Scratch)
      → All (Works m len v q run) cs
      → (selection ≡ true → All (λ c. q c ≡ true) (tail cs))
      → CacheOk m len v q st
      → Ran m len v q
          (λ row. truth_and (λ c. v c row) cs)
          (quiet_and selection q cs)
          st
          (eval_and run options m cs st)
  unfolding eval_and
  eval_and-Ran [] st h hq ok = (_, st, refl, zero-Represents m, ok, λ t. refl)
  eval_and-Ran (c ∷ cs) st h hq ok =
      Ran-ext m len v q _ _ _ _ st _ (λ row l. refl) (λ t. ground arith)
        (Ran-bind m len v q (v c) (λ row. v c row && all_of (λ d. v d row) cs) (q c)
          ((not selection || null cs) && all_of q cs) st (run c)
          (λ first. and_rest run options m cs first) (h.0 st ok)
          λ mask st' r ok'. and_rest-Ran cs (v c) mask st' h.1 hq r ok')
