-- ===== src/GlobalPlan/Build.antt =====
-- What each operation adds.
use mathlib.Core.List.{Perm}
use mathlib.Core.List.Perm
use blazerules.Prelude.{
  ℕ, suc, ◌+◌, ◌<◌, ◌≤◌, ◌≡◌, refl, ap, ◌∙◌, inl, inr, Bool, true, not, List, [], ◌∷◌, ltb, ◌&&◌,
  Option, some, length, length-append, get_elem?, All, arith, Bool-cases, option_both,
}
use blazerules.Expr.{RuleExprKind}
use blazerules.Expr.Truth.{All-map, all_of, any_of, null, all_of_local, any_of_local, truth}
use blazerules.Expr.Order.{all_of-perm, null-perm}
use blazerules.Expr.Correct.{All-below-perm}
use blazerules.Compile.{Leaf, KernelOp, predicate, bitwise_and, bitwise_or, bitwise_not}
use blazerules.Compile.Meaning.{Registers, execute, run}
use blazerules.GlobalPlan.{
  Builder, insert_by, sort_by, nodes_of, with_children, find_key, intern, expr_cost, build_op,
  build,
}
use blazerules.GlobalPlan.Append.{
  Extends, Extends-refl, Extends-trans, get_elem?-append, get_elem?-last, get_elem?-bound,
}
use blazerules.GlobalPlan.Dense.{OpAt, WellFormed}
use blazerules.GlobalPlan.Built.{Built, add_at-Built}

insert_by-perm : (cost : ℕ → ℕ) (c : ℕ) (ds : List ℕ) → Perm (insert_by cost c ds) (c ∷ ds)
unfolding insert_by
insert_by-perm cost c [] = Perm.refl (c ∷ [])
insert_by-perm cost c (d ∷ ds) = elim (Bool-cases (ltb (cost d) (cost c))) [
  | inl t ↦ rw t (Perm.trans (Perm.cons d (insert_by-perm cost c ds)) (Perm.swap c d ds))
  | inr f ↦ rw f (Perm.refl (c ∷ d ∷ ds))
]

sort_by-perm : (cost : ℕ → ℕ) (cs : List ℕ) → Perm (sort_by cost cs) cs
unfolding sort_by
sort_by-perm cost [] = Perm.refl []
sort_by-perm cost (c ∷ cs) =
    Perm.trans (insert_by-perm cost c (sort_by cost cs)) (Perm.cons c (sort_by-perm cost cs))

nodes_of-dense :
    (register_node : ℕ → Option ℕ) (n : ℕ) (rs : List ℕ)
    → ((r : ℕ) → r < n → register_node r ≡ some r)
    → All (λ r. r < n) rs
    → nodes_of register_node rs ≡ some rs
unfolding nodes_of
nodes_of-dense register_node n [] h a = refl
nodes_of-dense register_node n (r ∷ rs) h a =
    rw (nodes_of, h r a.0, nodes_of-dense register_node n rs h a.1) refl

module _ {X : Type 0} (same_key : Leaf X → Leaf X → Bool) (holds : Leaf X → Bool) (row : ℕ)
    (sound : (p l : Leaf X) → same_key p l ≡ true → holds p ≡ holds l) where
  find_key-some :
      (l : Leaf X) (ps : List (Leaf X)) (i k : ℕ)
      → find_key same_key l ps i ≡ some k
      → (j : ℕ) × (p : Leaf X) × (k ≡ i + j) × (get_elem? ps j ≡ some p) × (same_key p l ≡ true)
  unfolding find_key
  find_key-some l [] i k h = absurd (ground arith)
  find_key-some l (p ∷ ps) i k h = elim (Bool-cases (same_key p l)) [
    | inl t ↦ (0, p, ground (arith, t, h), refl, t)
    | inr f ↦
        let (j, q, e, at_j, t) = find_key-some l ps (suc i) k (ground (arith, f, h)) in
        (suc j, q, omega arith, at_j, t)
  ]

  -- The id that a predicate gets is that of a predicate that holds alike, and no id changes.
  abbrev Interned : List (Leaf X) → Leaf X → ℕ × List (Leaf X) → Type 0
  Interned ps l (id, ps') =
      (p : Leaf X) × (get_elem? ps' id ≡ some p)
      × (holds p ≡ holds l)
      × ((i : ℕ) (q : Leaf X) → get_elem? ps i ≡ some q → get_elem? ps' i ≡ some q)
      × (length ps ≤ length ps')

  intern-Interned : (ps : List (Leaf X)) (l : Leaf X) → Interned ps l (intern same_key ps l)
  unfolding intern
  intern-Interned ps l =
      option_both (Interned ps l) (find_key same_key l ps 0) _ _
        (λ e. (
          l,
          get_elem?-last ps l,
          refl,
          λ i q h. get_elem?-append ps (l ∷ []) i (get_elem?-bound ps i q h) ∙ h,
          omega (arith, length-append ps (l ∷ [])),
        ))
        λ k e.
          let (j, p, ej, at_j, t) = find_key-some l ps 0 k e in
          let e' : k ≡ j = omega arith in (p, rw e' at_j, sound p l t, λ i q h. h, omega arith)

  Built-grow :
      (n : ℕ) (st : Builder X) (regs : Registers) (ps : List (Leaf X))
      → ((i : ℕ) (q : Leaf X) → get_elem? st.predicates i ≡ some q → get_elem? ps i ≡ some q)
      → length st.predicates ≤ length ps
      → Built holds row n st regs
      → Built holds row n (record st { predicates = ps }) regs
  Built-grow n st regs ps kept longer t = record {
    size = t.size;
    dense = t.dense;
    topological = t.topological;
    order = t.order;
    in_range = λ idx node e k. omega (arith, t.in_range idx node e k);
    operand = t.operand;
    truths = λ masks a r l. t.truths masks (λ i p e. a i p (kept i p e)) r l;
  }

  abbrev Steps : ℕ → Registers → List (Leaf X) → Option (Builder X) → Type 0
  Steps n regs ps result =
      (st' : Builder X) × (result ≡ some st')
      × Built holds row n st' regs
      × Extends ps st'.predicates

  build_op-Built :
      (n : ℕ) (op : KernelOp X) (st : Builder X) (regs : Registers)
      → OpAt n op
      → Built holds row n st regs
      → Steps (suc n) (execute holds op regs) st.predicates (build_op same_key op st)
  unfolding build_op
  build_op-Built n (predicate l r) st regs o t =
      let (p, at_id, same, kept, longer) = intern-Interned st.predicates l in
      let ps = (intern same_key st.predicates l).1 in
      (
        _,
        refl,
        add_at-Built holds row n r (record st { predicates = ps }) regs _ (holds l) o
            (Built-grow n st regs ps kept longer t)
            (record {
              below = tt;
              ordered = (inl refl, λ k. absurd (ground (arith, k)));
              ranged = λ k. get_elem?-bound ps _ p at_id;
              has_operand = λ k. absurd (ground arith);
              means = λ masks a. a _ p at_id ∙ same;
            }),
        (kept, longer),
      )
  build_op-Built n (bitwise_and rs r) st regs (o, a) t =
      let cost = expr_cost (length st.nodes) st.nodes st.predicates in
      rw (build_op, nodes_of-dense st.register_node n rs t.dense a)
        (
          _,
          refl,
          add_at-Built holds row n r st regs
              (with_children RuleExprKind.conjunction (sort_by cost rs) rs)
              (not (null rs) && all_of regs rs) o t
              (record {
                below = All-below-perm n (sort_by-perm cost rs) a;
                ordered =
                    (inr (Perm.symm (sort_by-perm cost rs)), λ k. Perm.symm (sort_by-perm cost rs));
                ranged = λ k. absurd (ground arith);
                has_operand = λ k. absurd (ground arith);
                means = λ masks g.
                    ap (λ b. not b && all_of (truth st.nodes masks row) (sort_by cost rs))
                      (null-perm (sort_by-perm cost rs))
                    ∙ ap (λ b. not (null rs) && b)
                        (all_of-perm (truth st.nodes masks row) (sort_by-perm cost rs)
                          ∙ all_of_local _ regs rs (All-map rs (λ c l. t.truths masks g c l) a));
              }),
          Extends-refl st.predicates,
        )
  build_op-Built n (bitwise_or rs r) st regs (o, a) t =
      rw (build_op, nodes_of-dense st.register_node n rs t.dense a)
        (
          _,
          refl,
          add_at-Built holds row n r st regs (with_children RuleExprKind.disjunction rs [])
              (any_of regs rs) o t
              (record {
                below = a;
                ordered = (inl refl, λ k. absurd (ground (arith, k)));
                ranged = λ k. absurd (ground arith);
                has_operand = λ k. absurd (ground arith);
                means =
                    λ masks g. any_of_local _ regs rs (All-map rs (λ c l. t.truths masks g c l) a);
              }),
          Extends-refl st.predicates,
        )
  build_op-Built n (bitwise_not i r) st regs (o, l) t =
      rw (build_op, t.dense i l)
        (
          _,
          refl,
          add_at-Built holds row n r st regs (with_children RuleExprKind.negation (i ∷ []) [])
              (not (regs i)) o t
              (record {
                below = (l, tt);
                ordered = (inl refl, λ k. absurd (ground (arith, k)));
                ranged = λ k. absurd (ground arith);
                has_operand = λ k e. absurd (ground arith);
                means = λ masks g. ap not (t.truths masks g i l);
              }),
          Extends-refl st.predicates,
        )

  pub build-Built :
      (n : ℕ) (ops : List (KernelOp X)) (st : Builder X) (regs : Registers)
      → WellFormed n ops
      → Built holds row n st regs
      → Steps (n + length ops) (run holds ops regs) st.predicates (build same_key ops st)
  unfolding build
  build-Built n [] st regs w t =
      let e : n + 0 ≡ n = omega arith in (st, refl, rw e t, Extends-refl st.predicates)
  build-Built n (op ∷ ops) st regs w t =
      let (st₁, e₁, t₁, x₁) = build_op-Built n op st regs w.0 t in
      let (st₂, e₂, t₂, x₂) = build-Built (suc n) ops st₁ (execute holds op regs) w.1 t₁ in
      let count : n + suc (length ops) ≡ suc n + length ops = omega arith in
      (
        st₂,
        rw (build, e₁) e₂,
        rw count t₂,
        Extends-trans st.predicates st₁.predicates st₂.predicates x₁ x₂,
      )
