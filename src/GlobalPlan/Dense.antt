-- ===== src/GlobalPlan/Dense.antt =====
-- The order in which a compilation writes the registers.
use blazerules.Prelude.{
  ℕ, suc, ◌+◌, ◌<◌, ◌≡◌, refl, Bool, true, false, List, [], ◌∷◌, ◌++◌, length, length-append, All,
  arith,
}
use blazerules.Compile.{
  Leaf, Condition, leaf, conjunction, disjunction, negation, Conditions, nil, cons, KernelOp,
  predicate, bitwise_and, bitwise_or, bitwise_not, Code, inverts, inverted, emit, then_emit,
  negate_leaf, compile, compile_not, compile_all,
}
use blazerules.Compile.Meaning.{Negates, NotNegates, AllNegate, LeafNegates, meaning}
use blazerules.Compile.Yields.{Yields, and-Yields, or-Yields, predicate-Yields}
use blazerules.Compile.Correct.{compile_not-Yields, compile_all-AllYield}

module _ {X : Type 0} where
  abbrev pub OpAt : ℕ → KernelOp X → Type 0
  OpAt n (predicate l r) = r ≡ n
  OpAt n (bitwise_and rs r) = (r ≡ n) × All (λ i. i < n) rs
  OpAt n (bitwise_or rs r) = (r ≡ n) × All (λ i. i < n) rs
  OpAt n (bitwise_not i r) = (r ≡ n) × (i < n)

  abbrev pub WellFormed : ℕ → List (KernelOp X) → Type 0
  WellFormed n [] = Unit {0}
  WellFormed n (op ∷ ops) = OpAt n op × WellFormed (suc n) ops

  WellFormed-append :
      (n k : ℕ) (xs : List (KernelOp X)) (op : KernelOp X)
      → k ≡ n + length xs
      → WellFormed n xs
      → OpAt k op
      → WellFormed n (xs ++ op ∷ [])
  WellFormed-append n k [] op e h o = let e' : n ≡ k = omega arith in (rw e' o, tt)
  WellFormed-append n k (x ∷ xs) op e h o =
      (h.0, WellFormed-append (suc n) k xs op (omega arith) h.1 o)

  pub record IsDense (ctx : Code X) : Type 0 where
    pub formed : WellFormed 0 ctx.seq
    pub counted : ctx.next_register ≡ length ctx.seq

  emit-IsDense :
      (op : ℕ → KernelOp X) (ctx : Code X)
      → OpAt ctx.next_register (op ctx.next_register)
      → IsDense ctx
      → IsDense (emit op ctx).1
  unfolding emit
  emit-IsDense op ctx o d = record {
    formed =
        WellFormed-append 0 ctx.next_register ctx.seq (op ctx.next_register)
          (omega (arith, d.counted)) d.formed o;
    counted = omega (arith, d.counted, length-append ctx.seq (op ctx.next_register ∷ []));
  }

  module _ (holds : Leaf X → Bool) where
    negate-IsDense :
        (ctx : Code X) (b : Bool) (result : ℕ × Code X)
        → Yields holds ctx b result
        → IsDense result.1
        → IsDense (then_emit bitwise_not result).1
    negate-IsDense ctx b result y d =
        emit-IsDense (bitwise_not result.0) result.1 (refl, y.allocated) d

    negate_leaf-IsDense :
        (b : Bool) (l : Leaf X) (ctx : Code X)
        → LeafNegates holds b l
        → IsDense ctx
        → IsDense (negate_leaf b l ctx).1
    unfolding negate_leaf
    negate_leaf-IsDense true l ctx h d = emit-IsDense (predicate (inverted l)) ctx refl d
    negate_leaf-IsDense false l ctx h d =
        negate-IsDense ctx (holds l) (emit (predicate l) ctx) (predicate-Yields holds l ctx)
          (emit-IsDense (predicate l) ctx refl d)

    mutual
      unfolding compile meaning Negates

      pub compile-IsDense :
          (c : Condition X) (ctx : Code X)
          → Negates holds c
          → IsDense ctx
          → IsDense (compile c ctx).1
      compile-IsDense (leaf l) ctx h d = emit-IsDense (predicate l) ctx refl d
      compile-IsDense (conjunction cs) ctx h d =
          let ys = compile_all-AllYield holds cs ctx h in
          emit-IsDense (bitwise_and (compile_all cs ctx).0) (compile_all cs ctx).1
            (refl, ys.allocated) (compile_all-IsDense cs ctx h d)
      compile-IsDense (disjunction cs) ctx h d =
          let ys = compile_all-AllYield holds cs ctx h in
          emit-IsDense (bitwise_or (compile_all cs ctx).0) (compile_all cs ctx).1
            (refl, ys.allocated) (compile_all-IsDense cs ctx h d)
      compile-IsDense (negation c) ctx h d = compile_not-IsDense c ctx h d

      compile_not-IsDense :
          (c : Condition X) (ctx : Code X)
          → NotNegates holds c
          → IsDense ctx
          → IsDense (compile_not c ctx).1
      compile_not-IsDense (leaf l) ctx h d = negate_leaf-IsDense (inverts l.kind) l ctx h d
      compile_not-IsDense (conjunction cs) ctx h d =
          let ys = compile_all-AllYield holds cs ctx h in
          negate-IsDense ctx _ _ (and-Yields holds ctx cs _ ys) (
            emit-IsDense (bitwise_and (compile_all cs ctx).0) (compile_all cs ctx).1
              (refl, ys.allocated) (compile_all-IsDense cs ctx h d))
      compile_not-IsDense (disjunction cs) ctx h d =
          let ys = compile_all-AllYield holds cs ctx h in
          negate-IsDense ctx _ _ (or-Yields holds ctx cs _ ys) (
            emit-IsDense (bitwise_or (compile_all cs ctx).0) (compile_all cs ctx).1
              (refl, ys.allocated) (compile_all-IsDense cs ctx h d))
      compile_not-IsDense (negation c) ctx h d =
          negate-IsDense ctx _ _ (compile_not-Yields holds c ctx h) (compile_not-IsDense c ctx h d)

      compile_all-IsDense :
          (cs : Conditions X) (ctx : Code X)
          → AllNegate holds cs
          → IsDense ctx
          → IsDense (compile_all cs ctx).1
      compile_all-IsDense nil ctx h d = d
      compile_all-IsDense (cons c cs) ctx h d =
          compile_all-IsDense cs (compile c ctx).1 h.1 (compile-IsDense c ctx h.0 d)
