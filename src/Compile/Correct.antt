-- ===== src/Compile/Correct.antt =====
-- The compilation of each kind of condition.
use blazerules.Prelude.{◌≡◌, refl, Bool, not, arith}
use blazerules.Compile.{
  Leaf, Condition, leaf, conjunction, disjunction, negation, Conditions, nil, cons, Code, inverts,
  compile, compile_not, compile_all,
}
use blazerules.Compile.Meaning.{value, meaning, Negates, NotNegates, AllNegate}
use blazerules.Compile.Yields.{
  Yields, AllYield, negate-Yields, predicate-Yields, negate_leaf-Yields, cons-AllYield, and-Yields,
  or-Yields,
}

module _ {X : Type 0} (holds : Leaf X → Bool) where
  mutual
    unfolding compile meaning Negates

    pub compile-Yields :
        (c : Condition X) (ctx : Code X)
        → Negates holds c
        → Yields holds ctx (meaning holds c) (compile c ctx)
    compile-Yields (leaf l) ctx h = predicate-Yields holds l ctx
    compile-Yields (conjunction cs) ctx h =
        and-Yields holds ctx cs _ (compile_all-AllYield cs ctx h)
    compile-Yields (disjunction cs) ctx h = or-Yields holds ctx cs _ (compile_all-AllYield cs ctx h)
    compile-Yields (negation c) ctx h = compile_not-Yields c ctx h

    pub compile_not-Yields :
        (c : Condition X) (ctx : Code X)
        → NotNegates holds c
        → Yields holds ctx (not (meaning holds c)) (compile_not c ctx)
    compile_not-Yields (leaf l) ctx h = negate_leaf-Yields holds (inverts l.kind) l ctx h
    compile_not-Yields (conjunction cs) ctx h =
        negate-Yields holds ctx _ _ (and-Yields holds ctx cs _ (compile_all-AllYield cs ctx h))
    compile_not-Yields (disjunction cs) ctx h =
        negate-Yields holds ctx _ _ (or-Yields holds ctx cs _ (compile_all-AllYield cs ctx h))
    compile_not-Yields (negation c) ctx h = negate-Yields holds ctx _ _ (compile_not-Yields c ctx h)

    pub compile_all-AllYield :
        (cs : Conditions X) (ctx : Code X)
        → AllNegate holds cs
        → AllYield holds ctx cs (compile_all cs ctx)
    compile_all-AllYield nil ctx h = record {
      allocated = tt;
      grows = omega arith;
      keeps = λ r l. refl;
      all = refl;
      any = refl;
      empty = refl;
    }
    compile_all-AllYield (cons c cs) ctx h =
        cons-AllYield holds ctx c cs _ _ (compile-Yields c ctx h.0)
          (compile_all-AllYield cs (compile c ctx).1 h.1)

-- If every predicate whose operator a negation changes does come out negated for the row, then the
-- register that the compilation of a condition returns holds, after the operations have run, what
-- the condition means for the row.
pub compile-meaning :
    {X : Type 0} (holds : Leaf X → Bool) (c : Condition X) (ctx : Code X)
    → Negates holds c
    → value holds (compile c ctx).1 (compile c ctx).0 ≡ meaning holds c
compile-meaning holds c ctx h = let y = compile-Yields holds c ctx h in y.yields
