-- ===== src/Compile/Yields.antt =====
-- The registers after the compiled operations hold what the condition means for a row.
use blazerules.Prelude.{
  ℕ, ◌<◌, ◌≤◌, ◌≡◌, refl, ap, ◌∙◌, Bool, true, false, not, List, ◌&&◌, All, arith,
}
use blazerules.Expr.Truth.{all_of, any_of, null}
use blazerules.Compile.{
  Leaf, Condition, Conditions, cons, KernelOp, predicate, bitwise_and, bitwise_or, bitwise_not,
  Code, inverted, emit, then_emit, negate_leaf, cons_register,
}
use blazerules.Compile.Meaning.{
  Registers, assign, execute, value, no_conditions, run-append, meaning, meaning_all, meaning_any,
  LeafNegates,
}

module _ {X : Type 0} (holds : Leaf X → Bool) where
  -- A compilation from `ctx` that leaves `b` in a register of its own and the registers that were
  -- in use alone.
  pub record Yields (ctx : Code X) (b : Bool) (result : ℕ × Code X) : Type 0 where
    pub allocated : result.0 < result.1.next_register
    pub grows : ctx.next_register ≤ result.1.next_register
    pub keeps : (r : ℕ) → r < ctx.next_register → value holds result.1 r ≡ value holds ctx r
    pub yields : value holds result.1 result.0 ≡ b

  value-emit :
      (op : ℕ → KernelOp X) (ctx : Code X)
      → value holds (emit op ctx).1 ≡ execute holds (op ctx.next_register) (value holds ctx)
  unfolding emit
  value-emit op ctx = run-append holds ctx.seq (op ctx.next_register) (λ r. false)

  -- An operation that writes the register it is given.
  emit-Yields :
      (op : ℕ → KernelOp X) (ctx : Code X) (b : Bool)
      → ((r : ℕ) (regs : Registers)
          → regs ≡ value holds ctx
          → execute holds (op r) regs ≡ assign regs r b)
      → Yields ctx b (emit op ctx)
  unfolding emit
  emit-Yields op ctx b h =
      let after : value holds (emit op ctx).1 ≡ assign (value holds ctx) ctx.next_register b =
        value-emit op ctx ∙ h ctx.next_register (value holds ctx) refl in
      record {
        allocated = omega arith;
        grows = omega arith;
        keeps = λ r l. ap (λ f. f r) after ∙ ground arith;
        yields = ap (λ f. f ctx.next_register) after ∙ ground arith;
      }

  Yields-trans :
      (ctx : Code X) (b b' : Bool) (first result : ℕ × Code X)
      → Yields ctx b first
      → Yields first.1 b' result
      → Yields ctx b' result
  Yields-trans ctx b b' first result y y' = record {
    allocated = y'.allocated;
    grows = omega (arith, y.grows, y'.grows);
    keeps = λ r l. y'.keeps r (omega (arith, y.grows)) ∙ y.keeps r l;
    yields = y'.yields;
  }

  pub negate-Yields :
      (ctx : Code X) (b : Bool) (result : ℕ × Code X)
      → Yields ctx b result
      → Yields ctx (not b) (then_emit bitwise_not result)
  negate-Yields ctx b result y = Yields-trans ctx b (not b) result _ y (
      emit-Yields (bitwise_not result.0) result.1 (not b)
        λ r regs e. ap (λ v. assign regs r (not v)) (ap (λ f. f result.0) e ∙ y.yields))

  pub predicate-Yields : (l : Leaf X) (ctx : Code X) → Yields ctx (holds l) (emit (predicate l) ctx)
  predicate-Yields l ctx = emit-Yields (predicate l) ctx (holds l) (λ r regs e. refl)

  pub negate_leaf-Yields :
      (b : Bool) (l : Leaf X) (ctx : Code X)
      → LeafNegates holds b l
      → Yields ctx (not (holds l)) (negate_leaf b l ctx)
  unfolding negate_leaf
  negate_leaf-Yields true l ctx h =
      emit-Yields (predicate (inverted l)) ctx (not (holds l)) (λ r regs e. ap (assign regs r) h)
  negate_leaf-Yields false l ctx h =
      negate-Yields ctx (holds l) (emit (predicate l) ctx) (predicate-Yields l ctx)

  pub record AllYield (ctx : Code X) (cs : Conditions X) (result : List ℕ × Code X) : Type 0 where
    pub allocated : All (λ r. r < result.1.next_register) result.0
    pub grows : ctx.next_register ≤ result.1.next_register
    pub keeps : (r : ℕ) → r < ctx.next_register → value holds result.1 r ≡ value holds ctx r
    pub all : all_of (value holds result.1) result.0 ≡ meaning_all holds cs
    pub any : any_of (value holds result.1) result.0 ≡ meaning_any holds cs
    pub empty : null result.0 ≡ no_conditions cs

  pub cons-AllYield :
      (ctx : Code X) (c : Condition X) (cs : Conditions X) (first : ℕ × Code X)
      (rest : List ℕ × Code X)
      → Yields ctx (meaning holds c) first
      → AllYield first.1 cs rest
      → AllYield ctx (cons c cs) (cons_register first.0 rest)
  unfolding meaning
  cons-AllYield ctx c cs first rest y ys =
      let head : value holds rest.1 first.0 ≡ meaning holds c =
        ys.keeps first.0 y.allocated ∙ y.yields in
      record {
        allocated = (omega (arith, y.allocated, ys.grows), ys.allocated);
        grows = omega (arith, y.grows, ys.grows);
        keeps = λ r l. ys.keeps r (omega (arith, y.grows)) ∙ y.keeps r l;
        all = rw (head, ys.all) refl;
        any = rw (head, ys.any) refl;
        empty = refl;
      }

  combine-Yields :
      (ctx : Code X) (cs : Conditions X) (result : List ℕ × Code X) (op : List ℕ → ℕ → KernelOp X)
      (b : Bool)
      → AllYield ctx cs result
      → ((r : ℕ) (regs : Registers)
          → regs ≡ value holds result.1
          → execute holds (op result.0 r) regs ≡ assign regs r b)
      → Yields ctx b (then_emit op result)
  combine-Yields ctx cs result op b ys h =
      let out = emit-Yields (op result.0) result.1 b h in
      record {
        allocated = out.allocated;
        grows = omega (arith, ys.grows, out.grows);
        keeps = λ r l. out.keeps r (omega (arith, ys.grows)) ∙ ys.keeps r l;
        yields = out.yields;
      }

  pub and-Yields :
      (ctx : Code X) (cs : Conditions X) (result : List ℕ × Code X)
      → AllYield ctx cs result
      → Yields ctx (not (no_conditions cs) && meaning_all holds cs) (then_emit bitwise_and result)
  and-Yields ctx cs result ys = combine-Yields ctx cs result bitwise_and _ ys λ r regs e.
      ap (assign regs r)
        (ap (λ f. not (null result.0) && all_of f result.0) e ∙ rw (ys.empty, ys.all) refl)

  pub or-Yields :
      (ctx : Code X) (cs : Conditions X) (result : List ℕ × Code X)
      → AllYield ctx cs result
      → Yields ctx (meaning_any holds cs) (then_emit bitwise_or result)
  or-Yields ctx cs result ys =
      combine-Yields ctx cs result bitwise_or _ ys
        λ r regs e. ap (assign regs r) (ap (λ f. any_of f result.0) e ∙ ys.any)
