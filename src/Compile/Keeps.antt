-- ===== src/Compile/Keeps.antt =====
-- The compilation leaves the registers of earlier operations alone.
use blazerules.Prelude.{ℕ, ◌<◌, ◌≤◌, ◌≡◌, refl, ap, ◌∙◌, Bool, true, false, arith}
use blazerules.Compile.{
  Leaf, Condition, leaf, conjunction, disjunction, negation, Conditions, nil, cons, KernelOp,
  predicate, bitwise_and, bitwise_or, bitwise_not, Code, inverts, inverted, emit, negate_leaf,
  compile, compile_not, compile_all,
}
use blazerules.Compile.Meaning.{Registers, assign, execute, value, run-append}

module _ {X : Type 0} (holds : Leaf X → Bool) where
  -- The code of `ctx'` keeps the registers that `ctx` has taken.
  record Keeps (ctx ctx' : Code X) : Type 0 where
    grows : ctx.next_register ≤ ctx'.next_register
    keeps : (r : ℕ) → r < ctx.next_register → value holds ctx' r ≡ value holds ctx r

  Keeps-refl : (ctx : Code X) → Keeps ctx ctx
  Keeps-refl ctx = record { grows = omega arith; keeps = λ r l. refl }

  Keeps-trans : (a b c : Code X) → Keeps a b → Keeps b c → Keeps a c
  Keeps-trans a b c h k = record {
    grows = omega (arith, h.grows, k.grows);
    keeps = λ r l. k.keeps r (omega (arith, h.grows)) ∙ h.keeps r l;
  }

  -- A result that keeps the registers and has one of its own.
  abbrev Takes : Code X → ℕ × Code X → Type 0
  Takes ctx result = Keeps ctx result.1 × (result.0 < result.1.next_register)

  -- An operation writes the register that it is given, whatever it computes.
  abbrev Writes : (ℕ → KernelOp X) → Type 0
  Writes op =
      (r : ℕ) (regs : Registers) → (b : Bool) × (execute holds (op r) regs ≡ assign regs r b)

  emit-Takes : (op : ℕ → KernelOp X) (ctx : Code X) → Writes op → Takes ctx (emit op ctx)
  unfolding emit
  emit-Takes op ctx w =
      let (b, e) = w ctx.next_register (value holds ctx) in
      let after = run-append holds ctx.seq (op ctx.next_register) (λ r. false) ∙ e in
      (
        record { grows = omega arith; keeps = λ r l. ap (λ f. f r) after ∙ ground arith },
        omega arith,
      )

  then-Takes :
      (op : ℕ → KernelOp X) (ctx between : Code X)
      → Keeps ctx between
      → Writes op
      → Takes ctx (emit op between)
  then-Takes op ctx between h w =
      let (k, l) = emit-Takes op between w in (Keeps-trans ctx between _ h k, l)

  not-Takes : (ctx : Code X) (r : ℕ × Code X) → Takes ctx r → Takes ctx (emit (bitwise_not r.0) r.1)
  not-Takes ctx (a, between) (h, l) = then-Takes (bitwise_not a) ctx between h (λ r regs. (_, refl))

  negate_leaf-Takes : (b : Bool) (l : Leaf X) (ctx : Code X) → Takes ctx (negate_leaf b l ctx)
  unfolding negate_leaf
  negate_leaf-Takes true l ctx = emit-Takes (predicate (inverted l)) ctx (λ r regs. (_, refl))
  negate_leaf-Takes false l ctx =
      not-Takes ctx _ (emit-Takes (predicate l) ctx (λ r regs. (_, refl)))

  mutual
    unfolding compile

    compile-Takes : (c : Condition X) (ctx : Code X) → Takes ctx (compile c ctx)
    compile-Takes (leaf l) ctx = emit-Takes (predicate l) ctx (λ r regs. (_, refl))
    compile-Takes (conjunction cs) ctx =
        then-Takes (bitwise_and (compile_all cs ctx).0) ctx _ (compile_all-Keeps cs ctx)
          (λ r regs. (_, refl))
    compile-Takes (disjunction cs) ctx =
        then-Takes (bitwise_or (compile_all cs ctx).0) ctx _ (compile_all-Keeps cs ctx)
          (λ r regs. (_, refl))
    compile-Takes (negation c) ctx = compile_not-Takes c ctx

    compile_not-Takes : (c : Condition X) (ctx : Code X) → Takes ctx (compile_not c ctx)
    compile_not-Takes (leaf l) ctx = negate_leaf-Takes (inverts l.kind) l ctx
    compile_not-Takes (conjunction cs) ctx = not-Takes ctx _ (
        then-Takes (bitwise_and (compile_all cs ctx).0) ctx _ (compile_all-Keeps cs ctx)
          (λ r regs. (_, refl)))
    compile_not-Takes (disjunction cs) ctx = not-Takes ctx _ (
        then-Takes (bitwise_or (compile_all cs ctx).0) ctx _ (compile_all-Keeps cs ctx)
          (λ r regs. (_, refl)))
    compile_not-Takes (negation c) ctx = not-Takes ctx _ (compile_not-Takes c ctx)

    compile_all-Keeps : (cs : Conditions X) (ctx : Code X) → Keeps ctx (compile_all cs ctx).1
    compile_all-Keeps nil ctx = Keeps-refl ctx
    compile_all-Keeps (cons c cs) ctx =
        Keeps-trans ctx (compile c ctx).1 _ (compile-Takes c ctx).0
          (compile_all-Keeps cs (compile c ctx).1)

-- The compilation of any condition takes new registers only, and the registers that earlier
-- operations have written keep their values.
pub compile-keeps :
    {X : Type 0} (holds : Leaf X → Bool) (c : Condition X) (ctx : Code X) (r : ℕ)
    → r < ctx.next_register
    → (value holds (compile c ctx).1 r ≡ value holds ctx r)
      × (ctx.next_register ≤ (compile c ctx).1.next_register)
      × ((compile c ctx).0 < (compile c ctx).1.next_register)
compile-keeps holds c ctx r l =
    let (k, own) = compile-Takes holds c ctx in (k.keeps r l, k.grows, own)
