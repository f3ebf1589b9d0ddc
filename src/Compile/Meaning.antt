-- ===== src/Compile/Meaning.antt =====
-- What conditions and kernel operations mean for one row.
use blazerules.Prelude.{
  ℕ, ◌≡◌, refl, Bool, true, false, not, List, [], ◌∷◌, ◌++◌, ◌==◌, ◌&&◌, ◌||◌, if◌then◌else◌,
}
use blazerules.Expr.Truth.{all_of, any_of, null}
use blazerules.Compile.{
  Leaf, Condition, leaf, conjunction, disjunction, negation, Conditions, nil, cons, KernelOp,
  predicate, bitwise_and, bitwise_or, bitwise_not, Code, inverts, inverted,
}

-- What an operation computes from the registers, for one row.
abbrev pub Registers : Type 0
Registers = ℕ → Bool

abbrev pub assign : Registers → ℕ → Bool → Registers
assign regs r b i = if i == r then b else regs i

abbrev pub no_conditions : {X : Type 0} → Conditions X → Bool
no_conditions nil = true
no_conditions (cons c cs) = false

module _ {X : Type 0} (holds : Leaf X → Bool) where
  abbrev pub execute : KernelOp X → Registers → Registers
  execute (predicate l r) regs = assign regs r (holds l)
  execute (bitwise_and rs r) regs = assign regs r (not (null rs) && all_of regs rs)
  execute (bitwise_or rs r) regs = assign regs r (any_of regs rs)
  execute (bitwise_not a r) regs = assign regs r (not (regs a))

  abbrev pub run : List (KernelOp X) → Registers → Registers
  run [] regs = regs
  run (op ∷ ops) regs = run ops (execute op regs)

  abbrev pub value : Code X → Registers
  value ctx = run ctx.seq (λ r. false)

  pub run-append :
      (xs : List (KernelOp X)) (op : KernelOp X) (regs : Registers)
      → run (xs ++ op ∷ []) regs ≡ execute op (run xs regs)
  run-append [] op regs = refl
  run-append (x ∷ xs) op regs = run-append xs op (execute x regs)

  unfoldable mutual
    pub meaning : Condition X → Bool
    meaning (leaf l) = holds l
    meaning (conjunction cs) = not (no_conditions cs) && meaning_all cs
    meaning (disjunction cs) = meaning_any cs
    meaning (negation c) = not (meaning c)

    pub meaning_all : Conditions X → Bool
    meaning_all nil = true
    meaning_all (cons c cs) = meaning c && meaning_all cs

    pub meaning_any : Conditions X → Bool
    meaning_any nil = false
    meaning_any (cons c cs) = meaning c || meaning_any cs

  -- Where a negation changes the operator of a predicate, the changed predicate is its negation.
  abbrev pub LeafNegates : Bool → Leaf X → Type 0
  LeafNegates true l = holds (inverted l) ≡ not (holds l)
  LeafNegates false l = Unit {0}

  unfoldable mutual
    pub Negates : Condition X → Type 0
    Negates (leaf l) = Unit {0}
    Negates (conjunction cs) = AllNegate cs
    Negates (disjunction cs) = AllNegate cs
    Negates (negation c) = NotNegates c

    pub NotNegates : Condition X → Type 0
    NotNegates (leaf l) = LeafNegates (inverts l.kind) l
    NotNegates (conjunction cs) = AllNegate cs
    NotNegates (disjunction cs) = AllNegate cs
    NotNegates (negation c) = NotNegates c

    pub AllNegate : Conditions X → Type 0
    AllNegate nil = Unit {0}
    AllNegate (cons c cs) = Negates c × AllNegate cs
