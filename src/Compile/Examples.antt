-- ===== src/Compile/Examples.antt =====
-- Conditions on a row whose field is 7.
use blazerules.Prelude.{ℕ, ◌<◌, ◌≤◌, ◌≡◌, refl, Bool, false, not, [], ltb, leb, arith}
use blazerules.Compile.{
  OpType, Kind, Leaf, Condition, leaf, conjunction, negation, nil, cons, Code, compile, invert_op,
  inverts, emit,
}
use blazerules.Compile.Meaning.{Negates, meaning, value}
use blazerules.Compile.Correct.{compile-meaning}
use blazerules.Compile.Keeps.{compile-keeps}
use blazerules.Compile.Negate.{invert_op-invert_op, compile_drops_negation}

abbrev compare_seven : OpType → ℕ → Bool
compare_seven OpType.gt n = ltb n 7
compare_seven OpType.lte n = leb 7 n
compare_seven _ n = false

abbrev holds : Leaf ℕ → Bool
holds l = compare_seven l.op l.operands

abbrev above : ℕ → Condition ℕ
above n = leaf (record { kind = Kind.numeric; op = OpType.gt; operands = n })

abbrev between : Condition ℕ
between = conjunction (cons (above 5) (cons (negation (above 9)) nil))

abbrev empty : Code ℕ
empty = record { seq = []; next_register = 0 }

abbrev started : Code ℕ
started = (compile (above 3) empty).1

between-Negates : Negates holds between
unfolding Negates inverts invert_op
between-Negates = (tt, (refl, tt))

compile-meaning_example :
    value holds (compile between empty).1 (compile between empty).0 ≡ meaning holds between
compile-meaning_example = compile-meaning holds between empty between-Negates

compile-keeps_example :
    (value holds (compile between started).1 0 ≡ value holds started 0)
    × (started.next_register ≤ (compile between started).1.next_register)
    × ((compile between started).0 < (compile between started).1.next_register)
compile-keeps_example = compile-keeps holds between started 0 (unfold compile emit in omega arith)

invert_op-invert_op_example : invert_op (invert_op OpType.contains_any) ≡ OpType.intersects
invert_op-invert_op_example = invert_op-invert_op OpType.contains_any

abbrev all_flags : Leaf ℕ
all_flags = record { kind = Kind.bitfield; op = OpType.flags_all; operands = 6 }

compile_drops_negation_example :
    value holds
      (compile (negation (leaf all_flags)) started).1
      (compile (negation (leaf all_flags)) started).0
    ≡ not (meaning holds (negation (leaf all_flags)))
compile_drops_negation_example = compile_drops_negation holds all_flags started tt
