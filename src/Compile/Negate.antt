-- ===== src/Compile/Negate.antt =====
-- What `invert_op` does to operators, and to the negation of a predicate.
use blazerules.Prelude.{◌≡◌, refl, ap, ◌∙◌, Bool, true, false, not}
use blazerules.Compile.Meaning.{value, meaning, Negates}
use blazerules.Compile.Correct.{compile-meaning}
use blazerules.Compile.{
  Kind, OpType, invert_op, inverts, Leaf, leaf, negation, Code, inverted, emit, predicate,
  negate_leaf, compile,
}

-- The operators that two inversions do not give back, and what they give.
abbrev pub twice_inverted : OpType → OpType
twice_inverted OpType.contains_any = OpType.intersects
twice_inverted op = op

-- Inverting an operator twice gives the operator back, except `contains_any`, which comes back as
-- `intersects`.
pub invert_op-invert_op : (op : OpType) → invert_op (invert_op op) ≡ twice_inverted op
unfolding invert_op
invert_op-invert_op OpType.gt = refl
invert_op-invert_op OpType.less_than = refl
invert_op-invert_op OpType.gte = refl
invert_op-invert_op OpType.lte = refl
invert_op-invert_op OpType.eq = refl
invert_op-invert_op OpType.neq = refl
invert_op-invert_op OpType.in_list = refl
invert_op-invert_op OpType.not_in = refl
invert_op-invert_op OpType.between_including = refl
invert_op-invert_op OpType.between_excluding = refl
invert_op-invert_op OpType.is_null = refl
invert_op-invert_op OpType.is_not_null = refl
invert_op-invert_op OpType.is_empty = refl
invert_op-invert_op OpType.is_not_empty = refl
invert_op-invert_op OpType.gt_field = refl
invert_op-invert_op OpType.lt_field = refl
invert_op-invert_op OpType.gte_field = refl
invert_op-invert_op OpType.lte_field = refl
invert_op-invert_op OpType.eq_field = refl
invert_op-invert_op OpType.neq_field = refl
invert_op-invert_op OpType.contains_any = refl
invert_op-invert_op OpType.contains_all = refl
invert_op-invert_op OpType.intersects = refl
invert_op-invert_op OpType.not_intersects = refl
invert_op-invert_op OpType.array_len_gt = refl
invert_op-invert_op OpType.array_len_lt = refl
invert_op-invert_op OpType.array_len_eq = refl
invert_op-invert_op OpType.flags_any = refl
invert_op-invert_op OpType.flags_all = refl
invert_op-invert_op OpType.flags_none = refl
invert_op-invert_op OpType.contains = refl
invert_op-invert_op OpType.starts_with = refl
invert_op-invert_op OpType.ends_with = refl
invert_op-invert_op OpType.ci_eq = refl
invert_op-invert_op OpType.length_gt = refl
invert_op-invert_op OpType.length_lt = refl
invert_op-invert_op OpType.length_eq = refl
invert_op-invert_op OpType.ip_in_subnet = refl
invert_op-invert_op OpType.ip_not_in_subnet = refl
invert_op-invert_op OpType.before = refl
invert_op-invert_op OpType.after = refl
invert_op-invert_op OpType.within_last = refl
invert_op-invert_op OpType.day_of_week_in = refl
invert_op-invert_op OpType.time_of_day_between = refl
invert_op-invert_op OpType.distance_gt = refl
invert_op-invert_op OpType.distance_lt = refl
invert_op-invert_op OpType.regex = refl
invert_op-invert_op OpType.not_regex = refl
invert_op-invert_op OpType.in_lookup = refl
invert_op-invert_op OpType.not_in_lookup = refl
invert_op-invert_op OpType.invalid = refl

same_leaf : {X : Type 0} (l : Leaf X) → invert_op l.op ≡ l.op → inverted l ≡ l
same_leaf l e = ap (λ (op : OpType). record l { op = op }) e

-- The predicates whose negation changes the operator to itself.
abbrev pub Unchanged : Kind → OpType → Type 0
Unchanged Kind.bitfield OpType.flags_all = Unit {0}
Unchanged Kind.categorical OpType.contains_all = Unit {0}
Unchanged _ _ = ⊥

Unchanged-inverts :
    (kind : Kind) (op : OpType) → Unchanged kind op → (inverts kind ≡ true) × (invert_op op ≡ op)
unfolding inverts invert_op
Unchanged-inverts Kind.bitfield OpType.flags_all h = (refl, refl)
Unchanged-inverts Kind.categorical OpType.contains_all h = (refl, refl)
Unchanged-inverts _ _ h = absurd h

compile_unchanged :
    {X : Type 0} (l : Leaf X) (ctx : Code X)
    → inverts l.kind ≡ true
    → invert_op l.op ≡ l.op
    → compile (negation (leaf l)) ctx ≡ compile (leaf l) ctx
unfolding compile negate_leaf
compile_unchanged l ctx k e =
    ap (λ b. negate_leaf b l ctx) k ∙ ap (λ l'. emit (predicate l') ctx) (same_leaf l e)

not-not : (b : Bool) → b ≡ not (not b)
not-not true = refl
not-not false = refl

-- The negation of a bitfield predicate with FLAGS_ALL, or of a categorical one with CONTAINS_ALL,
-- compiles to code whose register holds, whatever a row satisfies, the opposite of what the negation
-- means.
pub compile_drops_negation :
    {X : Type 0} (holds : Leaf X → Bool) (l : Leaf X) (ctx : Code X)
    → Unchanged l.kind l.op
    → value holds (compile (negation (leaf l)) ctx).1 (compile (negation (leaf l)) ctx).0
      ≡ not (meaning holds (negation (leaf l)))
unfolding meaning
compile_drops_negation holds l ctx h =
    let (k, e) = Unchanged-inverts l.kind l.op h in
    ap (λ r. value holds r.1 r.0) (compile_unchanged l ctx k e)
    ∙ compile-meaning holds (leaf l) ctx (unfold Negates in tt)
    ∙ not-not (holds l)
