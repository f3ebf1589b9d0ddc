-- ===== src/Compile.antt =====
-- `invert_op` and `CompileVisitor` of src/compiler/compiler.cpp: from a condition to a sequence of
-- kernel operations over registers. What a predicate needs beside its kind and its operator (the
-- columns and the constants) is the parameter `X`; the injected channels that some kinds register
-- are not modelled.
pub mod Meaning
pub mod Yields
pub mod Correct
pub mod Keeps
pub mod Negate
pub mod Examples
use blazerules.Prelude.{ℕ, ◌+◌, Bool, true, false, List, [], ◌∷◌, ◌++◌, if◌then◌else◌}

pub data OpType : Type 0 where
  gt less_than gte lte eq neq in_list not_in between_including between_excluding : OpType
  is_null is_not_null is_empty is_not_empty : OpType
  gt_field lt_field gte_field lte_field eq_field neq_field : OpType
  contains_any contains_all intersects not_intersects : OpType
  array_len_gt array_len_lt array_len_eq flags_any flags_all flags_none : OpType
  contains starts_with ends_with ci_eq length_gt length_lt length_eq : OpType
  ip_in_subnet ip_not_in_subnet before after within_last day_of_week_in : OpType
  time_of_day_between distance_gt distance_lt regex not_regex in_lookup not_in_lookup invalid :
      OpType

unfoldable pub invert_op : OpType → OpType
invert_op gt = lte
invert_op gte = less_than
invert_op less_than = gte
invert_op lte = gt
invert_op eq = neq
invert_op neq = eq
invert_op in_list = not_in
invert_op not_in = in_list
invert_op is_null = is_not_null
invert_op is_not_null = is_null
invert_op is_empty = is_not_empty
invert_op is_not_empty = is_empty
invert_op gt_field = lte_field
invert_op gte_field = lt_field
invert_op lt_field = gte_field
invert_op lte_field = gt_field
invert_op eq_field = neq_field
invert_op neq_field = eq_field
invert_op contains_any = not_intersects
invert_op intersects = not_intersects
invert_op not_intersects = intersects
invert_op flags_any = flags_none
invert_op flags_none = flags_any
invert_op ip_in_subnet = ip_not_in_subnet
invert_op ip_not_in_subnet = ip_in_subnet
invert_op regex = not_regex
invert_op not_regex = regex
invert_op in_lookup = not_in_lookup
invert_op not_in_lookup = in_lookup
invert_op op = op

-- The alternatives of `ConditionSpec` that stand for one predicate.
pub data Kind : Type 0 where
  numeric numeric_range categorical array_len null_test cross_field bitfield string_test : Kind
  regex_test lookup cidr temporal geo_distance arithmetic window model_score vector_distance : Kind
  array_any : Kind

pub record Leaf (X : Type 0) : Type 0 where
  pub kind : Kind
  pub op : OpType
  pub operands : X

mutual
  pub data Condition (X : Type 0) : Type 0 where
    leaf : Leaf X → Condition X
    conjunction disjunction : Conditions X → Condition X
    negation : Condition X → Condition X

  pub data Conditions (X : Type 0) : Type 0 where
    nil : Conditions X
    cons : Condition X → Conditions X → Conditions X

pub data KernelOp (X : Type 0) : Type 0 where
  predicate : Leaf X → ℕ → KernelOp X
  bitwise_and bitwise_or : List ℕ → ℕ → KernelOp X
  bitwise_not : ℕ → ℕ → KernelOp X

-- `ctx.seq` and `ctx.next_register`.
pub record Code (X : Type 0) : Type 0 where
  pub seq : List (KernelOp X)
  pub next_register : ℕ

-- The kinds whose negation changes the operator and takes no register of its own.
unfoldable pub inverts : Kind → Bool
inverts numeric = true
inverts categorical = true
inverts null_test = true
inverts cross_field = true
inverts bitfield = true
inverts cidr = true
inverts regex_test = true
inverts lookup = true
inverts window = true
inverts _ = false

-- An operation into a register of its own.
unfoldable pub emit : {X : Type 0} → (ℕ → KernelOp X) → Code X → ℕ × Code X
emit op ctx = (
  ctx.next_register,
  record { seq = ctx.seq ++ op ctx.next_register ∷ []; next_register = ctx.next_register + 1 },
)

abbrev pub inverted : {X : Type 0} → Leaf X → Leaf X
inverted l = record l { op = invert_op l.op }

abbrev pub then_emit : {X R : Type 0} → (R → ℕ → KernelOp X) → R × Code X → ℕ × Code X
then_emit op (r, ctx) = emit (op r) ctx

unfoldable pub negate_leaf : {X : Type 0} → Bool → Leaf X → Code X → ℕ × Code X
unfolding emit invert_op
negate_leaf true l ctx = emit (predicate (inverted l)) ctx
negate_leaf false l ctx = then_emit bitwise_not (emit (predicate l) ctx)

abbrev pub cons_register : {X : Type 0} → ℕ → List ℕ × Code X → List ℕ × Code X
cons_register r (rs, ctx) = (r ∷ rs, ctx)

unfoldable mutual
  unfolding emit negate_leaf inverts

  pub compile : {X : Type 0} → Condition X → Code X → ℕ × Code X
  compile (leaf l) ctx = emit (predicate l) ctx
  compile (conjunction cs) ctx = then_emit bitwise_and (compile_all cs ctx)
  compile (disjunction cs) ctx = then_emit bitwise_or (compile_all cs ctx)
  compile (negation c) ctx = compile_not c ctx

  pub compile_not : {X : Type 0} → Condition X → Code X → ℕ × Code X
  compile_not (leaf l) ctx = negate_leaf (inverts l.kind) l ctx
  compile_not (conjunction cs) ctx =
      then_emit bitwise_not (then_emit bitwise_and (compile_all cs ctx))
  compile_not (disjunction cs) ctx =
      then_emit bitwise_not (then_emit bitwise_or (compile_all cs ctx))
  compile_not (negation c) ctx = then_emit bitwise_not (compile_not c ctx)

  pub compile_all : {X : Type 0} → Conditions X → Code X → List ℕ × Code X
  compile_all nil ctx = ([], ctx)
  compile_all (cons c cs) ctx =
      let first = compile c ctx in cons_register first.0 (compile_all cs first.1)
