-- ===== src/Conflict.antt =====
-- `analyze_conflicts` of src/compiler/conflict.cpp. A number is of any type with an order and two
-- infinities; texts that explain a conflict are left out. A `std::map` is a list in the order of its
-- keys, a `std::set` a list without duplicates.
pub mod Intervals
pub mod Collect
pub mod Analyze
pub mod Report
pub mod Subsumes
pub mod Examples
use blazerules.Prelude.{
  ℕ, zero, suc, ◌+◌, Bool, true, false, not, ◌&&◌, ◌||◌, List, [], ◌∷◌, ◌++◌, Option, none, some,
  ltb, ◌==◌, if◌then◌else◌, Text, text_eq, find,
}
pub use blazerules.Spec.{Operands}
use blazerules.Compile.{
  OpType, Kind, Leaf, Condition, leaf, conjunction, disjunction, negation, Conditions, nil, cons,
}

-- `double`, as the analyzer uses it.
pub record Numbers (D : Type 0) : Type 0 where
  pub less : D → D → Bool
  pub infinity : D
  pub neg_infinity : D

pub record Interval (D : Type 0) : Type 0 where
  pub lo : D
  pub hi : D
  pub lo_incl : Bool
  pub hi_incl : Bool

pub record RuleConstraints (D : Type 0) : Type 0 where
  pub numeric : List (Text × Interval D)
  pub in_sets : List (Text × List Text)
  pub dead : Bool

unfoldable pub text_less : Text → Text → Bool
text_less s [] = false
text_less [] (d ∷ t) = true
text_less (c ∷ s) (d ∷ t) = let rest = text_less s t in if c == d then rest else ltb c d

-- `m[k] = v`.
unfoldable pub put {ℓ} : {V : Type ℓ} → Text → V → List (Text × V) → List (Text × V)
unfolding text_less
put k v [] = (k, v) ∷ []
put k v ((j, w) ∷ m) =
    let later = put k v m in
    if text_eq j k
    then (k, v) ∷ m
    else if text_less k j
    then (k, v) ∷ (j, w) ∷ m
    else (j, w) ∷ later

abbrev pub mem : Text → List Text → Bool
mem x [] = false
mem x (y ∷ ys) = text_eq y x || mem x ys

abbrev insert : Text → List Text → List Text
insert x s = if mem x s then s else x ∷ s

unfoldable pub insert_all : List Text → List Text → List Text
insert_all [] s = s
insert_all (x ∷ xs) s = insert_all xs (insert x s)

unfoldable pub disjoint : List Text → List Text → Bool
disjoint [] b = true
disjoint (x ∷ xs) b = not (mem x b) && disjoint xs b

unfoldable pub subset : List Text → List Text → Bool
subset [] b = true
subset (x ∷ xs) b = mem x b && subset xs b

-- A bound and whether it belongs to the interval, from two: the stricter.
abbrev pub pick : {D : Type 0} → (D → D → Bool) → D → Bool → D → Bool → D × Bool
pick before a a_incl b b_incl =
    if before b a then (a, a_incl) else if before a b then (b, b_incl) else (a, a_incl && b_incl)

abbrev pub is_including : OpType → Bool
is_including OpType.between_including = true
is_including _ = false

module _ {D : Type 0} (numbers : Numbers D) where
  abbrev less : D → D → Bool
  less = numbers.less

  abbrev same : D → D → Bool
  same a b = not (less a b) && not (less b a)

  unfoldable pub is_empty : Interval D → Bool
  is_empty iv = less iv.hi iv.lo || (same iv.lo iv.hi && not (iv.lo_incl && iv.hi_incl))

  abbrev pub whole : Interval D
  whole = record {
    lo = numbers.neg_infinity;
    hi = numbers.infinity;
    lo_incl = true;
    hi_incl = true;
  }

  unfoldable pub from_op : OpType → D → Interval D
  from_op OpType.gt v = record whole { lo = v; lo_incl = false }
  from_op OpType.gte v = record whole { lo = v; lo_incl = true }
  from_op OpType.less_than v = record whole { hi = v; hi_incl = false }
  from_op OpType.lte v = record whole { hi = v; hi_incl = true }
  from_op OpType.eq v = record whole { lo = v; hi = v }
  from_op _ v = whole

  unfoldable pub intersect : Interval D → Interval D → Interval D
  intersect a b =
      let (lo, lo_incl) = pick less a.lo a.lo_incl b.lo b.lo_incl in
      let (hi, hi_incl) = pick (λ x y. less y x) a.hi a.hi_incl b.hi b.hi_incl in
      record { lo = lo; hi = hi; lo_incl = lo_incl; hi_incl = hi_incl }

  unfoldable pub contained : Interval D → Interval D → Bool
  contained a b =
      (less b.lo a.lo || (same a.lo b.lo && (b.lo_incl || not a.lo_incl)))
      && (less a.hi b.hi || (same a.hi b.hi && (b.hi_incl || not a.hi_incl)))

  unfoldable pub add_numeric : Text → Interval D → RuleConstraints D → RuleConstraints D
  unfolding intersect is_empty put
  add_numeric field iv rc = elim (find field rc.numeric) [
    | none ↦ record rc { numeric = put field iv rc.numeric }
    | some old ↦ record rc {
      numeric = put field (intersect old iv) rc.numeric;
      dead = is_empty (intersect old iv) || rc.dead;
    }
  ]

  abbrev pub range : Operands D → Bool → Interval D
  range x incl = record { lo = x.lower; hi = x.upper; lo_incl = incl; hi_incl = incl }

  unfoldable pub add_values : Operands D → RuleConstraints D → RuleConstraints D
  unfolding insert_all put
  add_values x rc = elim (find x.field rc.in_sets) [
    | none ↦ record rc { in_sets = put x.field (insert_all x.values []) rc.in_sets }
    | some s ↦ record rc { in_sets = put x.field (insert_all x.values s) rc.in_sets }
  ]

  unfoldable pub collect_categorical : OpType → Operands D → RuleConstraints D → RuleConstraints D
  unfolding add_values
  collect_categorical OpType.in_list x rc = add_values x rc
  collect_categorical OpType.eq x rc = add_values x rc
  collect_categorical _ x rc = rc

  unfoldable pub collect_leaf : Kind → OpType → Operands D → RuleConstraints D → RuleConstraints D
  unfolding add_numeric from_op collect_categorical
  collect_leaf Kind.numeric op x rc = add_numeric x.field (from_op op x.threshold) rc
  collect_leaf Kind.numeric_range op x rc = add_numeric x.field (range x (is_including op)) rc
  collect_leaf Kind.categorical op x rc = collect_categorical op x rc
  collect_leaf _ op x rc = rc

  unfoldable mutual
    unfolding collect_leaf

    pub collect : Condition (Operands D) → RuleConstraints D → RuleConstraints D
    collect (leaf l) rc = collect_leaf l.kind l.op l.operands rc
    collect (conjunction cs) rc = collect_all cs rc
    collect (disjunction cs) rc = rc
    collect (negation c) rc = rc

    pub collect_all : Conditions (Operands D) → RuleConstraints D → RuleConstraints D
    collect_all nil rc = rc
    collect_all (cons c cs) rc = collect_all cs (collect c rc)
