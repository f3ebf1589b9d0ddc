-- ===== src/Conflict/Examples.antt =====
-- Thresholds that are natural numbers with a greatest one.
use blazerules.Prelude.{
  ℕ, ◌≡◌, refl, Bool, true, false, not, ◌&&◌, List, [], ◌∷◌, ltb, Text, All, arith,
}
use blazerules.Compile.{OpType, Kind, Leaf, Condition, leaf, conjunction, nil, cons}
use blazerules.Compile.Meaning.{meaning}
use blazerules.Conflict
use blazerules.Conflict.{Numbers, Interval, Operands, mem, is_empty, intersect, contained}
use blazerules.Conflict.Collect.{Respects, LeafSat}
use blazerules.Conflict.Intervals.{IsOrdered, inside, intervals_lem}
use blazerules.Conflict.Analyze
use blazerules.Conflict.Analyze.{RuleSpec, RuleConflict, RuleSubsumption, analyze_conflicts}
use blazerules.Conflict.Report.{Justified, JustifiedDead, analyze_conflicts-Justified}
use blazerules.Conflict.Subsumes.{stricter, looser, row_holds, subsumes_unsound}

data Extended : Type 0 where
  fin : ℕ → Extended
  top : Extended

abbrev before : Extended → Extended → Bool
before (fin a) (fin b) = ltb a b
before (fin a) top = true
before top b = false

abbrev extended : Numbers Extended
extended = record { less = before; infinity = top; neg_infinity = fin 0 }

fin-before :
    (a b : ℕ) → before (fin a) (fin b) ≡ false → before (fin b) (fin a) ≡ false → fin a ≡ fin b
fin-before a b h k = let same : a ≡ b = ground (arith, h, k) in rw same refl

total : (a b : Extended) → before a b ≡ false → before b a ≡ false → a ≡ b
total (fin a) (fin b) h k = fin-before a b h k
total (fin a) top h k = absurd (ground arith)
total top (fin b) h k = absurd (ground arith)
total top top h k = refl

transitive : (a b c : Extended) → before a b ≡ true → before b c ≡ true → before a c ≡ true
transitive (fin a) (fin b) (fin c) h k = ground (arith, h, k)
transitive (fin a) b top h k = refl
transitive (fin a) top (fin c) h k = absurd (ground arith)
transitive top b c h k = absurd (ground arith)

irreflexive : (a : Extended) → before a a ≡ false
irreflexive (fin a) = ground arith
irreflexive top = refl

bottom : (a : Extended) → before a (fin 0) ≡ false
bottom (fin a) = ground arith
bottom top = refl

extended-IsOrdered : IsOrdered extended
extended-IsOrdered = record {
  irreflexive = irreflexive;
  transitive = transitive;
  total = total;
  top = λ a. refl;
  bottom = bottom;
}

abbrev wide : Interval Extended
wide = record { lo = fin 3; hi = top; lo_incl = true; hi_incl = true }

abbrev narrow : Interval Extended
narrow = record { lo = fin 5; hi = fin 8; lo_incl = false; hi_incl = true }

intervals_lem_example :
    (inside extended (fin 7) (intersect extended narrow wide)
      ≡ (inside extended (fin 7) narrow && inside extended (fin 7) wide))
    × (is_empty extended narrow ≡ true → inside extended (fin 7) narrow ≡ true → ⊥)
    × (contained extended narrow wide ≡ true
        → inside extended (fin 7) narrow ≡ true
        → inside extended (fin 7) wide ≡ true)
intervals_lem_example = intervals_lem extended extended-IsOrdered (fin 7) narrow wide

abbrev field : Text
field = 97 ∷ []

abbrev compare : OpType → ℕ → Condition (Operands Extended)
compare op v = leaf (record {
  kind = Kind.numeric;
  op = op;
  operands = record { field = field; threshold = fin v; lower = fin 0; upper = fin 0; values = [] };
})

abbrev member : List Text → Condition (Operands Extended)
member values = leaf (record {
  kind = Kind.categorical;
  op = OpType.in_list;
  operands = record {
    field = field;
    threshold = fin 0;
    lower = fin 0;
    upper = fin 0;
    values = values;
  };
})

abbrev rules : List (RuleSpec Extended)
rules =
    record { id = 1 ∷ []; root_condition = compare OpType.gt 9 }
    ∷ record {
      id = 2 ∷ [];
      root_condition =
          conjunction (cons (compare OpType.lte 9) (cons (member ((5 ∷ []) ∷ [])) nil));
    }
    ∷ record {
      id = 3 ∷ [];
      root_condition = conjunction (cons (compare OpType.lte 9) (cons (compare OpType.gt 9) nil));
    }
    ∷ record { id = 4 ∷ []; root_condition = member ((6 ∷ []) ∷ []) }
    ∷ []

conflicts_run :
    (analyze_conflicts extended rules).conflicts
    ≡ record { rule_a_id = 1 ∷ []; rule_b_id = 2 ∷ []; field = field }
      ∷ record { rule_a_id = 1 ∷ []; rule_b_id = 3 ∷ []; field = field }
      ∷ record { rule_a_id = 2 ∷ []; rule_b_id = 3 ∷ []; field = field }
      ∷ record { rule_a_id = 2 ∷ []; rule_b_id = 4 ∷ []; field = field }
      ∷ []
unfolding analyze_conflicts blazerules.Conflict.Analyze.all_pairs
    blazerules.Conflict.Analyze.add_pairs blazerules.Conflict.Analyze.add_pair
    blazerules.Conflict.Analyze.compare_rules blazerules.Conflict.Analyze.compare_numeric
    blazerules.Conflict.Analyze.compare_sets blazerules.Conflict.Analyze.compare_field
    blazerules.Conflict.Analyze.subsumption blazerules.Conflict.collect
    blazerules.Conflict.collect_leaf blazerules.Conflict.collect_categorical
    blazerules.Conflict.add_numeric blazerules.Conflict.add_values blazerules.Conflict.insert_all
    blazerules.Conflict.from_op blazerules.Conflict.put blazerules.Conflict.text_less
    blazerules.Conflict.disjoint blazerules.Conflict.subset intersect contained is_empty
conflicts_run = refl

dead_run : (analyze_conflicts extended rules).dead_rules ≡ (3 ∷ []) ∷ []
unfolding analyze_conflicts blazerules.Conflict.Analyze.all_pairs
    blazerules.Conflict.Analyze.add_pairs blazerules.Conflict.Analyze.add_pair
    blazerules.Conflict.Analyze.dead_rules blazerules.Conflict.collect
    blazerules.Conflict.collect_leaf blazerules.Conflict.collect_categorical
    blazerules.Conflict.add_numeric blazerules.Conflict.add_values blazerules.Conflict.from_op
    blazerules.Conflict.put intersect is_empty
dead_run = refl

-- A row with 7 in every numeric field and the text 5 in the others.
abbrev row_value : Text → Extended
row_value f = fin 7

abbrev row_text : Text → Text
row_text f = 5 ∷ []

abbrev row_meets : Kind → OpType → Operands Extended → Bool
row_meets Kind.numeric OpType.gt x = before x.threshold (row_value x.field)
row_meets Kind.numeric OpType.lte x = not (before x.threshold (row_value x.field))
row_meets Kind.categorical OpType.in_list x = mem (row_text x.field) x.values
row_meets _ op x = false

abbrev row_holds_leaf : Leaf (Operands Extended) → Bool
row_holds_leaf l = row_meets l.kind l.op l.operands

row_meets-LeafSat :
    (kind : Kind) (op : OpType) (x : Operands Extended)
    → row_meets kind op x ≡ true
    → LeafSat extended row_value row_text kind op x
row_meets-LeafSat Kind.numeric OpType.gt x h = h
row_meets-LeafSat Kind.numeric OpType.lte x h = ground (arith, h)
row_meets-LeafSat Kind.categorical OpType.in_list x h = h
row_meets-LeafSat _ op x h = absurd (ground (arith, h))

row-Respects : Respects extended row_value row_text row_holds_leaf
row-Respects l h = row_meets-LeafSat l.kind l.op l.operands h

analyze_conflicts-Justified_example :
    All (Justified extended row_holds_leaf rules) (analyze_conflicts extended rules).conflicts
    × All
        (JustifiedDead extended row_holds_leaf rules)
        (analyze_conflicts extended rules).dead_rules
analyze_conflicts-Justified_example =
    analyze_conflicts-Justified extended extended-IsOrdered row_value row_text row_holds_leaf
      row-Respects rules

subsumes_unsound_example :
    ((analyze_conflicts extended (stricter (fin 10) ∷ looser (fin 5) (fin 2) ∷ [])).subsumptions
      ≡ record { subsumer_rule_id = 97 ∷ []; subsumed_rule_id = 98 ∷ [] } ∷ [])
    × (meaning (row_holds extended (fin 20) (fin 1)) (stricter (fin 10)).root_condition ≡ true)
    × (meaning (row_holds extended (fin 20) (fin 1)) (looser (fin 5) (fin 2)).root_condition
        ≡ false)
subsumes_unsound_example =
    subsumes_unsound extended extended-IsOrdered (fin 5) (fin 10) (fin 2) (fin 20) (fin 1) refl refl
      refl
