-- ===== src/Conflict/Subsumes.antt =====
-- A rule that the analyzer calls stricter than another.
use blazerules.Prelude.{
  ◌≡◌, refl, inl, inr, Bool, true, false, [], ◌∷◌, if◌then◌else◌, Text, text_eq, arith, Bool-cases,
}
use blazerules.Compile.{OpType, Kind, Leaf, leaf, conjunction, nil, cons}
use blazerules.Compile.Meaning.{meaning}
use blazerules.Conflict
use blazerules.Conflict.{Numbers, Operands}
use blazerules.Conflict.Intervals.{IsOrdered}
use blazerules.Conflict.Analyze
use blazerules.Conflict.Analyze.{RuleSpec, RuleSubsumption, analyze_conflicts}

abbrev first_field : Text
first_field = 120 ∷ []

abbrev second_field : Text
second_field = 121 ∷ []

abbrev above : {D : Type 0} → Text → D → Leaf (Operands D)
above field v = record {
  kind = Kind.numeric;
  op = OpType.gt;
  operands = record { field = field; threshold = v; lower = v; upper = v; values = [] };
}

abbrev at : {D : Type 0} → D → D → Text → D
at x y field = if text_eq field first_field then x else y

abbrev gt_holds : {D : Type 0} → Numbers D → (Text → D) → Kind → OpType → Operands D → Bool
gt_holds numbers value Kind.numeric OpType.gt x = numbers.less x.threshold (value x.field)
gt_holds numbers value _ op x = false

abbrev pub stricter : {D : Type 0} → D → RuleSpec D
stricter b = record { id = 97 ∷ []; root_condition = leaf (above first_field b) }

abbrev pub looser : {D : Type 0} → D → D → RuleSpec D
looser a c = record {
  id = 98 ∷ [];
  root_condition =
      conjunction (cons (leaf (above first_field a)) (cons (leaf (above second_field c)) nil));
}

abbrev pub row_holds : {D : Type 0} → Numbers D → D → D → Leaf (Operands D) → Bool
row_holds numbers x y l = gt_holds numbers (at x y) l.kind l.op l.operands

module _ {D : Type 0} (numbers : Numbers D) (o : IsOrdered numbers) where
  asym : (a b : D) → numbers.less a b ≡ true → numbers.less b a ≡ false
  asym a b h = elim (Bool-cases (numbers.less b a)) [
    | inl t ↦ absurd (
        let loop = o.transitive a b a h t in
        let none = o.irreflexive a in ground (arith, loop, none))
    | inr f ↦ f
  ]

  below_top : (b x : D) → numbers.less b x ≡ true → numbers.less b numbers.infinity ≡ true
  below_top b x h = elim (Bool-cases (numbers.less b numbers.infinity)) [
    | inl t ↦ t
    | inr f ↦
        let same : b ≡ numbers.infinity = o.total b numbers.infinity f (o.top b) in
        let h' : numbers.less numbers.infinity x ≡ true = rw same at h in
        absurd (let none = o.top x in ground (arith, none, h'))
  ]

  -- For any thresholds `a` below `b` the report calls the rule `x > b` stricter than the rule
  -- `x > a AND y > c`, yet a row with `x` above `b` and `y` not above `c` satisfies the first rule only.
  pub subsumes_unsound :
      (a b c x y : D)
      → numbers.less a b ≡ true
      → numbers.less b x ≡ true
      → numbers.less c y ≡ false
      → ((analyze_conflicts numbers (stricter b ∷ looser a c ∷ [])).subsumptions
          ≡ record { subsumer_rule_id = 97 ∷ []; subsumed_rule_id = 98 ∷ [] } ∷ [])
        × (meaning (row_holds numbers x y) (stricter b).root_condition ≡ true)
        × (meaning (row_holds numbers x y) (looser a c).root_condition ≡ false)
  unfolding analyze_conflicts blazerules.Conflict.Analyze.all_pairs
      blazerules.Conflict.Analyze.add_pairs blazerules.Conflict.Analyze.add_pair
      blazerules.Conflict.Analyze.compare_rules blazerules.Conflict.Analyze.compare_numeric
      blazerules.Conflict.Analyze.compare_sets blazerules.Conflict.Analyze.compare_field
      blazerules.Conflict.Analyze.subsumption blazerules.Conflict.collect
      blazerules.Conflict.collect_leaf blazerules.Conflict.add_numeric blazerules.Conflict.from_op
      blazerules.Conflict.put blazerules.Conflict.text_less blazerules.Conflict.intersect
      blazerules.Conflict.contained blazerules.Conflict.is_empty meaning
  subsumes_unsound a b c x y ab bx cy = (
    rw (ab, asym a b ab, o.irreflexive numbers.infinity, o.top b, below_top b x bx) refl,
    bx,
    ground (arith, cy),
  )
