-- ===== src/Conflict/Report.antt =====
-- What the report of the analyzer says of rows.
use blazerules.Prelude.{
  ◌≡◌, refl, sym, ◌∙◌, ◌&&◌, ◌⊎◌, inl, inr, Bool, true, false, List, [], ◌∷◌, Text, text_eq,
  text_eq→≡, find, arith, All, All-append, Bool-cases, if_both, option_both,
}
use blazerules.Compile.{Leaf}
use blazerules.Compile.Meaning.{meaning}
use blazerules.Conflict.{
  Numbers, Interval, Operands, RuleConstraints, mem, disjoint, is_empty, intersect,
}
use blazerules.Conflict.Intervals.{IsOrdered, inside, intersect-shared}
use blazerules.Conflict.Collect.{Respects, Fits, All-find, collect-Fits}
use blazerules.Conflict.Analyze.{
  RuleSpec, RuleConflict, ConflictReport, Comparison, compare_field, conflict_on, compare_numeric,
  compare_sets, start, compare_rules, no_constraints, constraints, add_pair, add_pairs, all_pairs,
  dead_rules, analyze_conflicts,
}

disjoint-shared :
    (x : Text) (a b : List Text) → mem x a ≡ true → mem x b ≡ true → disjoint a b ≡ false
unfolding disjoint
disjoint-shared x [] b h k = absurd (ground arith)
disjoint-shared x (y ∷ ys) b h k = elim (Bool-cases (text_eq y x)) [
  | inl t ↦ let same : y ≡ x = text_eq→≡ y x t in rw (same, k) refl
  | inr n ↦ let rest = disjoint-shared x ys b (ground (arith, h, n)) k in ground (arith, rest)
]

-- A field without a clash adds no conflict.
compare_field-found :
    (c : RuleConflict) (clash i j : Bool) (st : Comparison)
    → clash ≡ false
    → (compare_field c clash i j st).found ≡ st.found
unfolding compare_field
compare_field-found c clash i j st e = rw e refl

module _ {D : Type 0} (numbers : Numbers D) (o : IsOrdered numbers) (value : Text → D)
    (text : Text → Text) (a b : Text) where
  compare_numeric-found :
      (xs ys : List (Text × Interval D)) (st : Comparison)
      → All (λ e. inside numbers (value e.0) e.1 ≡ true) xs
      → All (λ e. inside numbers (value e.0) e.1 ≡ true) ys
      → (compare_numeric numbers a b xs ys st).found ≡ st.found
  unfolding compare_numeric
  compare_numeric-found [] ys st h k = refl
  compare_numeric-found ((f, iv) ∷ xs) ys st h k =
      option_both (λ (r : Comparison). r.found ≡ st.found) (find f ys) _ _
        (λ e. compare_numeric-found xs ys st h.1 k)
        (λ other e.
          let there = All-find (λ e. inside numbers (value e.0) e.1 ≡ true) f other ys k e in
          compare_numeric-found xs ys _ h.1 k
          ∙ compare_field-found (conflict_on a b f) (is_empty numbers (intersect numbers iv other))
              _ _ st (intersect-shared numbers o (value f) iv other h.0 there).1)

  compare_sets-found :
      (xs ys : List (Text × List Text)) (st : Comparison)
      → All (λ e. mem (text e.0) e.1 ≡ true) xs
      → All (λ e. mem (text e.0) e.1 ≡ true) ys
      → (compare_sets numbers a b xs ys st).found ≡ st.found
  unfolding compare_sets
  compare_sets-found [] ys st h k = refl
  compare_sets-found ((f, s) ∷ xs) ys st h k =
      option_both (λ (r : Comparison). r.found ≡ st.found) (find f ys) _ _
        (λ e. compare_sets-found xs ys st h.1 k)
        (λ other e.
          let there = All-find (λ e. mem (text e.0) e.1 ≡ true) f other ys k e in
          compare_sets-found xs ys _ h.1 k
          ∙ compare_field-found (conflict_on a b f) (disjoint s other) _ _ st
              (disjoint-shared (text f) s other h.0 there))

  compare_rules-found :
      (ci cj : RuleConstraints D)
      → Fits numbers value text ci
      → Fits numbers value text cj
      → (compare_rules numbers a b ci cj).found ≡ []
  unfolding compare_rules
  compare_rules-found ci cj fi fj =
      compare_sets-found ci.in_sets cj.in_sets _ fi.sets fj.sets
      ∙ compare_numeric-found ci.numeric cj.numeric _ fi.numeric fj.numeric

start-Fits :
    {D : Type 0} (numbers : Numbers D) (value : Text → D) (text : Text → Text)
    → Fits numbers value text (no_constraints numbers)
start-Fits numbers value text = record { numeric = tt; sets = tt; alive = refl }

-- The names in the conflicts of two rules.
abbrev Between : Text → Text → RuleConflict → Type 0
Between a b c = (c.rule_a_id ≡ a) × (c.rule_b_id ≡ b)

compare_field-Between :
    (a b f : Text) (clash i j : Bool) (st : Comparison)
    → All (Between a b) st.found
    → All (Between a b) (compare_field (conflict_on a b f) clash i j st).found
unfolding compare_field
compare_field-Between a b f true i j st h = All-append (Between a b) st.found _ h ((refl, refl), tt)
compare_field-Between a b f false i j st h = h

All-const : {A : Type 0} {P : Type 0} (xs : List A) → P → All (λ a. P) xs
All-const [] p = tt
All-const (x ∷ xs) p = (p, All-const xs p)

All-both :
    {A : Type 0} (P Q R : A → Type 0) (xs : List A)
    → ((a : A) → P a → Q a → R a)
    → All P xs
    → All Q xs
    → All R xs
All-both P Q R [] f h k = tt
All-both P Q R (x ∷ xs) f h k = (f x h.0 k.0, All-both P Q R xs f h.1 k.1)

module _ {D : Type 0} (numbers : Numbers D) (a b : Text) where
  compare_numeric-Between :
      (xs ys : List (Text × Interval D)) (st : Comparison)
      → All (Between a b) st.found
      → All (Between a b) (compare_numeric numbers a b xs ys st).found
  unfolding compare_numeric
  compare_numeric-Between [] ys st h = h
  compare_numeric-Between ((f, iv) ∷ xs) ys st h =
      option_both (λ (r : Comparison). All (Between a b) r.found) (find f ys) _ _
        (λ e. compare_numeric-Between xs ys st h)
        (λ other e. compare_numeric-Between xs ys _ (compare_field-Between a b f _ _ _ st h))

  compare_sets-Between :
      (xs ys : List (Text × List Text)) (st : Comparison)
      → All (Between a b) st.found
      → All (Between a b) (compare_sets numbers a b xs ys st).found
  unfolding compare_sets
  compare_sets-Between [] ys st h = h
  compare_sets-Between ((f, s) ∷ xs) ys st h =
      option_both (λ (r : Comparison). All (Between a b) r.found) (find f ys) _ _
        (λ e. compare_sets-Between xs ys st h)
        (λ other e. compare_sets-Between xs ys _ (compare_field-Between a b f _ _ _ st h))

  compare_rules-Between :
      (ci cj : RuleConstraints D) → All (Between a b) (compare_rules numbers a b ci cj).found
  unfolding compare_rules
  compare_rules-Between ci cj =
      compare_sets-Between ci.in_sets cj.in_sets _
        (compare_numeric-Between ci.numeric cj.numeric (start numbers) tt)

-- A rule of a list, and two rules of which the second comes later.
abbrev pub Occurs : {D : Type 0} → RuleSpec D → List (RuleSpec D) → Type 0
Occurs r [] = ⊥
Occurs r (x ∷ xs) = (x ≡ r) ⊎ Occurs r xs

abbrev pub Later : {D : Type 0} → List (RuleSpec D) → RuleSpec D → RuleSpec D → Type 0
Later [] ri rj = ⊥
Later (x ∷ xs) ri rj = ((x ≡ ri) × Occurs rj xs) ⊎ Later xs ri rj

module _ {D : Type 0} (numbers : Numbers D) where
  abbrev found_by : RuleSpec D → RuleSpec D → List RuleConflict
  found_by ri rj =
      (compare_rules numbers ri.id rj.id (constraints numbers ri) (constraints numbers rj)).found

  add_pairs-All :
      (P : RuleConflict → Type 0) (ri : RuleSpec D) (rest : List (RuleSpec D))
      (rep : ConflictReport)
      → ((rj : RuleSpec D) → Occurs rj rest → All P (found_by ri rj))
      → All P rep.conflicts
      → All P (add_pairs numbers ri rest rep).conflicts
  unfolding add_pairs add_pair
  add_pairs-All P ri [] rep h a = a
  add_pairs-All P ri (rj ∷ rest) rep h a =
      add_pairs-All P ri rest (add_pair numbers ri rj rep) (λ r l. h r (inr l))
        (All-append P rep.conflicts _ a (h rj (inl refl)))

  all_pairs-All :
      (P : RuleConflict → Type 0) (rules : List (RuleSpec D)) (rep : ConflictReport)
      → ((ri rj : RuleSpec D) → Later rules ri rj → All P (found_by ri rj))
      → All P rep.conflicts
      → All P (all_pairs numbers rules rep).conflicts
  unfolding all_pairs
  all_pairs-All P [] rep h a = a
  all_pairs-All P (ri ∷ rest) rep h a =
      all_pairs-All P rest (add_pairs numbers ri rest rep) (λ r s l. h r s (inr l))
        (add_pairs-All P ri rest rep (λ rj l. h ri rj (inl (refl, l))) a)

  add_pairs-dead :
      (ri : RuleSpec D) (rest : List (RuleSpec D)) (rep : ConflictReport)
      → (add_pairs numbers ri rest rep).dead_rules ≡ rep.dead_rules
  unfolding add_pairs add_pair
  add_pairs-dead ri [] rep = refl
  add_pairs-dead ri (rj ∷ rest) rep = add_pairs-dead ri rest (add_pair numbers ri rj rep)

  all_pairs-dead :
      (rules : List (RuleSpec D)) (rep : ConflictReport)
      → (all_pairs numbers rules rep).dead_rules ≡ rep.dead_rules
  unfolding all_pairs
  all_pairs-dead [] rep = refl
  all_pairs-dead (ri ∷ rest) rep =
      all_pairs-dead rest (add_pairs numbers ri rest rep) ∙ add_pairs-dead ri rest rep

  -- A conflict that names two rules, the second after the first, that do not both hold.
  abbrev pub Justified : (Leaf (Operands D) → Bool) → List (RuleSpec D) → RuleConflict → Type 0
  Justified holds rules c =
      (ri : RuleSpec D) × (rj : RuleSpec D) × Later rules ri rj
      × (c.rule_a_id ≡ ri.id)
      × (c.rule_b_id ≡ rj.id)
      × ((meaning holds ri.root_condition && meaning holds rj.root_condition) ≡ false)

  abbrev pub JustifiedDead : (Leaf (Operands D) → Bool) → List (RuleSpec D) → Text → Type 0
  JustifiedDead holds rules id =
      (r : RuleSpec D) × Occurs r rules × (id ≡ r.id) × (meaning holds r.root_condition ≡ false)

  module _ (o : IsOrdered numbers) (value : Text → D) (text : Text → Text)
      (holds : Leaf (Operands D) → Bool) (s : Respects numbers value text holds) where
    row_found :
        (ri rj : RuleSpec D)
        → meaning holds ri.root_condition ≡ true
        → meaning holds rj.root_condition ≡ true
        → found_by ri rj ≡ []
    row_found ri rj hi hj =
        compare_rules-found numbers o value text ri.id rj.id _ _
          (collect-Fits numbers o value text holds s ri.root_condition _ hi
            (start-Fits numbers value text))
          (collect-Fits numbers o value text holds s rj.root_condition _ hj
            (start-Fits numbers value text))

    -- Two rules with a conflict do not both hold.
    not_both :
        (ri rj : RuleSpec D) (found : List RuleConflict)
        → found_by ri rj ≡ found
        → All
            (λ c. (meaning holds ri.root_condition && meaning holds rj.root_condition) ≡ false)
            found
    not_both ri rj [] e = tt
    not_both ri rj (c ∷ cs) e =
        let clash : (meaning holds ri.root_condition && meaning holds rj.root_condition) ≡ false =
          elim (Bool-cases (meaning holds ri.root_condition)) [
            | inl hi ↦ elim (Bool-cases (meaning holds rj.root_condition)) [
              | inl hj ↦
                  let bad : c ∷ cs ≡ [] = sym e ∙ row_found ri rj hi hj in
                  absurd (ground (arith, bad))
              | inr hj ↦ ground (arith, hj)
            ]
            | inr hi ↦ ground (arith, hi)
          ] in
        (clash, All-const cs clash)

    found_by-Justified :
        (rules : List (RuleSpec D)) (ri rj : RuleSpec D)
        → Later rules ri rj
        → All (Justified holds rules) (found_by ri rj)
    found_by-Justified rules ri rj l =
        All-both (Between ri.id rj.id) _ (Justified holds rules) (found_by ri rj)
          (λ c e never. (ri, rj, l, e.0, e.1, never))
          (compare_rules-Between numbers ri.id rj.id (constraints numbers ri)
            (constraints numbers rj))
          (not_both ri rj (found_by ri rj) refl)

    dead-meaning :
        (r : RuleSpec D)
        → (constraints numbers r).dead ≡ true
        → meaning holds r.root_condition ≡ false
    dead-meaning r e = elim (Bool-cases (meaning holds r.root_condition)) [
      | inl t ↦
          let alive =
            (collect-Fits numbers o value text holds s r.root_condition _ t
              (start-Fits numbers value text)).alive in
          absurd (ground (arith, e, alive))
      | inr f ↦ f
    ]

    dead_rules-All :
        (P : Text → Type 0) (rules : List (RuleSpec D))
        → ((r : RuleSpec D) → Occurs r rules → meaning holds r.root_condition ≡ false → P r.id)
        → All P (dead_rules numbers rules)
    unfolding dead_rules
    dead_rules-All P [] h = tt
    dead_rules-All P (r ∷ rest) h =
        let later = dead_rules-All P rest (λ q l. h q (inr l)) in
        if_both (All P) (constraints numbers r).dead _ _
          (λ e. (h r (inl refl) (dead-meaning r e), later)) (λ e. later)

  -- Given an order of the numbers (so no NaN) and a row that has one number and one text for every
  -- field, let a numeric, range, IN or equality predicate hold only if the number or the text of its
  -- field satisfies the operator with the constants as written in the rule. (So no field is an array,
  -- and no constant is rounded to the type of its column.) The other predicates hold or not, as they
  -- like. Then every conflict in the report names two rules of the file, in their order, of which the
  -- row does not satisfy both, and every dead rule in the report is a rule of the file that the row
  -- does not satisfy.
  pub analyze_conflicts-Justified :
      (o : IsOrdered numbers) (value : Text → D) (text : Text → Text)
      (holds : Leaf (Operands D) → Bool)
      → Respects numbers value text holds
      → (rules : List (RuleSpec D))
      → All (Justified holds rules) (analyze_conflicts numbers rules).conflicts
        × All (JustifiedDead holds rules) (analyze_conflicts numbers rules).dead_rules
  unfolding analyze_conflicts
  analyze_conflicts-Justified o value text holds s rules = (
    all_pairs-All (Justified holds rules) rules _ (found_by-Justified o value text holds s rules)
        tt,
    rw
        (all_pairs-dead rules
          (record { conflicts = []; subsumptions = []; dead_rules = dead_rules numbers rules }))
        (dead_rules-All o value text holds s (JustifiedDead holds rules) rules
          (λ r l never. (r, l, refl, never))),
  )
