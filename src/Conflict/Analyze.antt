-- ===== src/Conflict/Analyze.antt =====
-- The report of `analyze_conflicts`, rule by rule and pair by pair.
use blazerules.Prelude.{
  Bool, true, false, not, ◌&&◌, List, [], ◌∷◌, ◌++◌, none, some, if◌then◌else◌, Text, find,
}
use blazerules.Compile.{Condition}
use blazerules.Conflict.{
  Numbers, Interval, Operands, RuleConstraints, is_empty, intersect, contained, disjoint, subset,
  collect,
}

pub record RuleSpec (D : Type 0) : Type 0 where
  pub id : Text
  pub root_condition : Condition (Operands D)

pub record RuleConflict : Type 0 where
  pub rule_a_id : Text
  pub rule_b_id : Text
  pub field : Text

pub record RuleSubsumption : Type 0 where
  pub subsumer_rule_id : Text
  pub subsumed_rule_id : Text

pub record ConflictReport : Type 0 where
  pub conflicts : List RuleConflict
  pub subsumptions : List RuleSubsumption
  pub dead_rules : List Text

-- The locals of the comparison of two rules, with the conflicts found so far.
pub record Comparison : Type 0 where
  pub any_shared : Bool
  pub all_i_in_j : Bool
  pub all_j_in_i : Bool
  pub found : List RuleConflict

-- A field that both rules constrain.
unfoldable pub compare_field : RuleConflict → Bool → Bool → Bool → Comparison → Comparison
compare_field c clash i_in_j j_in_i st =
    if clash
    then record {
      any_shared = true;
      all_i_in_j = false;
      all_j_in_i = false;
      found = st.found ++ c ∷ [];
    }
    else record st {
      any_shared = true;
      all_i_in_j = st.all_i_in_j && i_in_j;
      all_j_in_i = st.all_j_in_i && j_in_i;
    }

abbrev pub conflict_on : Text → Text → Text → RuleConflict
conflict_on a b field = record { rule_a_id = a; rule_b_id = b; field = field }

module _ {D : Type 0} (numbers : Numbers D) where
  unfoldable pub compare_numeric :
      Text → Text → List (Text × Interval D) → List (Text × Interval D) → Comparison → Comparison
  unfolding compare_field is_empty intersect contained
  compare_numeric a b [] others st = st
  compare_numeric a b ((field, iv) ∷ rest) others st = elim (find field others) [
    | none ↦ compare_numeric a b rest others st
    | some other ↦ compare_numeric a b rest others (
        compare_field (conflict_on a b field) (is_empty numbers (intersect numbers iv other))
          (contained numbers iv other) (contained numbers other iv) st)
  ]

  unfoldable pub compare_sets :
      Text → Text → List (Text × List Text) → List (Text × List Text) → Comparison → Comparison
  unfolding compare_field disjoint subset
  compare_sets a b [] others st = st
  compare_sets a b ((field, s) ∷ rest) others st = elim (find field others) [
    | none ↦ compare_sets a b rest others st
    | some other ↦ compare_sets a b rest others (
        compare_field (conflict_on a b field) (disjoint s other) (subset s other) (subset other s)
          st)
  ]

  abbrev pub start : Comparison
  start = record { any_shared = false; all_i_in_j = true; all_j_in_i = true; found = [] }

  unfoldable pub compare_rules : Text → Text → RuleConstraints D → RuleConstraints D → Comparison
  unfolding compare_numeric compare_sets
  compare_rules a b ci cj =
      compare_sets a b ci.in_sets cj.in_sets (compare_numeric a b ci.numeric cj.numeric start)

  unfoldable pub subsumption : Text → Text → Comparison → List RuleSubsumption
  subsumption a b st =
      if st.any_shared && st.all_i_in_j && not st.all_j_in_i
      then record { subsumer_rule_id = a; subsumed_rule_id = b } ∷ []
      else if st.any_shared && st.all_j_in_i && not st.all_i_in_j
      then record { subsumer_rule_id = b; subsumed_rule_id = a } ∷ []
      else []

  abbrev pub no_constraints : RuleConstraints D
  no_constraints = record { numeric = []; in_sets = []; dead = false }

  abbrev pub constraints : RuleSpec D → RuleConstraints D
  constraints r = collect numbers r.root_condition no_constraints

  unfoldable pub add_pair : RuleSpec D → RuleSpec D → ConflictReport → ConflictReport
  unfolding collect compare_rules subsumption
  add_pair ri rj rep =
      let st = compare_rules ri.id rj.id (constraints ri) (constraints rj) in
      record rep {
        conflicts = rep.conflicts ++ st.found;
        subsumptions = rep.subsumptions ++ subsumption ri.id rj.id st;
      }

  unfoldable pub add_pairs : RuleSpec D → List (RuleSpec D) → ConflictReport → ConflictReport
  unfolding add_pair
  add_pairs ri [] rep = rep
  add_pairs ri (rj ∷ rest) rep = add_pairs ri rest (add_pair ri rj rep)

  unfoldable pub all_pairs : List (RuleSpec D) → ConflictReport → ConflictReport
  unfolding add_pairs
  all_pairs [] rep = rep
  all_pairs (ri ∷ rest) rep = all_pairs rest (add_pairs ri rest rep)

  unfoldable pub dead_rules : List (RuleSpec D) → List Text
  unfolding collect
  dead_rules [] = []
  dead_rules (r ∷ rest) =
      let later = dead_rules rest in if (constraints r).dead then r.id ∷ later else later

  unfoldable pub analyze_conflicts : List (RuleSpec D) → ConflictReport
  unfolding all_pairs dead_rules
  analyze_conflicts rules =
      all_pairs rules (record { conflicts = []; subsumptions = []; dead_rules = dead_rules rules })
