-- ===== src/Sql/Print.antt =====
-- Queries, their words, and the conditions that they stand for.
use blazerules.Prelude.{ℕ, ◌+◌, Bool, true, false, List, [], ◌∷◌, map}
use Prim.Native.Nat.{max}
use blazerules.Spec.{Operands}
use blazerules.Compile.{
  OpType, Kind, Condition, conjunction, disjunction, negation, Conditions, nil, cons,
}
use blazerules.Sql.{Doubles}
use blazerules.Sql.Parser.{make, blank, like_to_condition}
use blazerules.Sql.Words.{Word}
use blazerules.Sql.Keys.{
  Comparator, comparator_op, Keys, Field, Number, Quoted, Literal, literal_word, literal_text,
  field_word, number_word, quoted_word, or_key, and_key, not_key, is_key, null_key, in_key,
  between_key, like_key, open_word, close_word, comma_word, comparator_word,
}

abbrev pub equality : Bool → Comparator
equality true = Comparator.equal
equality false = Comparator.different

module _ {D : Type 0} (doubles : Doubles D) where
  mutual
    pub data Query : Type 0 where
      null_test : Field doubles → Bool → Query
      member : Field doubles → Bool → Literal doubles → List (Literal doubles) → Query
      between : Field doubles → Number doubles → Number doubles → Query
      like : Field doubles → Quoted doubles → Query
      compare : Field doubles → Comparator → Number doubles → Query
      same_text : Field doubles → Bool → Quoted doubles → Query
      all_of any_of : Query → Queries → Query
      none_of : Query → Query

    pub data Queries : Type 0 where
      one : Query → Queries
      more : Query → Queries → Queries

  module _ (keys : Keys doubles) where
    -- The words of a query, before the words `k`.
    abbrev pub more_values : List (Literal doubles) → List (Word doubles) → List (Word doubles)
    more_values [] k = close_word keys ∷ k
    more_values (v ∷ vs) k = comma_word keys ∷ literal_word doubles v ∷ more_values vs k

    abbrev pub negated : Bool → Word doubles → List (Word doubles) → List (Word doubles)
    negated true w k = w ∷ k
    negated false w k = k

    unfoldable mutual
      pub print : Query → List (Word doubles) → List (Word doubles)
      print (null_test f neg) k =
          (field_word doubles f) ∷ is_key keys ∷ negated neg (not_key keys) (null_key keys ∷ k)
      print (member f neg v vs) k =
          (field_word doubles f)
          ∷ negated neg (not_key keys)
              (in_key keys ∷ open_word keys ∷ (literal_word doubles v ∷ more_values vs k))
      print (between f lo hi) k =
          (field_word doubles f)
          ∷ between_key keys
          ∷ (number_word doubles lo)
          ∷ and_key keys
          ∷ (number_word doubles hi)
          ∷ k
      print (like f q) k = (field_word doubles f) ∷ like_key keys ∷ (quoted_word doubles q) ∷ k
      print (compare f o n) k =
          (field_word doubles f) ∷ (comparator_word doubles o) ∷ (number_word doubles n) ∷ k
      print (same_text f same q) k =
          (field_word doubles f)
          ∷ (comparator_word doubles (equality same))
          ∷ (quoted_word doubles q)
          ∷ k
      print (all_of p qs) k =
          open_word keys ∷ print p (close_word keys ∷ print_more (and_key keys) qs k)
      print (any_of p qs) k =
          open_word keys ∷ print p (close_word keys ∷ print_more (or_key keys) qs k)
      print (none_of q) k = not_key keys ∷ open_word keys ∷ print q (close_word keys ∷ k)

      pub print_more : Word doubles → Queries → List (Word doubles) → List (Word doubles)
      print_more w (one q) k = w ∷ open_word keys ∷ print q (close_word keys ∷ k)
      print_more w (more q qs) k =
          w ∷ open_word keys ∷ print q (close_word keys ∷ print_more w qs k)

  abbrev pub null_op : Bool → OpType
  null_op true = OpType.is_not_null
  null_op false = OpType.is_null

  abbrev pub member_op : Bool → OpType
  member_op true = OpType.not_in
  member_op false = OpType.in_list

  abbrev pub text_same_op : Bool → OpType
  text_same_op true = OpType.eq
  text_same_op false = OpType.neq

  -- The condition that a query stands for.
  unfoldable mutual
    unfolding like_to_condition

    pub condition : Query → Condition (Operands D)
    condition (null_test f neg) = make doubles Kind.null_test (null_op neg) (blank doubles f.text)
    condition (member f neg v vs) =
        make doubles Kind.categorical (member_op neg) (record (blank doubles f.text) {
          values = literal_text doubles v ∷ map (literal_text doubles) vs;
        })
    condition (between f lo hi) =
        make doubles Kind.numeric_range OpType.between_including
          (record (blank doubles f.text) { lower = lo.value; upper = hi.value })
    condition (like f q) = like_to_condition doubles f.text q.text
    condition (compare f o n) =
        make doubles Kind.numeric (comparator_op o)
          (record (blank doubles f.text) { threshold = n.value })
    condition (same_text f same q) =
        make doubles Kind.categorical (text_same_op same)
          (record (blank doubles f.text) { values = q.text ∷ [] })
    condition (all_of p qs) = conjunction (cons (condition p) (conditions qs))
    condition (any_of p qs) = disjunction (cons (condition p) (conditions qs))
    condition (none_of q) = negation (condition q)

    pub conditions : Queries → Conditions (Operands D)
    conditions (one q) = cons (condition q) nil
    conditions (more q qs) = cons (condition q) (conditions qs)

  -- How deep the parser descends.
  unfoldable mutual
    pub depth : Query → ℕ
    depth (all_of p qs) = 2 + max (depth p) (depth_more qs)
    depth (any_of p qs) = 2 + max (depth p) (depth_more qs)
    depth (none_of q) = 3 + depth q
    depth _ = 2

    pub depth_more : Queries → ℕ
    depth_more (one q) = depth q
    depth_more (more q qs) = max (depth q) (depth_more qs)
