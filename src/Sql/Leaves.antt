-- ===== src/Sql/Leaves.antt =====
-- The comparisons of a query parse back.
use blazerules.Prelude.{◌≡◌, refl, Bool, true, false, List, [], ◌∷◌, Text}
use blazerules.Compile.{OpType, Kind}
use blazerules.Sql.{Doubles, ok, upper, to_upper}
use blazerules.Sql.Parser.{
  is_keyword, read_value, read_number, read_null_op, number_value, text_value, parse_is,
  parse_between, parse_like, parse_operator, compare_value, numeric_op, text_op, after_field,
  parse_comparison, like_to_condition, make, blank,
}
use blazerules.Sql.Words.{Word, at, advance-at, bind_ok}
use blazerules.Sql.Keys.{
  Comparator, Keys, comparator_text, comparator_op, Field, Number, Quoted, field_word, number_word,
  quoted_word, not_key, is_key, null_key, and_key, between_key, like_key, comparator_word,
}
use blazerules.Sql.Print.{
  null_test, between, like, compare, same_text, negated, equality, print, condition, null_op,
  text_same_op,
}

module _ {D : Type 0} (doubles : Doubles D) (keys : Keys doubles) where
  abbrev Words : Type 0
  Words = List (Word doubles)

  read_null_op-parses :
      (neg : Bool) (k : Words)
      → read_null_op doubles
          (at doubles (negated doubles keys neg (not_key keys) (null_key keys ∷ k)))
        ≡ ok (null_op doubles neg, at doubles (null_key keys ∷ k))
  unfolding read_null_op is_keyword upper to_upper
  read_null_op-parses true k =
      bind_ok _ (advance-at doubles (not_key keys) (null_key keys ∷ k)) refl
  read_null_op-parses false k = refl

  parse_is-parses :
      (neg : Bool) (field : Text) (k : Words)
      → parse_is doubles field
          (at doubles (negated doubles keys neg (not_key keys) (null_key keys ∷ k)))
        ≡ ok (make doubles Kind.null_test (null_op doubles neg) (blank doubles field), at doubles k)
  unfolding parse_is is_keyword upper to_upper
  parse_is-parses neg field k =
      bind_ok _ (read_null_op-parses neg k) (bind_ok _ (advance-at doubles (null_key keys) k) refl)

  pub null_test-parses :
      (f : Field doubles) (neg : Bool) (k : Words)
      → parse_comparison doubles (at doubles (print doubles keys (null_test f neg) k))
        ≡ ok (condition doubles (null_test f neg), at doubles k)
  unfolding parse_comparison after_field is_keyword upper to_upper print condition
  null_test-parses f neg k =
      bind_ok _
        (advance-at doubles (field_word doubles f)
          (is_key keys ∷ negated doubles keys neg (not_key keys) (null_key keys ∷ k)))
        (bind_ok _
          (advance-at doubles (is_key keys)
            (negated doubles keys neg (not_key keys) (null_key keys ∷ k)))
          (parse_is-parses neg f.text k))

  pub read_value-number :
      (n : Number doubles) (k : Words)
      → read_value doubles (at doubles (number_word doubles n ∷ k))
        ≡ ok (number_value n.value, at doubles k)
  unfolding read_value
  read_value-number n k = bind_ok _ (advance-at doubles (number_word doubles n) k) refl

  pub read_value-quoted :
      (q : Quoted doubles) (k : Words)
      → read_value doubles (at doubles (quoted_word doubles q ∷ k))
        ≡ ok (text_value q.text, at doubles k)
  unfolding read_value
  read_value-quoted q k = bind_ok _ (advance-at doubles (quoted_word doubles q) k) refl

  read_number-parses :
      (n : Number doubles) (k : Words)
      → read_number doubles (at doubles (number_word doubles n ∷ k)) ≡ ok (n.value, at doubles k)
  unfolding read_number
  read_number-parses n k = bind_ok _ (read_value-number n k) refl

  parse_between-parses :
      (field : Text) (lo hi : Number doubles) (k : Words)
      → parse_between doubles field
          (at doubles (number_word doubles lo ∷ and_key keys ∷ number_word doubles hi ∷ k))
        ≡ ok (
          make doubles Kind.numeric_range OpType.between_including
              (record (blank doubles field) { lower = lo.value; upper = hi.value }),
          at doubles k,
        )
  unfolding parse_between is_keyword upper to_upper
  parse_between-parses field lo hi k =
      bind_ok _ (read_number-parses lo (and_key keys ∷ number_word doubles hi ∷ k)) (
        bind_ok _ (advance-at doubles (and_key keys) (number_word doubles hi ∷ k))
          (bind_ok _ (read_number-parses hi k) refl))

  pub between-parses :
      (f : Field doubles) (lo hi : Number doubles) (k : Words)
      → parse_comparison doubles (at doubles (print doubles keys (between f lo hi) k))
        ≡ ok (condition doubles (between f lo hi), at doubles k)
  unfolding parse_comparison after_field is_keyword upper to_upper print condition
  between-parses f lo hi k =
      bind_ok _
        (advance-at doubles (field_word doubles f)
          (between_key keys ∷ number_word doubles lo ∷ and_key keys ∷ number_word doubles hi ∷ k))
        (bind_ok _
          (advance-at doubles (between_key keys)
            (number_word doubles lo ∷ and_key keys ∷ number_word doubles hi ∷ k))
          (parse_between-parses f.text lo hi k))

  parse_like-parses :
      (field : Text) (q : Quoted doubles) (k : Words)
      → parse_like doubles field (at doubles (quoted_word doubles q ∷ k))
        ≡ ok (like_to_condition doubles field q.text, at doubles k)
  unfolding parse_like
  parse_like-parses field q k = bind_ok _ (advance-at doubles (quoted_word doubles q) k) refl

  pub like-parses :
      (f : Field doubles) (q : Quoted doubles) (k : Words)
      → parse_comparison doubles (at doubles (print doubles keys (like f q) k))
        ≡ ok (condition doubles (like f q), at doubles k)
  unfolding parse_comparison after_field is_keyword upper to_upper print condition
  like-parses f q k =
      bind_ok _
        (advance-at doubles (field_word doubles f) (like_key keys ∷ quoted_word doubles q ∷ k))
        (bind_ok _ (advance-at doubles (like_key keys) (quoted_word doubles q ∷ k))
          (parse_like-parses f.text q k))

  numeric_op-parses : (o : Comparator) → numeric_op (comparator_text o) ≡ ok (comparator_op o)
  unfolding numeric_op
  numeric_op-parses Comparator.above = refl
  numeric_op-parses Comparator.below = refl
  numeric_op-parses Comparator.at_least = refl
  numeric_op-parses Comparator.at_most = refl
  numeric_op-parses Comparator.equal = refl
  numeric_op-parses Comparator.different = refl

  compare_value-number :
      (field : Text) (o : Comparator) (n : D) (k : Words)
      → compare_value doubles field (comparator_text o) (number_value n) (at doubles k)
        ≡ ok (
          make doubles Kind.numeric
              (comparator_op o)
              (record (blank doubles field) { threshold = n }),
          at doubles k,
        )
  unfolding compare_value
  compare_value-number field o n k = rw (numeric_op-parses o) refl

  parse_operator-number :
      (field : Text) (o : Comparator) (n : Number doubles) (k : Words)
      → parse_operator doubles field
          (at doubles (comparator_word doubles o ∷ number_word doubles n ∷ k))
        ≡ ok (
          make doubles Kind.numeric
              (comparator_op o)
              (record (blank doubles field) { threshold = n.value }),
          at doubles k,
        )
  unfolding parse_operator
  parse_operator-number field o n k =
      bind_ok _ (advance-at doubles (comparator_word doubles o) (number_word doubles n ∷ k))
        (bind_ok _ (read_value-number n k) (compare_value-number field o n.value k))

  pub compare-parses :
      (f : Field doubles) (o : Comparator) (n : Number doubles) (k : Words)
      → parse_comparison doubles (at doubles (print doubles keys (compare f o n) k))
        ≡ ok (condition doubles (compare f o n), at doubles k)
  unfolding parse_comparison after_field is_keyword print condition
  compare-parses f o n k =
      bind_ok _
        (advance-at doubles (field_word doubles f)
          (comparator_word doubles o ∷ number_word doubles n ∷ k))
        (parse_operator-number f.text o n k)

  parse_operator-text :
      (field : Text) (same : Bool) (q : Quoted doubles) (k : Words)
      → parse_operator doubles field
          (at doubles (comparator_word doubles (equality same) ∷ quoted_word doubles q ∷ k))
        ≡ ok (
          make doubles Kind.categorical
              (text_same_op doubles same)
              (record (blank doubles field) { values = q.text ∷ [] }),
          at doubles k,
        )
  unfolding parse_operator compare_value text_op
  parse_operator-text field true q k =
      bind_ok _
        (advance-at doubles (comparator_word doubles Comparator.equal) (quoted_word doubles q ∷ k))
        (bind_ok _ (read_value-quoted q k) refl)
  parse_operator-text field false q k =
      bind_ok _
        (advance-at doubles (comparator_word doubles Comparator.different)
          (quoted_word doubles q ∷ k))
        (bind_ok _ (read_value-quoted q k) refl)

  pub same_text-parses :
      (f : Field doubles) (same : Bool) (q : Quoted doubles) (k : Words)
      → parse_comparison doubles (at doubles (print doubles keys (same_text f same q) k))
        ≡ ok (condition doubles (same_text f same q), at doubles k)
  unfolding parse_comparison after_field is_keyword print condition
  same_text-parses f same q k =
      bind_ok _
        (advance-at doubles (field_word doubles f)
          (comparator_word doubles (equality same) ∷ quoted_word doubles q ∷ k))
        (parse_operator-text f.text same q k)
