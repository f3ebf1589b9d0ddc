-- ===== src/Sql/Members.antt =====
-- The IN lists of queries parse back.
use blazerules.Prelude.{
  ℕ, zero, suc, ◌<◌, ◌≤◌, ◌≡◌, refl, Bool, true, false, List, [], ◌∷◌, map, length, length-append,
  Text, arith,
}
use blazerules.Compile.{OpType, Kind}
use blazerules.Sql.{Doubles, ok, upper, to_upper}
use blazerules.Sql.Parser.{
  is_keyword, expect, read_values, parse_in, after_field, parse_comparison, make, blank,
}
use blazerules.Sql.Words.{Word, render, at, advance-at, bind_ok}
use blazerules.Sql.Keys.{
  Keys, Field, Literal, a_number, a_text, literal_word, literal_text, field_word, not_key, in_key,
  open_word, close_word, comma_word,
}
use blazerules.Sql.Print.{member, more_values, print, condition}
use blazerules.Sql.Leaves.{read_value-number, read_value-quoted}

module _ {D : Type 0} (doubles : Doubles D) (keys : Keys doubles) where
  abbrev Words : Type 0
  Words = List (Word doubles)

  length-more_values :
      (vs : List (Literal doubles)) (k : Words)
      → length vs ≤ length (render doubles (more_values doubles keys vs k))
  length-more_values [] k = omega arith
  length-more_values (v ∷ vs) k =
      let rest = length-more_values vs k in
      let inner =
        length-append (literal_word doubles v).raw
          (render doubles (more_values doubles keys vs k)) in
      let outer =
        length-append (comma_word keys).raw
          (render doubles (literal_word doubles v ∷ more_values doubles keys vs k)) in
      omega arith

  read_values-parses :
      (v : Literal doubles) (vs : List (Literal doubles)) (fuel : ℕ) (k : Words)
      → length vs < fuel
      → read_values doubles fuel
          (at doubles (literal_word doubles v ∷ more_values doubles keys vs k))
        ≡ ok (
          literal_text doubles v ∷ map (literal_text doubles) vs,
          at doubles (close_word keys ∷ k),
        )
  unfolding read_values
  read_values-parses v vs zero k h = absurd (omega arith)
  read_values-parses (a_number n) [] (suc fuel) k h =
      bind_ok _ (read_value-number doubles keys n (close_word keys ∷ k)) refl
  read_values-parses (a_text q) [] (suc fuel) k h =
      bind_ok _ (read_value-quoted doubles keys q (close_word keys ∷ k)) refl
  read_values-parses (a_number n) (u ∷ us) (suc fuel) k h =
      bind_ok _ (read_value-number doubles keys n (more_values doubles keys (u ∷ us) k)) (
        bind_ok _
          (advance-at doubles (comma_word keys)
            (literal_word doubles u ∷ more_values doubles keys us k))
          (bind_ok _ (read_values-parses u us fuel k (omega arith)) refl))
  read_values-parses (a_text q) (u ∷ us) (suc fuel) k h =
      bind_ok _ (read_value-quoted doubles keys q (more_values doubles keys (u ∷ us) k)) (
        bind_ok _
          (advance-at doubles (comma_word keys)
            (literal_word doubles u ∷ more_values doubles keys us k))
          (bind_ok _ (read_values-parses u us fuel k (omega arith)) refl))

  parse_in-parses :
      (field : Text) (op : OpType) (v : Literal doubles) (vs : List (Literal doubles)) (k : Words)
      → parse_in doubles field op
          (at doubles (open_word keys ∷ literal_word doubles v ∷ more_values doubles keys vs k))
        ≡ ok (
          make doubles Kind.categorical op (record (blank doubles field) {
            values = literal_text doubles v ∷ map (literal_text doubles) vs;
          }),
          at doubles k,
        )
  unfolding parse_in expect
  parse_in-parses field op v vs k =
      let enough = length-more_values vs k in
      bind_ok _
        (advance-at doubles (open_word keys)
          (literal_word doubles v ∷ more_values doubles keys vs k))
        (bind_ok _
          (read_values-parses v vs (suc (length (render doubles (more_values doubles keys vs k)))) k
            (omega arith))
          (bind_ok _ (advance-at doubles (close_word keys) k) refl))

  pub member-parses :
      (f : Field doubles) (neg : Bool) (v : Literal doubles) (vs : List (Literal doubles))
      (k : Words)
      → parse_comparison doubles (at doubles (print doubles keys (member f neg v vs) k))
        ≡ ok (condition doubles (member f neg v vs), at doubles k)
  unfolding parse_comparison after_field is_keyword upper to_upper print condition
  member-parses f true v vs k =
      bind_ok _
        (advance-at doubles (field_word doubles f) (
          not_key keys
          ∷ in_key keys
          ∷ open_word keys
          ∷ literal_word doubles v
          ∷ more_values doubles keys vs k))
        (bind_ok _
          (advance-at doubles (not_key keys)
            (in_key keys ∷ open_word keys ∷ literal_word doubles v ∷ more_values doubles keys vs k))
          (bind_ok _
            (advance-at doubles (in_key keys)
              (open_word keys ∷ literal_word doubles v ∷ more_values doubles keys vs k))
            (parse_in-parses f.text OpType.not_in v vs k)))
  member-parses f false v vs k =
      bind_ok _
        (advance-at doubles (field_word doubles f)
          (in_key keys ∷ open_word keys ∷ literal_word doubles v ∷ more_values doubles keys vs k))
        (bind_ok _
          (advance-at doubles (in_key keys)
            (open_word keys ∷ literal_word doubles v ∷ more_values doubles keys vs k))
          (parse_in-parses f.text OpType.in_list v vs k))
