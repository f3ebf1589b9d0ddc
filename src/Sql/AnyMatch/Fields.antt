-- ===== src/Sql/AnyMatch/Fields.antt =====
-- `parse_sql_expression` on a comparison of a field whose name starts with `any_match`.
use blazerules.Prelude.{◌≡◌, refl, ap, ◌∙◌, true, [], ◌∷◌, ◌++◌, Text, arith}
use mathlib.Core.List.{append_assoc}
use blazerules.Sql.{Doubles, any_match_parentheses, ok, err, upper, is_space}
use blazerules.Sql.Parser.{parse}
use blazerules.Sql.Words.{all_chars, render}
use blazerules.Sql.Keys.{Comparator, comparator_text, Field, Number, Keys}
use blazerules.Sql.Print.{compare, depth, print, condition}
use blazerules.Sql.RoundTrip.{parse-print}
use blazerules.Sql.AnyMatch.{any_match_word, trim, parse_sql_expression}
use blazerules.Sql.AnyMatch.Trim.{ends, ends-append, ends-cons, trim_before}
use blazerules.Sql.AnyMatch.Call.{
  other, all_chars-append, starts-named, parse_any_match_call-no_call,
}
use blazerules.Sql.AnyMatch.Alias.{decide}

-- What follows the name of the field.
abbrev after_field : Comparator → Text → Text
after_field o n = b' ' ∷ (comparator_text o ++ b' ' ∷ (n ++ []))

comparator-no_open : (o : Comparator) → all_chars (other b'(') (comparator_text o) ≡ true
comparator-no_open Comparator.above = refl
comparator-no_open Comparator.below = refl
comparator-no_open Comparator.at_least = refl
comparator-no_open Comparator.at_most = refl
comparator-no_open Comparator.equal = refl
comparator-no_open Comparator.different = refl

append_nil : (s : Text) → s ++ [] ≡ s
append_nil [] = refl
append_nil (c ∷ s) = ap (λ t. c ∷ t) (append_nil s)

after_field-no_open :
    (o : Comparator) (n : Text)
    → all_chars (other b'(') n ≡ true
    → all_chars (other b'(') (after_field o n) ≡ true
after_field-no_open o n h =
    let number = ap (all_chars (other b'(')) (append_nil n) ∙ h in
    all_chars-append (other b'(') (b' ' ∷ comparator_text o) (b' ' ∷ (n ++ []))
      (comparator-no_open o) number

after_field-ends : (o : Comparator) (n : Text) → ends n ≡ true → ends (after_field o n) ≡ true
after_field-ends o n h =
    let number = ap ends (append_nil n) ∙ h in
    ends-cons b' ' (comparator_text o ++ b' ' ∷ (n ++ []))
      (ends-append (comparator_text o) (b' ' ∷ (n ++ [])) (ends-cons b' ' (n ++ []) number))

module _ {D : Type 0} (doubles : Doubles D) (keys : Keys doubles) where
  -- A comparison of a field with a number, with a space before every word, where the name of the
  -- field starts with the letters of `any_match`, in capitals or not, and neither the name nor the
  -- number has an opening parenthesis, and the number does not end in a space: the grammar takes it as
  -- the comparison that it is, but an expression with this text is rejected as a malformed call.
  pub parse_sql_expression-no_call :
      (f : Field doubles) (o : Comparator) (n : Number doubles) (name s : Text)
      → f.text ≡ name ++ s
      → upper name ≡ any_match_word
      → all_chars (other b'(') s ≡ true
      → all_chars (other b'(') n.text ≡ true
      → ends n.text ≡ true
      → (parse doubles (render doubles (print doubles keys (compare f o n) []))
          ≡ ok (condition doubles (compare f o n)))
        × (parse_sql_expression doubles (render doubles (print doubles keys (compare f o n) []))
            ≡ err any_match_parentheses)
  unfolding parse_sql_expression print depth is_space
  parse_sql_expression-no_call f o n name s same h k l e =
      let rest = after_field o n.text in
      let whole : f.text ++ rest ≡ name ++ (s ++ rest) =
        ap (λ t. t ++ rest) same ∙ append_assoc name s rest in
      let last = ends-append name (s ++ rest) (ends-append s rest (after_field-ends o n.text e)) in
      let trimmed =
        ap (λ t. trim (b' ' ∷ t)) whole
        ∙ trim_before (b' ' ∷ []) (name ++ (s ++ rest)) (starts-named name (s ++ rest) h, last)
            refl in
      let no_open = all_chars-append (other b'(') s rest k (after_field-no_open o n.text l) in
      (
        parse-print doubles keys (compare f o n) (omega arith),
        ap (decide doubles (b' ' ∷ (f.text ++ rest))) (
            parse_any_match_call-no_call (b' ' ∷ (f.text ++ rest)) name (s ++ rest) h trimmed
              no_open),
      )
