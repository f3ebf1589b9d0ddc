-- ===== src/Sql/Examples.antt =====
-- Numbers that are read from digits, and `"amount" > 10 AND NOT (country IN (...))`.
use blazerules.Prelude.{
  ℕ, ◌+◌, ◌*◌, ◌-◌, ◌≡◌, ◌⊎◌, refl, true, false, [], ◌∷◌, Option, some, Text, arith,
}
use blazerules.Spec.{Operands}
use blazerules.Compile.{Condition}
use blazerules.Sql.{
  Doubles, SqlError, too_deep, expected_close, expected_operator, trailing_tokens, ok, err,
  is_alpha, is_digit, upper, to_upper,
}
use blazerules.Sql.Parser.{parse, like_to_condition}
use blazerules.Sql.Measure.{is_stuck}
use blazerules.Sql.Total.{parse-total}
use blazerules.Sql.Words.{render, ident-Lexes, string-Lexes, number-Lexes}
use blazerules.Sql.Keys.{Comparator, Field, Number, Quoted, a_text, a_number, capitals}
use blazerules.Sql.Print.{Query, member, compare, all_of, none_of, one, condition}
use blazerules.Sql.Depth.{nots, parse-nots}

abbrev digits : ℕ → Text → Option ℕ
digits sum [] = some sum
digits sum (c ∷ s) = digits (10 * sum + (c - b'0')) s

abbrev numbers : Doubles ℕ
numbers = record { zero_value = 0; stod = digits 0; num_to_string = λ n. (b'0' + n) ∷ [] }

abbrev amount : Text
amount = b'a' ∷ b'm' ∷ b't' ∷ []

abbrev amount_field : Field numbers
unfolding upper to_upper is_alpha is_digit
amount_field = record {
  text = amount;
  lexes = ident-Lexes numbers b'a' (b'm' ∷ b't' ∷ []) refl refl;
  not_not = refl;
}

abbrev ten : Number numbers
unfolding is_alpha is_digit
ten = record {
  text = b'1' ∷ b'0' ∷ [];
  value = 10;
  lexes = number-Lexes numbers b'1' (b'0' ∷ []) 10 refl refl refl;
}

abbrev home : Quoted numbers
home = record {
  raw = b'\'' ∷ b'u' ∷ b's' ∷ b'\'' ∷ [];
  text = b'u' ∷ b's' ∷ [];
  lexes = string-Lexes numbers (b'u' ∷ b's' ∷ []) refl;
}

abbrev query : Query numbers
query =
    all_of (compare amount_field Comparator.above ten)
      (one (none_of (member amount_field true (a_text home) (a_number ten ∷ []))))

parse-nots_example :
    parse numbers (render numbers (nots numbers (capitals numbers) 127 [])) ≡ err too_deep
parse-nots_example = parse-nots numbers (capitals numbers) 127 [] (omega arith)

parse-total_example :
    ((c : Condition (Operands ℕ)) × (parse numbers amount ≡ ok c))
    ⊎ ((e : SqlError) × (parse numbers amount ≡ err e) × (is_stuck e ≡ false))
parse-total_example = parse-total numbers amount

-- `amt>10` and `(amt > 10`.
parse_short :
    parse numbers (b'a' ∷ b'm' ∷ b't' ∷ b'>' ∷ b'1' ∷ b'0' ∷ [])
    ≡ ok (condition numbers (compare amount_field Comparator.above ten))
unfolding parse condition
parse_short = refl

parse_open : parse numbers (b'(' ∷ b'a' ∷ b'>' ∷ b'1' ∷ []) ≡ err expected_close
unfolding parse
parse_open = refl

-- `amt LIKE '%us'`, `a 1` and `a>1 b`.
parse_like_text :
    parse numbers (b'a' ∷ b' ' ∷ b'l' ∷ b'i' ∷ b'k' ∷ b'e' ∷ b'\'' ∷ b'%' ∷ b'u' ∷ b'\'' ∷ [])
    ≡ ok (like_to_condition numbers (b'a' ∷ []) (b'%' ∷ b'u' ∷ []))
unfolding parse
parse_like_text = refl

parse_no_operator : parse numbers (b'a' ∷ b' ' ∷ b'1' ∷ []) ≡ err expected_operator
unfolding parse
parse_no_operator = refl

parse_trailing : parse numbers (b'a' ∷ b'>' ∷ b'1' ∷ b'b' ∷ []) ≡ err trailing_tokens
unfolding parse
parse_trailing = refl
