-- ===== src/Sql/AnyMatch/Examples.antt =====
-- `any_match(its, x -> x.p > 1)`, and the field `any_match_n`.
use blazerules.Prelude.{ℕ, ◌+◌, ◌*◌, ◌-◌, ◌≡◌, refl, [], ◌∷◌, ◌++◌, Option, some, Text}
use blazerules.Compile.{OpType, Kind}
use blazerules.Sql.{
  Doubles, any_match_parentheses, ok, err, bind, is_space, is_alpha, is_digit, upper, to_upper,
}
use blazerules.Sql.Words.{render, ident-Lexes, number-Lexes}
use blazerules.Sql.Keys.{Comparator, Field, Number, capitals}
use blazerules.Sql.Print.{compare, print, condition}
use blazerules.Sql.Parser.{parse, make, blank}
use blazerules.Sql.AnyMatch.{
  strip_alias_prefixes, array_any_synthetic_name, fnv1a64, array_any, parse_sql_expression,
}
use blazerules.Sql.AnyMatch.Trim.{Padded}
use blazerules.Sql.AnyMatch.Call.{call_text}
use blazerules.Sql.AnyMatch.Alias.{parse_sql_expression-call_text}
use blazerules.Sql.AnyMatch.Fields.{parse_sql_expression-no_call}

abbrev digits : ℕ → Text → Option ℕ
digits sum [] = some sum
digits sum (c ∷ s) = digits (10 * sum + (c - b'0')) s

abbrev numbers : Doubles ℕ
numbers = record { zero_value = 0; stod = digits 0; num_to_string = λ n. (b'0' + n) ∷ [] }

abbrev any_match : Text
any_match = b'a' ∷ b'n' ∷ b'y' ∷ b'_' ∷ b'm' ∷ b'a' ∷ b't' ∷ b'c' ∷ b'h' ∷ []

abbrev items : Padded
unfolding is_space
items = record {
  before = [];
  text = b'i' ∷ b't' ∷ b's' ∷ [];
  after = [];
  bare = (refl, refl);
  spaces_before = refl;
  spaces_after = refl;
}

abbrev alias : Padded
unfolding is_space
alias = record {
  before = b' ' ∷ [];
  text = b'x' ∷ [];
  after = b' ' ∷ [];
  bare = (refl, refl);
  spaces_before = refl;
  spaces_after = refl;
}

abbrev body : Padded
unfolding is_space
body = record {
  before = b' ' ∷ [];
  text = b'x' ∷ b'.' ∷ b'p' ∷ b'>' ∷ b'1' ∷ [];
  after = [];
  bare = (refl, refl);
  spaces_before = refl;
  spaces_after = refl;
}

parse_sql_expression-call_text_example :
    parse_sql_expression numbers (call_text any_match items alias body)
    ≡ bind (parse numbers (strip_alias_prefixes body.text alias.text)) λ c. ok (
        array_any items.text
          (array_any_synthetic_name items.text (call_text any_match items alias body))
          c)
unfolding upper to_upper items alias
parse_sql_expression-call_text_example =
    parse_sql_expression-call_text numbers any_match items alias body refl refl refl

-- The condition of the body: `p > 1`.
body_run :
    parse numbers (strip_alias_prefixes body.text alias.text)
    ≡ ok
        (make numbers Kind.numeric OpType.gt (record (blank numbers (b'p' ∷ [])) { threshold = 1 }))
unfolding parse strip_alias_prefixes
body_run = refl

abbrev suffix : Text
suffix = b'_' ∷ b'n' ∷ []

-- `any_match_n > 1`.
abbrev any_match_field : Field numbers
unfolding upper to_upper is_alpha is_digit
any_match_field = record {
  text = any_match ++ suffix;
  lexes =
      ident-Lexes numbers b'a'
        (b'n' ∷ b'y' ∷ b'_' ∷ b'm' ∷ b'a' ∷ b't' ∷ b'c' ∷ b'h' ∷ b'_' ∷ b'n' ∷ []) refl refl;
  not_not = refl;
}

abbrev unit : Number numbers
unfolding is_alpha is_digit
unit = record { text = b'1' ∷ []; value = 1; lexes = number-Lexes numbers b'1' [] 1 refl refl refl }

abbrev any_match_text : Text
any_match_text =
    render numbers
      (print numbers (capitals numbers) (compare any_match_field Comparator.above unit) [])

parse_sql_expression-no_call_example :
    (parse numbers any_match_text
      ≡ ok (condition numbers (compare any_match_field Comparator.above unit)))
    × (parse_sql_expression numbers any_match_text ≡ err any_match_parentheses)
unfolding upper to_upper is_space any_match_field
parse_sql_expression-no_call_example =
    parse_sql_expression-no_call numbers (capitals numbers) any_match_field Comparator.above unit
      any_match suffix refl refl refl refl refl

-- The prefix goes out of a quoted text too: `x.u='x.c'`.
strip_quoted :
    strip_alias_prefixes
      (b'x' ∷ b'.' ∷ b'u' ∷ b'=' ∷ b'\'' ∷ b'x' ∷ b'.' ∷ b'c' ∷ b'\'' ∷ [])
      (b'x' ∷ [])
    ≡ b'u' ∷ b'=' ∷ b'\'' ∷ b'c' ∷ b'\'' ∷ []
unfolding strip_alias_prefixes
strip_quoted = refl

synthetic_run :
    array_any_synthetic_name (b'a' ∷ b'.' ∷ b'b' ∷ []) []
    ≡ b'_' ∷ b'_' ∷ b'a' ∷ b'r' ∷ b'r' ∷ b'a' ∷ b'y' ∷ b'_' ∷ b'a' ∷ b'n' ∷ b'y' ∷ b'_' ∷ b'a'
      ∷ b'_' ∷ b'b' ∷ b'_' ∷ b'1' ∷ b'4' ∷ b'6' ∷ b'5' ∷ b'0' ∷ b'f' ∷ b'b' ∷ b'0' ∷ b'7' ∷ b'3'
      ∷ b'9' ∷ b'd' ∷ b'0' ∷ b'3' ∷ b'8' ∷ b'3' ∷ []
unfolding array_any_synthetic_name
synthetic_run = refl

fnv_run : fnv1a64 (b'a' ∷ b'b' ∷ []) ≡ 11217423238573040876
fnv_run = refl
