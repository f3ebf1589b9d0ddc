-- ===== src/Sql.antt =====
-- The expression parser of src/compiler/sql_expr_parser.cpp. A text is the list of its bytes, in
-- the C locale; an exception is an error value. `double`, `std::stod` and `num_to_string` are a
-- parameter, `Doubles`.
pub mod Lexer
pub mod Parser
pub mod Measure
pub mod Comparisons
pub mod Total
pub mod Words
pub mod Keys
pub mod Print
pub mod Leaves
pub mod Members
pub mod Reads
pub mod Chains
pub mod RoundTrip
pub mod Depth
pub mod AnyMatch
pub mod Examples
use blazerules.Prelude.{
  ℕ, zero, suc, ◌+◌, ◌-◌, Bool, true, false, not, ◌&&◌, ◌||◌, List, [], ◌∷◌, Option, none, some,
  leb, ◌==◌, if◌then◌else◌, Text, text_eq,
}

-- `std::stod`, which throws on `none`, the number zero, and the text of a number.
pub record Doubles (D : Type 0) : Type 0 where
  pub zero_value : D
  pub stod : Text → Option D
  pub num_to_string : D → Text

pub data SqlError : Type 0 where
  unexpected_character : ℕ → SqlError
  unterminated_string bad_number trailing_tokens too_deep : SqlError
  expected_close expected_value expected_field expected_null expected_in expected_open_list :
      SqlError
  expected_close_list range_not_numeric expected_and like_not_string expected_operator : SqlError
  unknown_operator operator_not_for_text : SqlError
  any_match_parentheses any_match_arguments any_match_arrow any_match_empty : SqlError
  -- Not in the program: a loop that runs out of fuel.
  stuck : SqlError

pub data Result {ℓ} (A : Type ℓ) : Type ℓ where
  ok : A → Result A
  err : SqlError → Result A

abbrev pub bind {ℓ κ} : {A : Type ℓ} {B : Type κ} → Result A → (A → Result B) → Result B
bind (ok a) f = f a
bind (err e) f = err e

pub data Tok : Type 0 where
  end ident number string op lparen rparen comma : Tok

pub record Token (D : Type 0) : Type 0 where
  pub kind : Tok
  pub text : Text
  pub number : D

abbrev within : ℕ → ℕ → ℕ → Bool
within lo hi c = leb lo c && leb c hi

unfoldable pub is_space : ℕ → Bool
is_space c = c == b' ' || within 9 13 c

unfoldable pub is_digit : ℕ → Bool
is_digit c = within b'0' b'9' c

unfoldable pub is_alpha : ℕ → Bool
is_alpha c = within b'a' b'z' c || within b'A' b'Z' c

unfoldable pub to_upper : ℕ → ℕ
to_upper c = if within b'a' b'z' c then c - 32 else c

unfoldable pub upper : Text → Text
unfolding to_upper
upper [] = []
upper (c ∷ s) = to_upper c ∷ upper s
