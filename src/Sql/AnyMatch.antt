-- ===== src/Sql/AnyMatch.antt =====
-- `any_match(path, alias -> body)` and `parse_sql_expression`. The scan for the comma keeps the
-- counts of the parentheses, whose difference is `depth`.
pub mod Trim
pub mod Call
pub mod Alias
pub mod Fields
pub mod Examples
use Prim.Native.Nat.{bit_xor, ◌/◌}
use blazerules.Prelude.{
  ℕ, zero, suc, ◌+◌, ◌-◌, ◌*◌, ◌%◌, ◌^◌, Bool, true, false, not, ◌&&◌, ◌||◌, List, [], ◌∷◌, ◌++◌,
  Option, none, some, length, ◌==◌, if◌then◌else◌, Text, ltb,
}
use blazerules.Spec.{Operands}
use blazerules.Compile.{Condition}
use blazerules.Sql.{
  Doubles, SqlError, any_match_parentheses, any_match_arguments, any_match_arrow, any_match_empty,
  Result, ok, err, bind, is_space, is_alpha, is_digit, upper,
}
use blazerules.Sql.Lexer.{skip_ws, prepend, is_quote}
use blazerules.Sql.Parser.{parse, drop_last}

-- A character in front, unless it is a space at the end.
abbrev pub keep_char : ℕ → Text → Text
keep_char c [] = if is_space c then [] else c ∷ []
keep_char c (d ∷ s) = c ∷ d ∷ s

unfoldable pub trim_end : Text → Text
unfolding is_space
trim_end [] = []
trim_end (c ∷ s) = keep_char c (trim_end s)

unfoldable pub trim : Text → Text
unfolding skip_ws trim_end
trim value = trim_end (skip_ws value)

abbrev pub fnv_from : ℕ → Text → ℕ
fnv_from h [] = h
fnv_from h (c ∷ text) = fnv_from ((bit_xor h c * 1099511628211) % 2 ^ 64) text

abbrev pub fnv1a64 : Text → ℕ
fnv1a64 text = fnv_from 1469598103934665603 text

abbrev pub is_alnum : ℕ → Bool
is_alnum c = is_alpha c || is_digit c

abbrev pub sanitize_chars : Text → Text
sanitize_chars [] = []
sanitize_chars (c ∷ text) = (if is_alnum c then c else b'_') ∷ sanitize_chars text

abbrev pub array_word : Text
array_word = b'a' ∷ b'r' ∷ b'r' ∷ b'a' ∷ b'y' ∷ []

abbrev pub or_array : Text → Text
or_array [] = array_word
or_array (c ∷ out) = c ∷ out

abbrev pub sanitize_identifier : Text → Text
sanitize_identifier text = or_array (sanitize_chars text)

abbrev hex_digit : ℕ → ℕ
hex_digit n = if ltb n 10 then b'0' + n else b'a' + (n - 10)

-- `std::hex`, of a number of at most so many digits, before `out`.
abbrev pub hex : ℕ → ℕ → Text → Text
hex zero n out = out
hex (suc fuel) n out =
    let more = hex fuel (n / 16) (hex_digit (n % 16) ∷ out) in
    if n / 16 == 0 then hex_digit (n % 16) ∷ out else more

abbrev pub array_prefix : Text
array_prefix =
    b'_' ∷ b'_' ∷ b'a' ∷ b'r' ∷ b'r' ∷ b'a' ∷ b'y' ∷ b'_' ∷ b'a' ∷ b'n' ∷ b'y' ∷ b'_' ∷ []

unfoldable pub array_any_synthetic_name : Text → Text → Text
unfolding is_alpha is_digit
array_any_synthetic_name path fingerprint =
    array_prefix ++ (sanitize_identifier path ++ b'_' ∷ hex 16 (fnv1a64 fingerprint) [])

-- What follows a prefix.
abbrev pub strip_prefix : Text → Text → Option Text
strip_prefix [] s = some s
strip_prefix (c ∷ prefix) [] = none
strip_prefix (c ∷ prefix) (d ∷ s) = if c == d then strip_prefix prefix s else none

-- The test of the character before a position.
abbrev pub at_boundary : Option ℕ → Bool
at_boundary none = true
at_boundary (some c) = not (is_alnum c || c == b'_')

-- The loop of `strip_alias_prefixes` from a position whose character before it is `previous`.
-- The prefix ends with a full stop.
unfoldable pub strip_from : Text → ℕ → Option ℕ → Text → Text
unfolding is_alpha is_digit
strip_from prefix zero previous s = s
strip_from prefix (suc fuel) previous [] = []
strip_from prefix (suc fuel) previous (c ∷ s) = elim (strip_prefix prefix (c ∷ s)) [
  | none ↦ c ∷ strip_from prefix fuel (some c) s
  | some rest ↦ elim (at_boundary previous) [
    | true ↦ strip_from prefix fuel previous rest
    | false ↦ prefix ++ strip_from prefix fuel (some b'.') rest
  ]
]

unfoldable pub strip_alias_prefixes : Text → Text → Text
unfolding strip_from
strip_alias_prefixes body alias = strip_from (alias ++ b'.' ∷ []) (length body) none body

-- The text before and after the first of a character.
abbrev pub split_at : ℕ → Text → Option (Text × Text)
split_at d [] = none
split_at d (c ∷ s) = let later = split_at d s in if c == d then some ([], s) else prepend c later

pub record Scan : Type 0 where
  pub quoted : Option ℕ
  pub opens : ℕ
  pub closes : ℕ

abbrev pub in_quotes : ℕ → ℕ → Option ℕ
in_quotes quote c = if c == quote then none else some quote

-- One turn of the loop, but for the comma.
abbrev pub scan_step : ℕ → Scan → Scan
scan_step c st = elim st.quoted [
  | some quote ↦ record st { quoted = in_quotes quote c }
  | none ↦
      if is_quote c
      then record st { quoted = some c }
      else if c == b'('
      then record st { opens = suc st.opens }
      else if c == b')'
      then record st { closes = suc st.closes }
      else st
]

abbrev pub is_unquoted : Option ℕ → Bool
is_unquoted none = true
is_unquoted (some quote) = false

abbrev pub splits : ℕ → Scan → Bool
splits c st = is_unquoted st.quoted && (c == b',' && st.opens == st.closes)

-- The text before and after the first comma outside quotes and parentheses.
unfoldable pub scan_comma : Scan → Text → Option (Text × Text)
scan_comma st [] = none
scan_comma st (c ∷ s) =
    let later = scan_comma (scan_step c st) s in
    if splits c st then some ([], s) else prepend c later

-- The text before and after the first `->`.
unfoldable pub split_arrow : Text → Option (Text × Text)
split_arrow [] = none
split_arrow (c ∷ s) =
    let later = prepend c (split_arrow s) in
    elim (strip_prefix (b'-' ∷ b'>' ∷ []) (c ∷ s)) [ none ↦ later | some rest ↦ some ([], rest) ]

abbrev pub ends_with_close : Text → Bool
ends_with_close [] = false
ends_with_close (c ∷ []) = c == b')'
ends_with_close (c ∷ d ∷ s) = ends_with_close (d ∷ s)

abbrev pub any_match_word : Text
any_match_word = b'A' ∷ b'N' ∷ b'Y' ∷ b'_' ∷ b'M' ∷ b'A' ∷ b'T' ∷ b'C' ∷ b'H' ∷ []

-- What `parse_any_match_call` says of a text.
pub data AnyMatch : Type 0 where
  not_call : AnyMatch
  bad_call : SqlError → AnyMatch
  call : Text → Text → Text → AnyMatch

abbrev pub is_blank : Text → Bool
is_blank [] = true
is_blank (c ∷ s) = false

abbrev pub check_parts : Text → Text → Text → AnyMatch
check_parts path alias body =
    if is_blank path || (is_blank alias || is_blank body)
    then bad_call any_match_empty
    else call path alias body

unfoldable pub read_lambda : Text → Text → AnyMatch
unfolding split_arrow trim
read_lambda path lambda = elim (split_arrow lambda) [
  | none ↦ bad_call any_match_arrow
  | some (alias, body) ↦ check_parts path (trim alias) (trim body)
]

unfoldable pub read_arguments : Text → AnyMatch
unfolding scan_comma read_lambda trim
read_arguments inner = elim (scan_comma (record { quoted = none; opens = 0; closes = 0 }) inner) [
  | none ↦ bad_call any_match_arguments
  | some (path, lambda) ↦ read_lambda (trim path) (trim lambda)
]

unfoldable pub read_call : Text → AnyMatch
unfolding read_arguments drop_last
read_call trimmed = elim (split_at b'(' trimmed) [
  | none ↦ bad_call any_match_parentheses
  | some (name, after) ↦
      if ends_with_close trimmed
      then read_arguments (drop_last after)
      else bad_call any_match_parentheses
]

unfoldable pub parse_any_match_call : Text → AnyMatch
unfolding read_call trim upper
parse_any_match_call text =
    let trimmed = trim text in
    elim (strip_prefix any_match_word (upper trimmed)) [
      | none ↦ not_call
      | some rest ↦ read_call trimmed
    ]

-- The condition of an expression.
pub data Expression (D : Type 0) : Type 0 where
  of_row : Condition (Operands D) → Expression D
  -- The path, the synthetic field and the condition on the elements.
  array_any : Text → Text → Condition (Operands D) → Expression D

module _ {D : Type 0} (doubles : Doubles D) where
  unfoldable pub parse_sql_expression : Text → Result (Expression D)
  unfolding parse parse_any_match_call strip_alias_prefixes array_any_synthetic_name
  parse_sql_expression text = elim (parse_any_match_call text) [
    | not_call ↦ bind (parse doubles text) λ c. ok (of_row c)
    | bad_call e ↦ err e
    | call path alias body ↦
        bind (parse doubles (strip_alias_prefixes body alias))
          λ c. ok (array_any path (array_any_synthetic_name path text) c)
  ]
