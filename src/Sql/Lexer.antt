-- ===== src/Sql/Lexer.antt =====
-- `Lexer`: a function from the rest of the text to a token and the rest after it.
use blazerules.Prelude.{
  ℕ, Bool, false, ◌&&◌, ◌||◌, [], ◌∷◌, Option, none, some, ◌==◌, if◌then◌else◌, Text,
}
use blazerules.Sql.{
  Doubles, unexpected_character, unterminated_string, bad_number, Result, ok, err, Tok, Token,
  is_space, is_digit, is_alpha,
}

unfoldable pub skip_ws : Text → Text
unfolding is_space
skip_ws [] = []
skip_ws (c ∷ s) = let rest = skip_ws s in if is_space c then rest else c ∷ s

abbrev pub prepend : ℕ → Option (Text × Text) → Option (Text × Text)
prepend c none = none
prepend c (some (out, rest)) = some (c ∷ out, rest)

-- The text before the next `quote`, and the text after it.
unfoldable pub take_until : ℕ → Text → Option (Text × Text)
take_until quote [] = none
take_until quote (c ∷ s) =
    let later = take_until quote s in if c == quote then some ([], s) else prepend c later

abbrev pub in_number : ℕ → Bool
in_number c = is_digit c || (c == b'.' || (c == b'e' || c == b'E'))

abbrev pub is_sign : ℕ → Bool
is_sign c = c == b'-' || c == b'+'

abbrev pub is_exponent : ℕ → Bool
is_exponent c = c == b'e' || c == b'E'

-- The loop of `number_token` after the character `previous`: a sign goes on only after an exponent.
unfoldable pub scan_number : ℕ → Text → Text × Text
unfolding is_digit
scan_number previous [] = ([], [])
scan_number previous (c ∷ s) =
    let (out, rest) = scan_number c s in
    if in_number c || (is_sign c && is_exponent previous) then (c ∷ out, rest) else ([], c ∷ s)

abbrev pub in_ident : ℕ → Bool
in_ident c = is_alpha c || (is_digit c || (c == b'_' || c == b'.'))

unfoldable pub scan_ident : Text → Text × Text
unfolding is_alpha is_digit
scan_ident [] = ([], [])
scan_ident (c ∷ s) =
    let (out, rest) = scan_ident s in if in_ident c then (c ∷ out, rest) else ([], c ∷ s)

unfoldable pub starts_digit : Text → Bool
unfolding is_digit
starts_digit [] = false
starts_digit (c ∷ s) = is_digit c

abbrev pub doubled : ℕ → ℕ → Bool
doubled c d = d == b'=' || (c == b'<' && d == b'>')

abbrev pub is_quote : ℕ → Bool
is_quote c = c == b'\'' || c == b'"'

abbrev pub is_operator : ℕ → Bool
is_operator c = c == b'>' || (c == b'<' || (c == b'=' || c == b'!'))

abbrev pub starts_number : ℕ → Text → Bool
starts_number c s = is_digit c || (is_sign c || (c == b'.' && starts_digit s))

module _ {D : Type 0} (doubles : Doubles D) where
  abbrev pub plain : Tok → Text → Token D
  plain kind text = record { kind = kind; text = text; number = doubles.zero_value }

  unfoldable pub string_literal : ℕ → Text → Result (Token D × Text)
  unfolding take_until
  string_literal quote s = elim (take_until quote s) [
    | none ↦ err unterminated_string
    | some (out, rest) ↦ ok (plain Tok.string out, rest)
  ]

  unfoldable pub operator_token : ℕ → Text → Result (Token D × Text)
  operator_token c [] = ok (plain Tok.op (c ∷ []), [])
  operator_token c (d ∷ s) =
      if doubled c d then ok (plain Tok.op (c ∷ d ∷ []), s) else ok (plain Tok.op (c ∷ []), d ∷ s)

  unfoldable pub number_token : ℕ → Text → Result (Token D × Text)
  unfolding scan_number
  number_token c s =
      let (out, rest) = scan_number c s in
      elim (doubles.stod (c ∷ out)) [
        | none ↦ err bad_number
        | some value ↦ ok (record { kind = Tok.number; text = c ∷ out; number = value }, rest)
      ]

  unfoldable pub ident_token : ℕ → Text → Result (Token D × Text)
  unfolding scan_ident
  ident_token c s = let (out, rest) = scan_ident s in ok (plain Tok.ident (c ∷ out), rest)

  -- The token that starts with a character.
  unfoldable pub token_at : ℕ → Text → Result (Token D × Text)
  unfolding string_literal operator_token number_token ident_token is_digit is_alpha starts_digit
  token_at c s =
      if c == b'('
      then ok (plain Tok.lparen (c ∷ []), s)
      else if c == b')'
      then ok (plain Tok.rparen (c ∷ []), s)
      else if c == b','
      then ok (plain Tok.comma (c ∷ []), s)
      else if is_quote c
      then string_literal c s
      else if is_operator c
      then operator_token c s
      else if starts_number c s
      then number_token c s
      else if is_alpha c || c == b'_'
      then ident_token c s
      else err (unexpected_character c)

  unfoldable pub next_from : Text → Result (Token D × Text)
  unfolding token_at
  next_from [] = ok (plain Tok.end [], [])
  next_from (c ∷ s) = token_at c s

  unfoldable pub next : Text → Result (Token D × Text)
  unfolding next_from skip_ws
  next src = next_from (skip_ws src)
