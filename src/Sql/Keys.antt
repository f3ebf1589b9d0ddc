-- ===== src/Sql/Keys.antt =====
-- The words that queries are made of.
use blazerules.Prelude.{ℕ, ◌≡◌, refl, false, [], ◌∷◌, arith, Text, text_eq}
use blazerules.Compile.{OpType}
use blazerules.Sql.{Doubles, ok, Tok, Token, upper, is_space, is_alpha, is_digit}
use blazerules.Sql.Lexer.{plain, skip_ws, next, next_from, token_at, operator_token}
use blazerules.Sql.Parser.{
  word_or, word_and, word_not, word_is, word_null, word_in, word_between, word_like, op_text,
}
use blazerules.Sql.Words.{Word, Lexes, Boundary, ident-Lexes}

-- The comparisons of numbers.
pub data Comparator : Type 0 where
  above below at_least at_most equal different : Comparator

abbrev pub comparator_text : Comparator → Text
comparator_text Comparator.above = b'>' ∷ []
comparator_text Comparator.below = b'<' ∷ []
comparator_text Comparator.at_least = op_text b'>' b'='
comparator_text Comparator.at_most = op_text b'<' b'='
comparator_text Comparator.equal = b'=' ∷ []
comparator_text Comparator.different = op_text b'!' b'='

abbrev pub comparator_op : Comparator → OpType
comparator_op Comparator.above = OpType.gt
comparator_op Comparator.below = OpType.less_than
comparator_op Comparator.at_least = OpType.gte
comparator_op Comparator.at_most = OpType.lte
comparator_op Comparator.equal = OpType.eq
comparator_op Comparator.different = OpType.neq

module _ {D : Type 0} (doubles : Doubles D) where
  -- The name of a field, a number and a quoted text, as the lexer reads them.
  pub record Field : Type 0 where
    pub text : Text
    pub lexes : Lexes doubles text (plain doubles Tok.ident text)
    pub not_not : text_eq (upper text) word_not ≡ false

  pub record Number : Type 0 where
    pub text : Text
    pub value : D
    pub lexes : Lexes doubles text (record { kind = Tok.number; text = text; number = value })

  pub record Quoted : Type 0 where
    pub raw : Text
    pub text : Text
    pub lexes : Lexes doubles raw (plain doubles Tok.string text)

  pub data Literal : Type 0 where
    a_number : Number → Literal
    a_text : Quoted → Literal

  abbrev pub field_word : Field → Word doubles
  field_word f = record { raw = f.text; token = plain doubles Tok.ident f.text; lexes = f.lexes }

  abbrev pub number_word : Number → Word doubles
  number_word n = record {
    raw = n.text;
    token = record { kind = Tok.number; text = n.text; number = n.value };
    lexes = n.lexes;
  }

  abbrev pub quoted_word : Quoted → Word doubles
  quoted_word q = record { raw = q.raw; token = plain doubles Tok.string q.text; lexes = q.lexes }

  abbrev pub literal_word : Literal → Word doubles
  literal_word (a_number n) = number_word n
  literal_word (a_text q) = quoted_word q

  abbrev pub literal_text : Literal → Text
  literal_text (a_number n) = doubles.num_to_string n.value
  literal_text (a_text q) = q.text

  pub or-Lexes : Lexes doubles word_or (plain doubles Tok.ident word_or)
  unfolding is_alpha is_digit
  or-Lexes = ident-Lexes doubles b'O' (b'R' ∷ []) refl refl

  pub and-Lexes : Lexes doubles word_and (plain doubles Tok.ident word_and)
  unfolding is_alpha is_digit
  and-Lexes = ident-Lexes doubles b'A' (b'N' ∷ b'D' ∷ []) refl refl

  pub not-Lexes : Lexes doubles word_not (plain doubles Tok.ident word_not)
  unfolding is_alpha is_digit
  not-Lexes = ident-Lexes doubles b'N' (b'O' ∷ b'T' ∷ []) refl refl

  pub is-Lexes : Lexes doubles word_is (plain doubles Tok.ident word_is)
  unfolding is_alpha is_digit
  is-Lexes = ident-Lexes doubles b'I' (b'S' ∷ []) refl refl

  pub null-Lexes : Lexes doubles word_null (plain doubles Tok.ident word_null)
  unfolding is_alpha is_digit
  null-Lexes = ident-Lexes doubles b'N' (b'U' ∷ b'L' ∷ b'L' ∷ []) refl refl

  pub in-Lexes : Lexes doubles word_in (plain doubles Tok.ident word_in)
  unfolding is_alpha is_digit
  in-Lexes = ident-Lexes doubles b'I' (b'N' ∷ []) refl refl

  pub between-Lexes : Lexes doubles word_between (plain doubles Tok.ident word_between)
  unfolding is_alpha is_digit
  between-Lexes = ident-Lexes doubles b'B' (b'E' ∷ b'T' ∷ b'W' ∷ b'E' ∷ b'E' ∷ b'N' ∷ []) refl refl

  pub like-Lexes : Lexes doubles word_like (plain doubles Tok.ident word_like)
  unfolding is_alpha is_digit
  like-Lexes = ident-Lexes doubles b'L' (b'I' ∷ b'K' ∷ b'E' ∷ []) refl refl

  pub open-Lexes : Lexes doubles (b'(' ∷ []) (plain doubles Tok.lparen (b'(' ∷ []))
  unfolding next skip_ws next_from token_at is_space
  open-Lexes tail h = refl

  pub close-Lexes : Lexes doubles (b')' ∷ []) (plain doubles Tok.rparen (b')' ∷ []))
  unfolding next skip_ws next_from token_at is_space
  close-Lexes tail h = refl

  pub comma-Lexes : Lexes doubles (b',' ∷ []) (plain doubles Tok.comma (b',' ∷ []))
  unfolding next skip_ws next_from token_at is_space
  comma-Lexes tail h = refl

  -- A text of a token.
  pub record Lexeme (token : Token D) : Type 0 where
    pub raw : Text
    pub lexes : Lexes doubles raw token

  -- The texts of the keywords and of the punctuation.
  pub record Keys : Type 0 where
    pub or_lexeme : Lexeme (plain doubles Tok.ident word_or)
    pub and_lexeme : Lexeme (plain doubles Tok.ident word_and)
    pub not_lexeme : Lexeme (plain doubles Tok.ident word_not)
    pub is_lexeme : Lexeme (plain doubles Tok.ident word_is)
    pub null_lexeme : Lexeme (plain doubles Tok.ident word_null)
    pub in_lexeme : Lexeme (plain doubles Tok.ident word_in)
    pub between_lexeme : Lexeme (plain doubles Tok.ident word_between)
    pub like_lexeme : Lexeme (plain doubles Tok.ident word_like)
    pub open_lexeme : Lexeme (plain doubles Tok.lparen (b'(' ∷ []))
    pub close_lexeme : Lexeme (plain doubles Tok.rparen (b')' ∷ []))
    pub comma_lexeme : Lexeme (plain doubles Tok.comma (b',' ∷ []))

  -- The keywords in capitals.
  abbrev pub capitals : Keys
  capitals = record {
    or_lexeme = record { raw = word_or; lexes = or-Lexes };
    and_lexeme = record { raw = word_and; lexes = and-Lexes };
    not_lexeme = record { raw = word_not; lexes = not-Lexes };
    is_lexeme = record { raw = word_is; lexes = is-Lexes };
    null_lexeme = record { raw = word_null; lexes = null-Lexes };
    in_lexeme = record { raw = word_in; lexes = in-Lexes };
    between_lexeme = record { raw = word_between; lexes = between-Lexes };
    like_lexeme = record { raw = word_like; lexes = like-Lexes };
    open_lexeme = record { raw = b'(' ∷ []; lexes = open-Lexes };
    close_lexeme = record { raw = b')' ∷ []; lexes = close-Lexes };
    comma_lexeme = record { raw = b',' ∷ []; lexes = comma-Lexes };
  }

  abbrev pub lexeme_word : (token : Token D) → Lexeme token → Word doubles
  lexeme_word token l = record { raw = l.raw; token = token; lexes = l.lexes }

  short-Lexes :
      (c : ℕ) (tail : Text)
      → Boundary tail
      → operator_token doubles c tail ≡ ok (plain doubles Tok.op (c ∷ []), tail)
  unfolding operator_token
  short-Lexes c [] h = refl
  short-Lexes c (d ∷ s) h = rw h (ground arith)

  pub comparator-Lexes :
      (o : Comparator)
      → Lexes doubles (comparator_text o) (plain doubles Tok.op (comparator_text o))
  unfolding next skip_ws next_from token_at is_space operator_token
  comparator-Lexes Comparator.above tail h = short-Lexes b'>' tail h
  comparator-Lexes Comparator.below tail h = short-Lexes b'<' tail h
  comparator-Lexes Comparator.at_least tail h = refl
  comparator-Lexes Comparator.at_most tail h = refl
  comparator-Lexes Comparator.equal tail h = short-Lexes b'=' tail h
  comparator-Lexes Comparator.different tail h = refl

  abbrev pub comparator_word : Comparator → Word doubles
  comparator_word o = record {
    raw = comparator_text o;
    token = plain doubles Tok.op (comparator_text o);
    lexes = comparator-Lexes o;
  }

module _ {D : Type 0} {doubles : Doubles D} (keys : Keys doubles) where
  abbrev pub or_key : Word doubles
  or_key = lexeme_word doubles (plain doubles Tok.ident word_or) keys.or_lexeme

  abbrev pub and_key : Word doubles
  and_key = lexeme_word doubles (plain doubles Tok.ident word_and) keys.and_lexeme

  abbrev pub not_key : Word doubles
  not_key = lexeme_word doubles (plain doubles Tok.ident word_not) keys.not_lexeme

  abbrev pub is_key : Word doubles
  is_key = lexeme_word doubles (plain doubles Tok.ident word_is) keys.is_lexeme

  abbrev pub null_key : Word doubles
  null_key = lexeme_word doubles (plain doubles Tok.ident word_null) keys.null_lexeme

  abbrev pub in_key : Word doubles
  in_key = lexeme_word doubles (plain doubles Tok.ident word_in) keys.in_lexeme

  abbrev pub between_key : Word doubles
  between_key = lexeme_word doubles (plain doubles Tok.ident word_between) keys.between_lexeme

  abbrev pub like_key : Word doubles
  like_key = lexeme_word doubles (plain doubles Tok.ident word_like) keys.like_lexeme

  abbrev pub open_word : Word doubles
  open_word = lexeme_word doubles (plain doubles Tok.lparen (b'(' ∷ [])) keys.open_lexeme

  abbrev pub close_word : Word doubles
  close_word = lexeme_word doubles (plain doubles Tok.rparen (b')' ∷ [])) keys.close_lexeme

  abbrev pub comma_word : Word doubles
  comma_word = lexeme_word doubles (plain doubles Tok.comma (b',' ∷ [])) keys.comma_lexeme
