-- ===== src/Sql/Parser/Grammar.antt =====
-- `Parser`: the current token and the rest of the text are the state. `depth_` is what is left of
-- `kMaxDepth`: a guard that finds none left throws. Each loop runs on fuel, the length of the rest.
use blazerules.Prelude.{ℕ, zero, suc, ◌||◌, List, [], ◌∷◌, length, if◌then◌else◌, Text}
use blazerules.Spec.{Operands}
use blazerules.Compile.{
  OpType, Kind, Condition, leaf, conjunction, disjunction, negation, Conditions, nil, cons,
}
use blazerules.Sql.{
  Doubles, SqlError, expected_close, expected_value, expected_field, expected_null, expected_in,
  expected_open_list, expected_close_list, range_not_numeric, expected_and, like_not_string,
  expected_operator, trailing_tokens, too_deep, stuck, Result, ok, err, bind, Tok,
}
use blazerules.Sql.Lexer.{next, plain}
use blazerules.Sql.Parser.Tokens.{
  State, Parser, pure, throw, ◌>>=◌, ◌>>◌, is_keyword, at_kind, when, cur_text, cur_number, Value,
  word_or, word_and, word_not, word_is, word_null, word_in, word_between, word_like, word_ilike,
  numeric_op, text_op, starts_percent, ends_percent, like_op, like_core, max_depth, number_value,
  text_value,
}

module _ {D : Type 0} (doubles : Doubles D) where
  abbrev pub blank : Text → Operands D
  blank field = record {
    field = field;
    threshold = doubles.zero_value;
    lower = doubles.zero_value;
    upper = doubles.zero_value;
    values = [];
  }

  abbrev pub make : Kind → OpType → Operands D → Condition (Operands D)
  make kind op x = leaf (record { kind = kind; op = op; operands = x })

  unfoldable pub like_to_condition : Text → Text → Condition (Operands D)
  unfolding like_core
  like_to_condition field pat =
      make Kind.string_test (like_op (starts_percent pat) (ends_percent pat))
        (record (blank field) { values = like_core pat ∷ [] })

  unfoldable pub advance : Parser D (Unit {0})
  unfolding next
  advance st =
      bind (next doubles st.rest) λ (token, rest). ok (tt, record { cur = token; rest = rest })

  unfoldable pub expect : Tok → SqlError → Parser D (Unit {0})
  unfolding advance
  expect kind e = when (at_kind kind) advance (throw e)

  unfoldable pub read_value : Parser D (Value D)
  unfolding advance
  read_value =
      when (at_kind Tok.number) (do n ← cur_number; advance; pure (number_value n))
        (when (λ st. at_kind Tok.string st || at_kind Tok.ident st)
          (do s ← cur_text; advance; pure (text_value s)) (throw expected_value))

  abbrev pub value_text : Value D → Text
  value_text (number_value n) = doubles.num_to_string n
  value_text (text_value s) = s

  -- The loop over the values of an IN list.
  unfoldable pub read_values : ℕ → Parser D (List Text)
  unfolding read_value advance
  read_values zero = when (at_kind Tok.rparen) (pure []) (throw stuck)
  read_values (suc fuel) = when (at_kind Tok.rparen) (pure []) do
    v ← read_value
    when (at_kind Tok.comma) (do advance; vs ← read_values fuel; pure (value_text v ∷ vs))
        (pure (value_text v ∷ []))

  abbrev pub fuel_of : {A : Type 0} → (ℕ → Parser D A) → Parser D A
  fuel_of p st = p (suc (length st.rest)) st

  unfoldable pub parse_in : Text → OpType → Parser D (Condition (Operands D))
  unfolding expect read_values
  parse_in field op = do
    expect Tok.lparen expected_open_list
    values ← fuel_of read_values
    expect Tok.rparen expected_close_list
    pure (make Kind.categorical op (record (blank field) { values = values }))

  unfoldable pub read_null_op : Parser D OpType
  unfolding advance is_keyword
  read_null_op =
      when (is_keyword word_not) (do advance; pure OpType.is_not_null) (pure OpType.is_null)

  unfoldable pub parse_is : Text → Parser D (Condition (Operands D))
  unfolding advance is_keyword read_null_op
  parse_is field = do
    op ← read_null_op
    when (is_keyword word_null) advance (throw expected_null)
    pure (make Kind.null_test op (blank field))

  abbrev pub as_number : Value D → Parser D D
  as_number (number_value n) = pure n
  as_number (text_value s) = throw range_not_numeric

  unfoldable pub read_number : Parser D D
  unfolding read_value
  read_number = read_value >>= as_number

  unfoldable pub parse_between : Text → Parser D (Condition (Operands D))
  unfolding read_number advance is_keyword
  parse_between field = do
    lo ← read_number
    when (is_keyword word_and) advance (throw expected_and)
    hi ← read_number
    pure (
        make Kind.numeric_range OpType.between_including
          (record (blank field) { lower = lo; upper = hi }))

  unfoldable pub parse_like : Text → Parser D (Condition (Operands D))
  unfolding advance like_to_condition
  parse_like field =
      when (at_kind Tok.string) (do pat ← cur_text; advance; pure (like_to_condition field pat))
        (throw like_not_string)

  abbrev pub lift : {A : Type 0} → Result A → Parser D A
  lift r st = bind r λ a. ok (a, st)

  unfoldable pub compare_value : Text → Text → Value D → Parser D (Condition (Operands D))
  unfolding numeric_op text_op
  compare_value field op (number_value n) = lift (numeric_op op) >>= λ t.
      pure (make Kind.numeric t (record (blank field) { threshold = n }))
  compare_value field op (text_value s) = lift (text_op op) >>= λ t.
      pure (make Kind.categorical t (record (blank field) { values = s ∷ [] }))

  unfoldable pub parse_operator : Text → Parser D (Condition (Operands D))
  unfolding advance read_value compare_value
  parse_operator field =
      when (at_kind Tok.op) (do op ← cur_text; advance; v ← read_value; compare_value field op v)
        (throw expected_operator)

  -- What follows the name of a field.
  unfoldable pub after_field : Text → Parser D (Condition (Operands D))
  unfolding is_keyword advance parse_is parse_in parse_between parse_like parse_operator
  after_field field =
      when (is_keyword word_is) (do advance; parse_is field)
        (when (is_keyword word_not)
          (do
            advance
            when (is_keyword word_in) (do advance; parse_in field OpType.not_in)
                (throw expected_in))
          (when (is_keyword word_in) (do advance; parse_in field OpType.in_list)
            (when (is_keyword word_between) (do advance; parse_between field)
              (when (λ st. is_keyword word_like st || is_keyword word_ilike st)
                (do advance; parse_like field) (parse_operator field)))))

  unfoldable pub parse_comparison : Parser D (Condition (Operands D))
  unfolding advance after_field
  parse_comparison =
      when (at_kind Tok.ident) (do field ← cur_text; advance; after_field field)
        (throw expected_field)

  unfoldable pub parse_primary :
      Parser D (Condition (Operands D)) → Parser D (Condition (Operands D))
  unfolding advance expect parse_comparison
  parse_primary parse_or =
      when (at_kind Tok.lparen) (do advance; c ← parse_or; expect Tok.rparen expected_close; pure c)
        parse_comparison

  -- The loop over what follows the keyword: the other operands.
  unfoldable pub read_more :
      Text → Parser D (Condition (Operands D)) → ℕ → Parser D (Conditions (Operands D))
  unfolding is_keyword advance
  read_more word operand zero = when (is_keyword word) (throw stuck) (pure nil)
  read_more word operand (suc fuel) =
      when (is_keyword word)
        (do advance; c ← operand; cs ← read_more word operand fuel; pure (cons c cs)) (pure nil)

  abbrev pub join :
      (Conditions (Operands D) → Condition (Operands D))
      → Condition (Operands D)
      → Conditions (Operands D)
      → Condition (Operands D)
  join build left nil = left
  join build left (cons c cs) = build (cons left (cons c cs))

  unfoldable pub parse_chain :
      Text
      → (Conditions (Operands D) → Condition (Operands D))
      → Parser D (Condition (Operands D))
      → Parser D (Condition (Operands D))
  unfolding read_more
  parse_chain word build operand = do
    left ← operand
    kids ← fuel_of (read_more word operand)
    pure (join build left kids)

  unfoldable pub parse_and : Parser D (Condition (Operands D)) → Parser D (Condition (Operands D))
  unfolding parse_chain
  parse_and parse_not = parse_chain word_and conjunction parse_not

  -- Below the guard of `parse_or`.
  unfoldable pub or_body : Parser D (Condition (Operands D)) → Parser D (Condition (Operands D))
  unfolding parse_chain parse_and
  or_body parse_not = parse_chain word_or disjunction (parse_and parse_not)

  -- Below the guard of `parse_not`.
  unfoldable pub not_body :
      Parser D (Condition (Operands D))
      → Parser D (Condition (Operands D))
      → Parser D (Condition (Operands D))
  unfolding is_keyword advance parse_primary
  not_body parse_not parse_or =
      when (is_keyword word_not) (do advance; c ← parse_not; pure (negation c))
        (parse_primary parse_or)

  -- `parse_not` and `parse_or`, with the depth that is left.
  unfoldable pub descend : ℕ → Parser D (Condition (Operands D)) × Parser D (Condition (Operands D))
  unfolding or_body not_body
  descend zero = (throw too_deep, throw too_deep)
  descend (suc left) = (not_body (descend left).0 (descend left).1, or_body (descend left).0)

  abbrev pub start_state : Text → State D
  start_state text = record { cur = plain doubles Tok.end []; rest = text }

  -- The parser of a whole text, over that of an expression.
  unfoldable pub parse_from :
      Parser D (Condition (Operands D)) → Text → Result (Condition (Operands D))
  unfolding advance
  parse_from parse_or text =
      bind ((advance >> parse_or) (start_state text))
        λ (c, st). if at_kind Tok.end st then ok c else err trailing_tokens

  unfoldable pub parse : Text → Result (Condition (Operands D))
  unfolding parse_from descend
  parse text = parse_from (descend max_depth).1 text
