-- ===== src/Sql/Comparisons.antt =====
-- The parsers of comparisons never ask for more text than there is, and do not run out of fuel.
use blazerules.Prelude.{
  ℕ, zero, suc, ◌<◌, ◌≤◌, ◌≡◌, refl, Bool, true, false, ◌||◌, [], ◌∷◌, length, Text, text_eq, arith,
  if_both,
}
use blazerules.Compile.{OpType}
use blazerules.Sql.{
  Doubles, SqlError, expected_open_list, expected_close_list, Result, ok, err, bind, Tok,
}
use blazerules.Sql.Lexer.{next}
use blazerules.Sql.Parser.{
  State, Parser, is_kind, is_keyword, at_kind, pure, cur_text, cur_number, ◌>>=◌, Value,
  number_value, text_value, numeric_op, text_op, advance, expect, read_value, read_values, parse_in,
  read_null_op, parse_is, read_number, parse_between, parse_like, compare_value, parse_operator,
  after_field, parse_comparison, as_number, op_text, is_equal_op, is_not_equal_op, word_is,
  word_not, word_in, word_between, word_like, word_ilike,
}
use blazerules.Sql.Measure.{is_stuck, Ensures, Ensures-bind, Consumed, next-Consumed}

pub elim_both :
    {A : Type 0} (P : A → Type 0) (b : Bool) (x y : A)
    → (b ≡ true → P x)
    → (b ≡ false → P y)
    → P (elim b [ true ↦ x | false ↦ y ])
elim_both P true x y h k = h refl
elim_both P false x y h k = k refl

pub kind-end :
    (k l : Tok) → is_kind k l ≡ true → is_kind l Tok.end ≡ false → is_kind k Tok.end ≡ false
kind-end k l h e = ground (arith, h, e)

module _ {D : Type 0} where
  abbrev pub size : State D → ℕ
  size st = length st.rest

  -- A parser that relates the state before to the state after, if it succeeds, and is not stuck.
  abbrev pub Relates : {A : Type 0} → (State D → State D → Type 0) → Parser D A → Type 0
  Relates R p = (st : State D) → Ensures (λ r. R st r.1) (p st)

  abbrev pub NoMore : State D → State D → Type 0
  NoMore s t = size t ≤ size s

  -- Less is left, unless the text is at its end.
  abbrev pub Less : State D → State D → Type 0
  Less s t = (size t ≤ size s) × (at_kind Tok.end t ≡ false → size t < size s)

  -- Nothing can be read at the end.
  abbrev pub Reads : State D → State D → Type 0
  Reads s t = (size t ≤ size s) × (at_kind Tok.end s ≡ false)

  pub weaken-Less : {A : Type 0} (p : Parser D A) → Relates Less p → Relates NoMore p
  weaken-Less {A} p h st = go (p st) (h st)
    where
      go :
          (r : Result (A × State D)) → Ensures (λ x. Less st x.1) r → Ensures (λ x. NoMore st x.1) r
      go (ok a) k = k.0
      go (err e) k = k

  pub after :
      {A B : Type 0} (st : State D) (r : Result (A × State D))
      (f : A × State D → Result (B × State D))
      → Ensures (λ x. NoMore st x.1) r
      → ((x : A × State D) → Ensures (λ y. NoMore x.1 y.1) (f x))
      → Ensures (λ y. NoMore st y.1) (bind r f)
  after {A} {B} st (err e) f h k = h
  after {A} {B} st (ok x) f h k = go (f x) (k x)
    where
      go :
          (r : Result (B × State D))
          → Ensures (λ y. NoMore x.1 y.1) r
          → Ensures (λ y. NoMore st y.1) r
      go (ok y) l = omega arith
      go (err e) l = l

  pub fork :
      {A : Type 0} (st : State D) (b : Bool) (x y : Result (A × State D))
      → Ensures (λ r. NoMore st r.1) x
      → Ensures (λ r. NoMore st r.1) y
      → Ensures (λ r. NoMore st r.1) (elim b [ true ↦ x | false ↦ y ])
  fork st b x y h k = elim_both (Ensures (λ r. NoMore st r.1)) b x y (λ e. h) (λ e. k)

module _ {D : Type 0} (doubles : Doubles D) where
  pub advance-Less : Relates Less (advance doubles)
  unfolding advance
  advance-Less st =
      Ensures-bind (Consumed doubles st.rest) (λ r. Less st r.1) (next doubles st.rest) _
        (next-Consumed doubles st.rest) (λ r h. h)

  pub advance-NoMore : Relates NoMore (advance doubles)
  advance-NoMore = weaken-Less (advance doubles) advance-Less

  pub expect-NoMore :
      (kind : Tok) (e : SqlError) → is_stuck e ≡ false → Relates NoMore (expect doubles kind e)
  unfolding expect
  expect-NoMore kind e h st = fork st (at_kind kind st) _ _ (advance-NoMore st) h

  -- A value, after which the next token is read.
  value-Less :
      {A B : Type 0} (q : Parser D A) (f : A → B) (st : State D)
      → ((st' : State D) → Ensures (λ r. r.1 ≡ st') (q st'))
      → Ensures (λ r. Less st r.1) ((q >>= λ a. advance doubles >>= λ _. pure (f a)) st)
  value-Less q f st h =
      Ensures-bind (λ r. r.1 ≡ st) (λ r. Less st r.1) (q st) _ (h st)
        λ (a, st') e.
          Ensures-bind (λ r. Less st r.1) (λ r. Less st r.1) (advance doubles st') _
            (rw e (advance-Less st)) (λ r l. l)

  read_value-Less : Relates Less (read_value doubles)
  unfolding read_value
  read_value-Less st =
      elim_both (Ensures (λ r. Less st r.1)) (at_kind Tok.number st) _ _
        (λ e. value-Less cur_number number_value st (λ s. refl))
        (λ e.
          elim_both (Ensures (λ r. Less st r.1)) (at_kind Tok.string st || at_kind Tok.ident st) _ _
            (λ e. value-Less cur_text text_value st (λ s. refl)) (λ e. refl))

  read_value-NoMore : Relates NoMore (read_value doubles)
  read_value-NoMore = weaken-Less (read_value doubles) read_value-Less

  read_values-NoMore :
      (fuel : ℕ) (st : State D)
      → size st < fuel
      → Ensures (λ r. NoMore st r.1) (read_values doubles fuel st)
  unfolding read_values
  read_values-NoMore zero st h = absurd (omega arith)
  read_values-NoMore (suc fuel) st h =
      elim_both (Ensures (λ r. NoMore st r.1)) (at_kind Tok.rparen st) _ _ (λ e. omega arith)
        λ e.
          Ensures-bind (λ r. Less st r.1) (λ r. NoMore st r.1) (read_value doubles st) _
            (read_value-Less st)
            λ (v, st₁) l.
              elim_both (Ensures (λ r. NoMore st r.1)) (at_kind Tok.comma st₁) _ _
                (λ is_comma.
                  let less : size st₁ < size st =
                    l.1 (kind-end st₁.cur.kind Tok.comma is_comma refl) in
                  Ensures-bind (λ r. NoMore st₁ r.1) (λ r. NoMore st r.1) (advance doubles st₁) _
                    (advance-NoMore st₁)
                    λ (_, st₂) l₂.
                      Ensures-bind (λ r. NoMore st₂ r.1) (λ r. NoMore st r.1)
                        (read_values doubles fuel st₂) _ (read_values-NoMore fuel st₂ (omega arith))
                        λ (vs, st₃) l₃. omega arith)
                (λ e. l.0)

  parse_in-NoMore : (field : Text) (op : OpType) → Relates NoMore (parse_in doubles field op)
  unfolding parse_in
  parse_in-NoMore field op st =
      after st _ _ (expect-NoMore Tok.lparen expected_open_list refl st) λ (_, st₁).
        after st₁ _ _ (read_values-NoMore (suc (size st₁)) st₁ (omega arith)) λ (vs, st₂).
          after st₂ _ _ (expect-NoMore Tok.rparen expected_close_list refl st₂)
            λ (_, st₃). omega arith

  read_null_op-NoMore : Relates NoMore (read_null_op doubles)
  unfolding read_null_op
  read_null_op-NoMore st =
      fork st (is_keyword _ st) _ _ (after st _ _ (advance-NoMore st) λ (_, st₁). omega arith)
        (omega arith)

  parse_is-NoMore : (field : Text) → Relates NoMore (parse_is doubles field)
  unfolding parse_is
  parse_is-NoMore field st = after st _ _ (read_null_op-NoMore st) λ (op, st₁).
      after st₁ _ _ (fork st₁ (is_keyword _ st₁) _ _ (advance-NoMore st₁) refl)
        λ (_, st₂). omega arith

  read_number-NoMore : Relates NoMore (read_number doubles)
  unfolding read_number
  read_number-NoMore st = after st _ _ (read_value-NoMore st) λ (v, st₁). value st₁ v
    where
      value :
          (st₁ : State D) (v : Value D)
          → Ensures (λ (y : D × State D). NoMore st₁ y.1) (as_number doubles v st₁)
      value st₁ (number_value n) = omega arith
      value st₁ (text_value t) = refl

  parse_between-NoMore : (field : Text) → Relates NoMore (parse_between doubles field)
  unfolding parse_between
  parse_between-NoMore field st = after st _ _ (read_number-NoMore st) λ (lo, st₁).
      after st₁ _ _ (fork st₁ (is_keyword _ st₁) _ _ (advance-NoMore st₁) refl)
        λ (_, st₂). after st₂ _ _ (read_number-NoMore st₂) λ (hi, st₃). omega arith

  parse_like-NoMore : (field : Text) → Relates NoMore (parse_like doubles field)
  unfolding parse_like
  parse_like-NoMore field st =
      fork st (at_kind Tok.string st) _ _ (after st _ _ (advance-NoMore st) λ (_, st₁). omega arith)
        refl

  lift-NoMore :
      {A B : Type 0} (st : State D) (r : Result A) (f : A → B)
      → ((e : SqlError) → r ≡ err e → is_stuck e ≡ false)
      → Ensures
          (λ (y : B × State D). NoMore st y.1)
          (bind (bind r λ a. ok (a, st)) λ (a, st'). ok (f a, st'))
  lift-NoMore st (ok a) f h = omega arith
  lift-NoMore st (err e) f h = h e refl

  numeric_op-not_stuck : (op : Text) → Ensures (λ t. Unit {0}) (numeric_op op)
  unfolding numeric_op
  numeric_op-not_stuck op =
      let P : Result OpType → Type 0 = Ensures (λ t. Unit {0}) in
      if_both P (text_eq op (b'>' ∷ [])) _ _ (λ e. tt)
        (λ e.
          if_both P (text_eq op (b'<' ∷ [])) _ _ (λ e. tt)
            (λ e.
              if_both P (text_eq op (op_text b'>' b'=')) _ _ (λ e. tt)
                (λ e.
                  if_both P (text_eq op (op_text b'<' b'=')) _ _ (λ e. tt)
                    (λ e.
                      if_both P (is_equal_op op) _ _ (λ e. tt)
                        (λ e. if_both P (is_not_equal_op op) _ _ (λ e. tt) (λ e. refl))))))

  text_op-not_stuck : (op : Text) → Ensures (λ t. Unit {0}) (text_op op)
  unfolding text_op
  text_op-not_stuck op =
      let P : Result OpType → Type 0 = Ensures (λ t. Unit {0}) in
      if_both P (is_equal_op op) _ _ (λ e. tt)
        (λ e. if_both P (is_not_equal_op op) _ _ (λ e. tt) (λ e. refl))

  lifted :
      {A B : Type 0} (st : State D) (r : Result A) (f : A → B)
      → Ensures (λ t. Unit {0}) r
      → Ensures
          (λ (y : B × State D). NoMore st y.1)
          (bind (bind r λ a. ok (a, st)) λ (a, st'). ok (f a, st'))
  lifted st (ok a) f h = omega arith
  lifted st (err e) f h = h

  compare_value-NoMore :
      (field op : Text) (v : Value D) → Relates NoMore (compare_value doubles field op v)
  unfolding compare_value
  compare_value-NoMore field op (number_value n) st =
      lifted st (numeric_op op) _ (numeric_op-not_stuck op)
  compare_value-NoMore field op (text_value s) st = lifted st (text_op op) _ (text_op-not_stuck op)

  parse_operator-NoMore : (field : Text) → Relates NoMore (parse_operator doubles field)
  unfolding parse_operator
  parse_operator-NoMore field st =
      fork st (at_kind Tok.op st) _ _
        (after st _ _ (advance-NoMore st) λ (_, st₁).
          after st₁ _ _ (read_value-NoMore st₁)
            λ (v, st₂). compare_value-NoMore field st.cur.text v st₂)
        refl

  after_field-NoMore : (field : Text) → Relates NoMore (after_field doubles field)
  unfolding after_field
  after_field-NoMore field st =
      fork st (is_keyword word_is st) _ _
        (after st _ _ (advance-NoMore st) λ (_, st₁). parse_is-NoMore field st₁)
        (fork st (is_keyword word_not st) _ _
          (after st _ _ (advance-NoMore st) λ (_, st₁).
            fork st₁ (is_keyword word_in st₁) _ _
              (after st₁ _ _ (advance-NoMore st₁)
                λ (_, st₂). parse_in-NoMore field OpType.not_in st₂)
              refl)
          (fork st (is_keyword word_in st) _ _
            (after st _ _ (advance-NoMore st) λ (_, st₁). parse_in-NoMore field OpType.in_list st₁)
            (fork st (is_keyword word_between st) _ _
              (after st _ _ (advance-NoMore st) λ (_, st₁). parse_between-NoMore field st₁)
              (fork st (is_keyword word_like st || is_keyword word_ilike st) _ _
                (after st _ _ (advance-NoMore st) λ (_, st₁). parse_like-NoMore field st₁)
                (parse_operator-NoMore field st)))))

  -- A reader of an operand reads nothing at the end of the text.
  pub with_kind :
      {A : Type 0} (st : State D) (r : Result (A × State D))
      → at_kind Tok.end st ≡ false
      → Ensures (λ x. NoMore st x.1) r
      → Ensures (λ x. Reads st x.1) r
  with_kind st (ok x) e h = (h, e)
  with_kind st (err x) e h = h

  pub without_kind :
      {A : Type 0} (st : State D) (r : Result (A × State D))
      → Ensures (λ x. Reads st x.1) r
      → Ensures (λ x. NoMore st x.1) r
  without_kind st (ok x) h = h.0
  without_kind st (err x) h = h

  pub parse_comparison-Reads : Relates Reads (parse_comparison doubles)
  unfolding parse_comparison
  parse_comparison-Reads st =
      elim_both (Ensures (λ r. Reads st r.1)) (at_kind Tok.ident st) _ _
        (λ e.
          with_kind st _ (kind-end st.cur.kind Tok.ident e refl)
            (after st _ _ (advance-NoMore st) λ (_, st₁). after_field-NoMore st.cur.text st₁))
        (λ e. refl)
