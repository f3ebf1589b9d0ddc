-- ===== src/Sql/Total.antt =====
-- The parser ends: no loop runs out of fuel.
use blazerules.Prelude.{
  ℕ, zero, suc, ◌<◌, ◌≡◌, ◌⊎◌, refl, inl, inr, true, false, Text, arith, if_both,
}
use blazerules.Spec.{Operands}
use blazerules.Compile.{Condition, conjunction, disjunction, Conditions}
use blazerules.Sql.{Doubles, SqlError, expected_close, Result, ok, err, Tok}
use blazerules.Sql.Parser.{
  State, Parser, is_keyword, at_kind, advance, parse_primary, read_more, parse_chain, parse_and,
  or_body, not_body, descend, max_depth, start_state, parse_from, parse, word_not, word_or,
  word_and,
}
use blazerules.Sql.Measure.{is_stuck, Ensures, Ensures-bind}
use blazerules.Sql.Comparisons.{
  elim_both, kind-end, size, Relates, NoMore, Less, Reads, after, advance-Less, advance-NoMore,
  expect-NoMore, with_kind, without_kind, parse_comparison-Reads,
}

module _ {D : Type 0} (doubles : Doubles D) where
  abbrev Operand : Type 0
  Operand = Parser D (Condition (Operands D))

  parse_primary-Reads :
      (parse_or : Operand) → Relates Reads parse_or → Relates Reads (parse_primary doubles parse_or)
  unfolding parse_primary
  parse_primary-Reads parse_or h st =
      elim_both (Ensures (λ r. Reads st r.1)) (at_kind Tok.lparen st) _ _
        (λ e. with_kind doubles st _ (kind-end st.cur.kind Tok.lparen e refl) (
          after st _ _ (advance-NoMore doubles st) λ (_, st₁).
            after st₁ _ _ (without_kind doubles st₁ _ (h st₁)) λ (c, st₂).
              after st₂ _ _ (expect-NoMore doubles Tok.rparen expected_close refl st₂)
                λ (_, st₃). omega arith))
        (λ e. parse_comparison-Reads doubles st)

  keyword-end :
      (word : Text) (st : State D) → is_keyword word st ≡ true → at_kind Tok.end st ≡ false
  unfolding is_keyword
  keyword-end word st e = kind-end st.cur.kind Tok.ident (ground (arith, e)) refl

  read_more-NoMore :
      (word : Text) (operand : Operand)
      → Relates Reads operand
      → (fuel : ℕ) (st : State D) → size st < fuel
      → Ensures (λ r. NoMore st r.1) (read_more doubles word operand fuel st)
  unfolding read_more
  read_more-NoMore word operand h zero st l = absurd (omega arith)
  read_more-NoMore word operand h (suc fuel) st l =
      elim_both (Ensures (λ r. NoMore st r.1)) (is_keyword word st) _ _
        (λ e.
          Ensures-bind (λ r. Less st r.1) (λ r. NoMore st r.1) (advance doubles st) _
            (advance-Less doubles st)
            λ (_, st₁) l₁.
              Ensures-bind (λ r. Reads st₁ r.1) (λ r. NoMore st r.1) (operand st₁) _ (h st₁)
                λ (c, st₂) l₂.
                  let less : size st₁ < size st = l₁.1 l₂.1 in
                  Ensures-bind (λ r. NoMore st₂ r.1) (λ r. NoMore st r.1)
                    (read_more doubles word operand fuel st₂) _
                    (read_more-NoMore word operand h fuel st₂ (omega (arith, l₂.0)))
                    λ (cs, st₃) l₃. omega (arith, l₂.0))
        (λ e. omega arith)

  parse_chain-Reads :
      (word : Text) (build : Conditions (Operands D) → Condition (Operands D)) (operand : Operand)
      → Relates Reads operand
      → Relates Reads (parse_chain doubles word build operand)
  unfolding parse_chain
  parse_chain-Reads word build operand h st =
      Ensures-bind (λ r. Reads st r.1) (λ r. Reads st r.1) (operand st) _ (h st)
        λ (left, st₁) l.
          Ensures-bind (λ r. NoMore st₁ r.1) (λ r. Reads st r.1)
            (read_more doubles word operand (suc (size st₁)) st₁) _
            (read_more-NoMore word operand h (suc (size st₁)) st₁ (omega arith))
            λ (kids, st₂) l₂. (omega (arith, l.0), l.1)

  not_body-Reads :
      (parse_not parse_or : Operand)
      → Relates Reads parse_not
      → Relates Reads parse_or
      → Relates Reads (not_body doubles parse_not parse_or)
  unfolding not_body
  not_body-Reads parse_not parse_or h k st =
      elim_both (Ensures (λ r. Reads st r.1)) (is_keyword word_not st) _ _
        (λ e. with_kind doubles st _ (keyword-end word_not st e) (
          after st _ _ (advance-NoMore doubles st)
            λ (_, st₁). after st₁ _ _ (without_kind doubles st₁ _ (h st₁)) λ (c, st₂). omega arith))
        (λ e. parse_primary-Reads parse_or k st)

  descend-Reads :
      (left : ℕ) → Relates Reads (descend doubles left).0 × Relates Reads (descend doubles left).1
  unfolding descend or_body parse_and
  descend-Reads zero = (λ st. refl, λ st. refl)
  descend-Reads (suc left) =
      let (h, k) = descend-Reads left in
      (
        not_body-Reads (descend doubles left).0 (descend doubles left).1 h k,
        parse_chain-Reads word_or disjunction
            (parse_chain doubles word_and conjunction (descend doubles left).0)
            (parse_chain-Reads word_and conjunction (descend doubles left).0 h),
      )

  abbrev Ends : Result (Condition (Operands D)) → Type 0
  Ends r =
      ((c : Condition (Operands D)) × (r ≡ ok c))
      ⊎ ((e : SqlError) × (r ≡ err e) × (is_stuck e ≡ false))

  Ensures-Ends : (r : Result (Condition (Operands D))) → Ensures (λ c. Unit {0}) r → Ends r
  Ensures-Ends (ok c) h = inl (c, refl)
  Ensures-Ends (err e) h = inr (e, refl, h)

  parse_from-Ends :
      (parse_or : Operand)
      → Relates Reads parse_or
      → (text : Text) → Ends (parse_from doubles parse_or text)
  unfolding parse_from
  parse_from-Ends parse_or h text = Ensures-Ends _ (
      Ensures-bind (λ r. NoMore (start_state doubles text) r.1) (λ c. Unit {0}) _ _
        (after (start_state doubles text) _ _ (advance-NoMore doubles (start_state doubles text))
          λ (_, st₁). without_kind doubles st₁ _ (h st₁))
        λ (c, st) l.
          if_both (Ensures (λ c. Unit {0})) (at_kind Tok.end st) _ _ (λ e. tt) (λ e. refl))

  -- Every text is parsed to a condition or rejected with an error of the program: no loop of the parser
  -- runs out of its fuel, which is the length of the text that is left and one more.
  pub parse-total :
      (text : Text)
      → ((c : Condition (Operands D)) × (parse doubles text ≡ ok c))
        ⊎ ((e : SqlError) × (parse doubles text ≡ err e) × (is_stuck e ≡ false))
  unfolding parse
  parse-total text = parse_from-Ends (descend doubles max_depth).1 (descend-Reads max_depth).1 text
