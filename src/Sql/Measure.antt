-- ===== src/Sql/Measure.antt =====
-- The lexer consumes: what is left of the text after a token.
use blazerules.Prelude.{
  ℕ, suc, ◌<◌, ◌≤◌, ◌≡◌, refl, sym, ap, inl, inr, Bool, true, false, ◌&&◌, ◌||◌, [], ◌∷◌, Option,
  none, some, length, ◌==◌, if◌then◌else◌, Text, arith, some-inj, Bool-cases, if_both, option_both,
}
use blazerules.Sql.{Doubles, SqlError, stuck, Result, ok, err, bind, Tok, Token, is_space, is_alpha}
use blazerules.Sql.Lexer.{
  skip_ws, prepend, take_until, scan_number, scan_ident, string_literal, operator_token,
  number_token, ident_token, token_at, next_from, next, in_number, is_sign, in_ident, doubled,
  is_exponent, is_quote, is_operator, starts_number,
}
use blazerules.Sql.Parser.{is_kind}

abbrev pub is_stuck : SqlError → Bool
is_stuck stuck = true
is_stuck _ = false

-- The result is not that of a loop out of fuel, and `P` holds of its value if it has one.
abbrev pub Ensures : {A : Type 0} → (A → Type 0) → Result A → Type 0
Ensures P (ok a) = P a
Ensures P (err e) = is_stuck e ≡ false

pub Ensures-bind :
    {A B : Type 0} (P : A → Type 0) (Q : B → Type 0) (r : Result A) (f : A → Result B)
    → Ensures P r
    → ((a : A) → P a → Ensures Q (f a))
    → Ensures Q (bind r f)
Ensures-bind P Q (ok a) f h k = k a h
Ensures-bind P Q (err e) f h k = h

skip_ws-length : (s : Text) → length (skip_ws s) ≤ length s
unfolding skip_ws
skip_ws-length [] = omega arith
skip_ws-length (c ∷ s) =
    let rest = skip_ws-length s in
    if_both (λ (r : Text). length r ≤ suc (length s)) (is_space c) _ _ (λ e. omega arith)
      (λ e. omega arith)

take_until_step :
    (quote c : ℕ) (s out rest : Text) (later : Option (Text × Text))
    → ((out rest : Text) → later ≡ some (out, rest) → length rest < length s)
    → if◌then◌else◌ {A = Option (Text × Text)} (c == quote) (some ([], s)) (prepend c later)
      ≡ some (out, rest)
    → length rest < suc (length s)
take_until_step quote c s out rest later k h = elim (Bool-cases (c == quote)) [
  | inl t ↦
      let same : s ≡ rest =
        ap (λ (p : Text × Text). p.1) (some-inj ([], s) (out, rest) (rw t at h)) in
      rw (sym same) (omega arith)
  | inr f ↦ skipped later k (rw f at h)
]
  where
    skipped :
        (o : Option (Text × Text))
        → ((out rest : Text) → o ≡ some (out, rest) → length rest < length s)
        → prepend c o ≡ some (out, rest)
        → length rest < suc (length s)
    skipped none k e = absurd (ground arith)
    skipped (some (x, r)) k e =
        let same : r ≡ rest = ap (λ (p : Text × Text). p.1) (some-inj (c ∷ x, r) (out, rest) e) in
        let l = k x r refl in rw (sym same) (omega arith)

take_until-length :
    (quote : ℕ) (s out rest : Text) → take_until quote s ≡ some (out, rest) → length rest < length s
unfolding take_until
take_until-length quote [] out rest h = absurd (ground arith)
take_until-length quote (c ∷ s) out rest h =
    take_until_step quote c s out rest (take_until quote s) (take_until-length quote s) h

scan_number-length : (previous : ℕ) (s : Text) → length (scan_number previous s).1 ≤ length s
unfolding scan_number
scan_number-length previous [] = omega arith
scan_number-length previous (c ∷ s) =
    let rest = scan_number-length c s in
    if_both (λ (r : Text × Text). length r.1 ≤ suc (length s))
      (in_number c || (is_sign c && is_exponent previous)) _ _ (λ e. omega arith) (λ e. omega arith)

scan_ident-length : (s : Text) → length (scan_ident s).1 ≤ length s
unfolding scan_ident
scan_ident-length [] = omega arith
scan_ident-length (c ∷ s) =
    let rest = scan_ident-length s in
    if_both (λ (r : Text × Text). length r.1 ≤ suc (length s)) (in_ident c) _ _ (λ e. omega arith)
      (λ e. omega arith)

module _ {D : Type 0} (doubles : Doubles D) where
  abbrev Shorter : Text → Token D × Text → Type 0
  Shorter s (t, rest) = length rest ≤ length s

  string_literal-Shorter :
      (quote : ℕ) (s : Text) → Ensures (Shorter s) (string_literal doubles quote s)
  unfolding string_literal
  string_literal-Shorter quote s =
      option_both (Ensures (Shorter s)) (take_until quote s) _ _ (λ e. refl)
        (λ (out, rest) e. let l = take_until-length quote s out rest e in omega arith)

  operator_token-Shorter : (c : ℕ) (s : Text) → Ensures (Shorter s) (operator_token doubles c s)
  unfolding operator_token
  operator_token-Shorter c [] = omega arith
  operator_token-Shorter c (d ∷ s) =
      if_both (Ensures (Shorter (d ∷ s))) (doubled c d) _ _ (λ e. omega arith) (λ e. omega arith)

  number_token-Shorter : (c : ℕ) (s : Text) → Ensures (Shorter s) (number_token doubles c s)
  unfolding number_token
  number_token-Shorter c s =
      option_both (Ensures (Shorter s)) (doubles.stod (c ∷ (scan_number c s).0)) _ _ (λ e. refl)
        (λ v e. scan_number-length c s)

  token_at-Shorter : (c : ℕ) (s : Text) → Ensures (Shorter s) (token_at doubles c s)
  unfolding token_at ident_token
  token_at-Shorter c s =
      let P = Ensures (Shorter s) in
      if_both P (c == b'(') _ _ (λ e. omega arith)
        (λ e.
          if_both P (c == b')') _ _ (λ e. omega arith)
            (λ e.
              if_both P (c == b',') _ _ (λ e. omega arith)
                (λ e.
                  if_both P (is_quote c) _ _ (λ e. string_literal-Shorter c s)
                    (λ e.
                      if_both P (is_operator c) _ _ (λ e. operator_token-Shorter c s)
                        (λ e.
                          if_both P (starts_number c s) _ _ (λ e. number_token-Shorter c s)
                            (λ e.
                              if_both P (is_alpha c || c == b'_') _ _ (λ e. scan_ident-length s)
                                (λ e. refl)))))))

  -- After a token there is no more than before, and less unless the text is at its end.
  abbrev pub Consumed : Text → Token D × Text → Type 0
  Consumed s (t, rest) =
      (length rest ≤ length s) × (is_kind t.kind Tok.end ≡ false → length rest < length s)

  Shorter-Consumed :
      (c : ℕ) (s : Text) (r : Result (Token D × Text))
      → Ensures (Shorter s) r
      → Ensures (Consumed (c ∷ s)) r
  Shorter-Consumed c s (ok (t, rest)) h = (omega arith, λ e. omega arith)
  Shorter-Consumed c s (err e) h = h

  next_from-Consumed : (s : Text) → Ensures (Consumed s) (next_from doubles s)
  unfolding next_from
  next_from-Consumed [] = (omega arith, λ e. absurd (ground arith))
  next_from-Consumed (c ∷ s) = Shorter-Consumed c s (token_at doubles c s) (token_at-Shorter c s)

  weaken :
      (s s' : Text) (r : Result (Token D × Text))
      → length s ≤ length s'
      → Ensures (Consumed s) r
      → Ensures (Consumed s') r
  weaken s s' (ok (t, rest)) l h = (omega (arith, h.0), λ e. omega (arith, h.1 e))
  weaken s s' (err e) l h = h

  pub next-Consumed : (s : Text) → Ensures (Consumed s) (next doubles s)
  unfolding next
  next-Consumed s = weaken (skip_ws s) s _ (skip_ws-length s) (next_from-Consumed (skip_ws s))
