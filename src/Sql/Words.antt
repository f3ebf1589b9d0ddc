-- ===== src/Sql/Words.antt =====
-- Words that the lexer reads back, and texts of words with a space before each.
use mathlib.Core.List.{append_assoc}
use blazerules.Prelude.{
  ℕ, ◌≡◌, refl, ap, ◌∙◌, Bool, true, false, not, ◌&&◌, ◌||◌, List, [], ◌∷◌, ◌++◌, some, ◌==◌, Text,
  arith,
}
use blazerules.Sql.{
  Doubles, SqlError, Result, ok, err, bind, Tok, Token, is_space, is_digit, is_alpha,
}
use blazerules.Sql.Lexer.{
  skip_ws, take_until, in_number, scan_number, in_ident, scan_ident, plain, string_literal,
  number_token, ident_token, token_at, next_from, next,
}
use blazerules.Sql.Parser.{State, advance, start_state}

-- What a parser does after one that succeeds, and after a test.
pub bind_ok :
    {A B : Type 0} {r : Result A} {x : A} {y : Result B} (f : A → Result B)
    → r ≡ ok x
    → f x ≡ y
    → bind r f ≡ y
bind_ok f h k = ap (λ r. bind r f) h ∙ k

pub bind_err :
    {A B : Type 0} {r : Result A} {e : SqlError} (f : A → Result B) → r ≡ err e → bind r f ≡ err e
bind_err f h = ap (λ r. bind r f) h

pub take_no :
    {A : Type 0} {r : Result A} (b : Bool) (x y : Result A)
    → b ≡ false
    → y ≡ r
    → elim b [ true ↦ x | false ↦ y ] ≡ r
take_no true x y h k = absurd (ground arith)
take_no false x y h k = k

pub take_yes :
    {A : Type 0} {r : Result A} (b : Bool) (x y : Result A)
    → b ≡ true
    → x ≡ r
    → elim b [ true ↦ x | false ↦ y ] ≡ r
take_yes true x y h k = k
take_yes false x y h k = absurd (ground arith)

-- What may follow a word.
abbrev pub Boundary : Text → Type 0
Boundary [] = Unit {0}
Boundary (c ∷ s) = c ≡ b' '

abbrev pub all_chars : (ℕ → Bool) → Text → Bool
all_chars p [] = true
all_chars p (c ∷ s) = p c && all_chars p s

scan_ident-Boundary : (tail : Text) → Boundary tail → scan_ident tail ≡ ([], tail)
unfolding scan_ident
scan_ident-Boundary [] h = refl
scan_ident-Boundary (c ∷ s) h = rw h refl

scan_ident-all :
    (s tail : Text)
    → all_chars in_ident s ≡ true
    → Boundary tail
    → scan_ident (s ++ tail) ≡ (s, tail)
unfolding scan_ident
scan_ident-all [] tail h b = scan_ident-Boundary tail b
scan_ident-all (c ∷ s) tail h b =
    let first : in_ident c ≡ true = ground (arith, h) in
    let rest : all_chars in_ident s ≡ true = ground (arith, h) in
    rw (first, scan_ident-all s tail rest b) refl

scan_number-Boundary :
    (previous : ℕ) (tail : Text) → Boundary tail → scan_number previous tail ≡ ([], tail)
unfolding scan_number
scan_number-Boundary previous [] h = refl
scan_number-Boundary previous (c ∷ s) h = rw h refl

scan_number-all :
    (previous : ℕ) (s tail : Text)
    → all_chars in_number s ≡ true
    → Boundary tail
    → scan_number previous (s ++ tail) ≡ (s, tail)
unfolding scan_number
scan_number-all previous [] tail h b = scan_number-Boundary previous tail b
scan_number-all previous (c ∷ s) tail h b =
    let first : in_number c ≡ true = ground (arith, h) in
    let rest : all_chars in_number s ≡ true = ground (arith, h) in
    rw (first, scan_number-all c s tail rest b) refl

take_until-all :
    (quote : ℕ) (s tail : Text)
    → all_chars (λ c. not (c == quote)) s ≡ true
    → take_until quote (s ++ quote ∷ tail) ≡ some (s, tail)
unfolding take_until
take_until-all quote [] tail h = let e : (quote == quote) ≡ true = ground arith in rw e refl
take_until-all quote (c ∷ s) tail h =
    let first : (c == quote) ≡ false = ground (arith, h) in
    let rest : all_chars (λ c. not (c == quote)) s ≡ true = ground (arith, h) in
    rw (first, take_until-all quote s tail rest) refl

-- None of the characters that the lexer tests for before a letter or a digit.
abbrev NotSpecial : ℕ → Type 0
NotSpecial c =
    (is_space c ≡ false)
    × ((c == b'(') ≡ false)
    × ((c == b')') ≡ false)
    × ((c == b',') ≡ false)
    × ((c == b'\'') ≡ false)
    × ((c == b'"') ≡ false)
    × ((c == b'>') ≡ false)
    × ((c == b'<') ≡ false)
    × ((c == b'=') ≡ false)
    × ((c == b'!') ≡ false)

abbrev NotNumber : ℕ → Type 0
NotNumber c =
    (is_digit c ≡ false) × ((c == b'-') ≡ false) × ((c == b'+') ≡ false) × ((c == b'.') ≡ false)

alpha-NotSpecial : (c : ℕ) → (is_alpha c || c == b'_') ≡ true → NotSpecial c × NotNumber c
unfolding is_alpha is_space is_digit
alpha-NotSpecial c h = (
  (
    ground (arith, h),
    ground (arith, h),
    ground (arith, h),
    ground (arith, h),
    ground (arith, h),
    ground (arith, h),
    ground (arith, h),
    ground (arith, h),
    ground (arith, h),
    ground (arith, h),
  ),
  (ground (arith, h), ground (arith, h), ground (arith, h), ground (arith, h)),
)

digit-NotSpecial : (c : ℕ) → is_digit c ≡ true → NotSpecial c
unfolding is_space is_digit
digit-NotSpecial c h = (
  ground (arith, h),
  ground (arith, h),
  ground (arith, h),
  ground (arith, h),
  ground (arith, h),
  ground (arith, h),
  ground (arith, h),
  ground (arith, h),
  ground (arith, h),
  ground (arith, h),
)

module _ {D : Type 0} (doubles : Doubles D) where
  -- A text is lexed to a token, whatever follows.
  abbrev pub Lexes : Text → Token D → Type 0
  Lexes raw token =
      (tail : Text) → Boundary tail → next doubles (b' ' ∷ (raw ++ tail)) ≡ ok (token, tail)

  pub record Word : Type 0 where
    pub raw : Text
    pub token : Token D
    pub lexes : Lexes raw token

  abbrev pub render : List Word → Text
  render [] = []
  render (w ∷ ws) = b' ' ∷ (w.raw ++ render ws)

  -- The parser before a list of words.
  abbrev pub at : List Word → State D
  at [] = record { cur = plain doubles Tok.end []; rest = [] }
  at (w ∷ ws) = record { cur = w.token; rest = render ws }

  render-Boundary : (ws : List Word) → Boundary (render ws)
  render-Boundary [] = tt
  render-Boundary (w ∷ ws) = refl

  next-render : (ws : List Word) → next doubles (render ws) ≡ ok ((at ws).cur, (at ws).rest)
  unfolding next next_from skip_ws
  next-render [] = refl
  next-render (w ∷ ws) = w.lexes (render ws) (render-Boundary ws)

  pub advance-start :
      (ws : List Word) → advance doubles (start_state doubles (render ws)) ≡ ok (tt, at ws)
  unfolding advance
  advance-start ws = rw (next-render ws) refl

  pub advance-at : (w : Word) (ws : List Word) → advance doubles (at (w ∷ ws)) ≡ ok (tt, at ws)
  unfolding advance
  advance-at w ws = rw (next-render ws) refl

  -- Identifiers, quoted texts and numbers are words.
  pub ident-Lexes :
      (c : ℕ) (s : Text)
      → (is_alpha c || c == b'_') ≡ true
      → all_chars in_ident s ≡ true
      → Lexes (c ∷ s) (plain doubles Tok.ident (c ∷ s))
  unfolding next next_from skip_ws token_at ident_token
  ident-Lexes c s h k tail b =
      let ((e0, e1, e2, e3, e4, e5, e6, e7, e8, e9), (n0, n1, n2, n3)) = alpha-NotSpecial c h in
      rw
        (
          next,
          skip_ws,
          e0,
          next_from,
          token_at,
          e1,
          e2,
          e3,
          e4,
          e5,
          e6,
          e7,
          e8,
          e9,
          n0,
          n1,
          n2,
          n3,
          h,
          ident_token,
          scan_ident-all s tail k b,
        )
        refl

  pub string-Lexes :
      (s : Text)
      → all_chars (λ c. not (c == b'\'')) s ≡ true
      → Lexes (b'\'' ∷ (s ++ b'\'' ∷ [])) (plain doubles Tok.string s)
  unfolding next next_from skip_ws token_at string_literal
  string-Lexes s h tail b =
      rw (string_literal, append_assoc s (b'\'' ∷ []) tail, take_until-all b'\'' s tail h) refl

  pub number-Lexes :
      (c : ℕ) (s : Text) (value : D)
      → is_digit c ≡ true
      → all_chars in_number s ≡ true
      → doubles.stod (c ∷ s) ≡ some value
      → Lexes (c ∷ s) (record { kind = Tok.number; text = c ∷ s; number = value })
  unfolding next next_from skip_ws token_at number_token
  number-Lexes c s value h k v tail b =
      let (e0, e1, e2, e3, e4, e5, e6, e7, e8, e9) = digit-NotSpecial c h in
      rw
        (
          next,
          skip_ws,
          e0,
          next_from,
          token_at,
          e1,
          e2,
          e3,
          e4,
          e5,
          e6,
          e7,
          e8,
          e9,
          h,
          number_token,
          scan_number-all c s tail k b,
          v,
          scan_number-all c s tail k b,
        )
        refl
