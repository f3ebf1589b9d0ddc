-- ===== src/Sql/Parser/Tokens.antt =====
-- The state of `Parser`, its tests of the current token, and what operators and patterns mean.
use blazerules.Prelude.{
  ℕ, Bool, true, false, ◌&&◌, ◌||◌, [], ◌∷◌, ◌==◌, if◌then◌else◌, Text, text_eq,
}
use blazerules.Compile.{OpType}
use blazerules.Sql.{
  SqlError, unknown_operator, operator_not_for_text, Result, ok, err, bind, Tok, Token, upper,
}

pub record State (D : Type 0) : Type 0 where
  pub cur : Token D
  pub rest : Text

abbrev pub Parser : Type 0 → Type 0 → Type 0
Parser D A = State D → Result (A × State D)

abbrev pub tok_code : Tok → ℕ
tok_code Tok.end = 0
tok_code Tok.ident = 1
tok_code Tok.number = 2
tok_code Tok.string = 3
tok_code Tok.op = 4
tok_code Tok.lparen = 5
tok_code Tok.rparen = 6
tok_code Tok.comma = 7

abbrev pub is_kind : Tok → Tok → Bool
is_kind a b = tok_code a == tok_code b

module _ {D A : Type 0} where
  abbrev pub pure : A → Parser D A
  pure a st = ok (a, st)

  abbrev pub throw : SqlError → Parser D A
  throw e st = err e

module _ {D A B : Type 0} where
  infixl 5 ◌>>=◌ ◌>>◌
  abbrev pub ◌>>=◌ : Parser D A → (A → Parser D B) → Parser D B
  ◌>>=◌ p f st = bind (p st) λ (a, st'). f a st'

  abbrev pub ◌>>◌ : Parser D A → Parser D B → Parser D B
  p >> q = p >>= λ _. q

module _ {D : Type 0} where
  unfoldable pub is_keyword : Text → State D → Bool
  unfolding upper
  is_keyword word st = is_kind st.cur.kind Tok.ident && text_eq (upper st.cur.text) word

  abbrev pub at_kind : Tok → State D → Bool
  at_kind kind st = is_kind st.cur.kind kind

  -- A choice by a test of the current token.
  abbrev pub when : {A : Type 0} → (State D → Bool) → Parser D A → Parser D A → Parser D A
  when test p q st = elim (test st) [ true ↦ p st | false ↦ q st ]

  abbrev pub cur_text : Parser D Text
  cur_text st = ok (st.cur.text, st)

  abbrev pub cur_number : Parser D D
  cur_number st = ok (st.cur.number, st)

-- What `read_value` reads.
pub data Value (D : Type 0) : Type 0 where
  number_value : D → Value D
  text_value : Text → Value D

abbrev pub word_or : Text
word_or = b'O' ∷ b'R' ∷ []

abbrev pub word_and : Text
word_and = b'A' ∷ b'N' ∷ b'D' ∷ []

abbrev pub word_not : Text
word_not = b'N' ∷ b'O' ∷ b'T' ∷ []

abbrev pub word_is : Text
word_is = b'I' ∷ b'S' ∷ []

abbrev pub word_null : Text
word_null = b'N' ∷ b'U' ∷ b'L' ∷ b'L' ∷ []

abbrev pub word_in : Text
word_in = b'I' ∷ b'N' ∷ []

abbrev pub word_between : Text
word_between = b'B' ∷ b'E' ∷ b'T' ∷ b'W' ∷ b'E' ∷ b'E' ∷ b'N' ∷ []

abbrev pub word_like : Text
word_like = b'L' ∷ b'I' ∷ b'K' ∷ b'E' ∷ []

abbrev pub word_ilike : Text
word_ilike = b'I' ∷ b'L' ∷ b'I' ∷ b'K' ∷ b'E' ∷ []

abbrev pub op_text : ℕ → ℕ → Text
op_text c d = c ∷ d ∷ []

abbrev pub is_equal_op : Text → Bool
is_equal_op op = text_eq op (b'=' ∷ []) || text_eq op (op_text b'=' b'=')

abbrev pub is_not_equal_op : Text → Bool
is_not_equal_op op = text_eq op (op_text b'!' b'=') || text_eq op (op_text b'<' b'>')

unfoldable pub numeric_op : Text → Result OpType
numeric_op op =
    if text_eq op (b'>' ∷ [])
    then ok OpType.gt
    else if text_eq op (b'<' ∷ [])
    then ok OpType.less_than
    else if text_eq op (op_text b'>' b'=')
    then ok OpType.gte
    else if text_eq op (op_text b'<' b'=')
    then ok OpType.lte
    else if is_equal_op op
    then ok OpType.eq
    else if is_not_equal_op op
    then ok OpType.neq
    else err unknown_operator

unfoldable pub text_op : Text → Result OpType
text_op op =
    if is_equal_op op
    then ok OpType.eq
    else if is_not_equal_op op
    then ok OpType.neq
    else err operator_not_for_text

abbrev pub starts_percent : Text → Bool
starts_percent [] = false
starts_percent (c ∷ s) = c == b'%'

unfoldable pub ends_percent : Text → Bool
ends_percent [] = false
ends_percent (c ∷ []) = c == b'%'
ends_percent (c ∷ d ∷ s) = ends_percent (d ∷ s)

abbrev drop_first : Text → Text
drop_first [] = []
drop_first (c ∷ s) = s

unfoldable pub drop_last : Text → Text
drop_last [] = []
drop_last (c ∷ []) = []
drop_last (c ∷ d ∷ s) = c ∷ drop_last (d ∷ s)

abbrev pub like_op : Bool → Bool → OpType
like_op true true = OpType.contains
like_op false true = OpType.starts_with
like_op true false = OpType.ends_with
like_op false false = OpType.contains

unfoldable pub like_core : Text → Text
unfolding ends_percent drop_last
like_core pat =
    let core = if starts_percent pat then drop_first pat else pat in
    if ends_percent pat then drop_last core else core

-- `kMaxDepth`.
abbrev pub max_depth : ℕ
max_depth = 128
