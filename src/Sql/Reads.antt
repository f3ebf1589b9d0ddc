-- ===== src/Sql/Reads.antt =====
-- What the parsers of `Parser` read off a list of words.
use blazerules.Prelude.{ℕ, zero, suc, ◌≡◌, refl, false, List, ◌∷◌, length, Text}
use blazerules.Spec.{Operands}
use blazerules.Compile.{Condition, negation, Conditions, nil}
use blazerules.Sql.{Doubles, ok, upper, to_upper}
use blazerules.Sql.Parser.{
  Parser, is_keyword, expect, parse_comparison, parse_primary, read_more, parse_chain, not_body,
  word_not,
}
use blazerules.Sql.Words.{Word, at, advance-at, bind_ok, take_no}
use blazerules.Sql.Keys.{Keys, Field, field_word, not_key, open_word, close_word}

module _ {D : Type 0} (doubles : Doubles D) where
  abbrev pub Words : Type 0
  Words = List (Word doubles)

  abbrev pub Operand : Type 0
  Operand = Parser D (Condition (Operands D))

  -- No further operand follows.
  abbrev pub Stops : Text → Words → Type 0
  Stops word k = is_keyword word (at doubles k) ≡ false

  -- A parser reads a query off the front.
  abbrev pub ReadsAt : Operand → Words → Condition (Operands D) → Words → Type 0
  ReadsAt p ws c k = p (at doubles ws) ≡ ok (c, at doubles k)

  module _ (keys : Keys doubles) where
    field-no_keyword : (f : Field doubles) (ws : Words) → Stops word_not (field_word doubles f ∷ ws)
    unfolding is_keyword
    field-no_keyword f ws = f.not_not

    pub field-not_body :
        (parse_not parse_or : Operand) (f : Field doubles) (ws : Words)
        → not_body doubles parse_not parse_or (at doubles (field_word doubles f ∷ ws))
          ≡ parse_comparison doubles (at doubles (field_word doubles f ∷ ws))
    unfolding not_body parse_primary
    field-not_body parse_not parse_or f ws = take_no _ _ _ (field-no_keyword f ws) refl

    pub group-not_body :
        (parse_not parse_or : Operand) (c : Condition (Operands D)) (ws k : Words)
        → ReadsAt parse_or ws c (close_word keys ∷ k)
        → ReadsAt (not_body doubles parse_not parse_or) (open_word keys ∷ ws) c k
    unfolding not_body parse_primary is_keyword expect
    group-not_body parse_not parse_or c ws k h =
        bind_ok _ (advance-at doubles (open_word keys) ws)
          (bind_ok _ h (bind_ok _ (advance-at doubles (close_word keys) k) refl))

    pub not-not_body :
        (parse_not parse_or : Operand) (c : Condition (Operands D)) (ws k : Words)
        → ReadsAt parse_not ws c k
        → ReadsAt (not_body doubles parse_not parse_or) (not_key keys ∷ ws) (negation c) k
    unfolding not_body is_keyword upper to_upper
    not-not_body parse_not parse_or c ws k h =
        bind_ok _ (advance-at doubles (not_key keys) ws) (bind_ok _ h refl)

    pub read_more-Stops :
        (word : Text) (operand : Operand) (fuel : ℕ) (k : Words)
        → Stops word k
        → read_more doubles word operand fuel (at doubles k) ≡ ok (nil, at doubles k)
    unfolding read_more
    read_more-Stops word operand zero k h = take_no _ _ _ h refl
    read_more-Stops word operand (suc fuel) k h = take_no _ _ _ h refl

    pub chain-one :
        (word : Text) (build : Conditions (Operands D) → Condition (Operands D)) (operand : Operand)
        (c : Condition (Operands D)) (ws k : Words)
        → ReadsAt operand ws c k
        → Stops word k
        → ReadsAt (parse_chain doubles word build operand) ws c k
    unfolding parse_chain
    chain-one word build operand c ws k h s =
        bind_ok _ h
          (bind_ok _ (read_more-Stops word operand (suc (length (at doubles k).rest)) k s) refl)
