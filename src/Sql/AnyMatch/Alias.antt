-- ===== src/Sql/AnyMatch/Alias.antt =====
-- `strip_alias_prefixes` ends, and `parse_sql_expression` on calls of `any_match`.
use blazerules.Prelude.{
  ℕ, zero, suc, ◌+◌, ◌≤◌, ◌≡◌, refl, ap, inl, inr, Bool, true, false, [], ◌∷◌, ◌++◌, Option, none,
  some, length, ◌==◌, Text, arith, Bool-cases, length-append,
}
use blazerules.Sql.{Doubles, Result, ok, err, bind, upper}
use blazerules.Sql.Parser.{parse}
use blazerules.Sql.Words.{all_chars}
use blazerules.Sql.AnyMatch.{
  strip_prefix, at_boundary, strip_from, strip_alias_prefixes, array_any_synthetic_name,
  any_match_word, AnyMatch, not_call, bad_call, call, of_row, array_any, Expression,
  parse_sql_expression,
}
use blazerules.Sql.AnyMatch.Trim.{Padded, raw}
use blazerules.Sql.AnyMatch.Call.{is_plain, other, call_text, parse_any_match_call-call_text}

strip_prefix-length :
    (prefix s rest : Text)
    → strip_prefix prefix s ≡ some rest
    → length prefix + length rest ≡ length s
strip_prefix-length [] s rest h = ground (arith, h)
strip_prefix-length (c ∷ prefix) [] rest h = absurd (ground (arith, h))
strip_prefix-length (c ∷ prefix) (d ∷ s) rest h = elim (Bool-cases (c == d)) [
  | inl t ↦
      let inner : strip_prefix prefix s ≡ some rest = ground (arith, t, h) in
      let later = strip_prefix-length prefix s rest inner in omega arith
  | inr f ↦ absurd (ground (arith, f, h))
]

option_same :
    {A B : Type 0} (o : Option A) (x y : B) (f g : A → B)
    → x ≡ y
    → ((a : A) → o ≡ some a → f a ≡ g a)
    → elim o [ none ↦ x | some a ↦ f a ] ≡ elim o [ none ↦ y | some a ↦ g a ]
option_same none x y f g h k = h
option_same (some a) x y f g h k = k a refl

bool_same :
    {B : Type 0} (b : Bool) (x y u v : B)
    → x ≡ y
    → u ≡ v
    → elim b [ true ↦ x | false ↦ u ] ≡ elim b [ true ↦ y | false ↦ v ]
bool_same true x y u v h k = h
bool_same false x y u v h k = k

strip_from-enough :
    (prefix : Text) (f g : ℕ) (previous : Option ℕ) (s : Text)
    → 1 ≤ length prefix
    → length s ≤ f
    → length s ≤ g
    → strip_from prefix f previous s ≡ strip_from prefix g previous s
unfolding strip_from
strip_from-enough prefix zero zero previous s p h k = refl
strip_from-enough prefix zero (suc g) previous [] p h k = refl
strip_from-enough prefix zero (suc g) previous (c ∷ s) p h k = absurd (omega arith)
strip_from-enough prefix (suc f) zero previous [] p h k = refl
strip_from-enough prefix (suc f) zero previous (c ∷ s) p h k = absurd (omega arith)
strip_from-enough prefix (suc f) (suc g) previous [] p h k = refl
strip_from-enough prefix (suc f) (suc g) previous (c ∷ s) p h k =
    let go : ℕ → Text → Text = λ n rest. elim (at_boundary previous) [
      | true ↦ strip_from prefix n previous rest
      | false ↦ prefix ++ strip_from prefix n (some b'.') rest
    ] in
    option_same (strip_prefix prefix (c ∷ s)) (c ∷ strip_from prefix f (some c) s)
      (c ∷ strip_from prefix g (some c) s) (go f) (go g)
      (ap (λ t. c ∷ t) (strip_from-enough prefix f g (some c) s p (omega arith) (omega arith)))
      λ rest found.
        let size = strip_prefix-length prefix (c ∷ s) rest found in
        bool_same (at_boundary previous) (strip_from prefix f previous rest)
          (strip_from prefix g previous rest) (prefix ++ strip_from prefix f (some b'.') rest)
          (prefix ++ strip_from prefix g (some b'.') rest)
          (strip_from-enough prefix f g previous rest p (omega arith) (omega arith))
          (ap (λ t. prefix ++ t)
            (strip_from-enough prefix f g (some b'.') rest p (omega arith) (omega arith)))

alias_length : (alias : Text) → 1 ≤ length (alias ++ b'.' ∷ [])
alias_length alias = let h = length-append alias (b'.' ∷ []) in omega arith

abbrev pub decide : {D : Type 0} → Doubles D → Text → AnyMatch → Result (Expression D)
decide doubles text m = elim m [
  | not_call ↦ bind (parse doubles text) λ c. ok (of_row c)
  | bad_call e ↦ err e
  | call path alias body ↦
      bind (parse doubles (strip_alias_prefixes body alias))
        λ c. ok (array_any path (array_any_synthetic_name path text) c)
]

-- The loop of `strip_alias_prefixes` ends: any fuel that is at least the length of the body gives
-- the same text.
pub strip_from-strip_alias_prefixes :
    (body alias : Text) (fuel : ℕ)
    → length body ≤ fuel
    → strip_from (alias ++ b'.' ∷ []) fuel none body ≡ strip_alias_prefixes body alias
unfolding strip_alias_prefixes
strip_from-strip_alias_prefixes body alias fuel h =
    strip_from-enough (alias ++ b'.' ∷ []) fuel (length body) none body (alias_length alias) h
      (omega arith)

-- An expression that is a call of `any_match`, with its name in any case and spaces around the
-- parts, has the condition of its body without the prefixes of the alias, on the array of the path,
-- and fails as the body does. The path has no quote, parenthesis or comma, the alias no dash.
pub parse_sql_expression-call_text :
    {D : Type 0} (doubles : Doubles D) (name : Text) (path alias body : Padded)
    → upper name ≡ any_match_word
    → all_chars is_plain (raw path) ≡ true
    → all_chars (other b'-') (raw alias) ≡ true
    → parse_sql_expression doubles (call_text name path alias body)
      ≡ bind (parse doubles (strip_alias_prefixes body.text alias.text)) λ c. ok (
          array_any path.text
            (array_any_synthetic_name path.text (call_text name path alias body))
            c)
unfolding parse_sql_expression
parse_sql_expression-call_text {D} doubles name path alias body h k l =
    ap (decide doubles (call_text name path alias body))
      (parse_any_match_call-call_text name path alias body h k l)
