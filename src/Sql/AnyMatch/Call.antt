-- ===== src/Sql/AnyMatch/Call.antt =====
-- Calls of `any_match` are taken apart.
use mathlib.Core.List.{append_assoc}
use blazerules.Prelude.{
  ℕ, ◌≡◌, refl, sym, ap, ◌∙◌, Bool, true, false, not, ◌||◌, [], ◌∷◌, ◌++◌, Option, none, some, ◌==◌,
  if◌then◌else◌, Text, arith,
}
use blazerules.Sql.{
  any_match_arguments, any_match_arrow, any_match_parentheses, is_space, upper, to_upper,
}
use blazerules.Sql.Lexer.{prepend, is_quote}
use blazerules.Sql.Parser.{drop_last}
use blazerules.Sql.Words.{all_chars}
use blazerules.Sql.AnyMatch.{
  strip_prefix, split_at, Scan, scan_comma, scan_step, split_arrow, ends_with_close, any_match_word,
  AnyMatch, call, bad_call, not_call, check_parts, read_lambda, read_arguments, read_call,
  parse_any_match_call, trim,
}
use blazerules.Sql.AnyMatch.Trim.{
  starts, ends, starts-append, ends-cons, ends-append, Bare, Padded, raw, trim-raw, trim_before,
  trim_after, trim-Bare,
}

strip_prefix-append : (p s : Text) → strip_prefix p (p ++ s) ≡ some s
strip_prefix-append [] s = refl
strip_prefix-append (c ∷ p) s =
    let same : (c == c) ≡ true = ground arith in rw same (strip_prefix-append p s)

upper-append : (s t : Text) → upper (s ++ t) ≡ upper s ++ upper t
unfolding upper
upper-append [] t = refl
upper-append (c ∷ s) t = ap (λ u. to_upper c ∷ u) (upper-append s t)

-- Characters other than one.
abbrev pub other : ℕ → ℕ → Bool
other d c = not (c == d)

split_at-append :
    (d : ℕ) (s t : Text) → all_chars (other d) s ≡ true → split_at d (s ++ d ∷ t) ≡ some (s, t)
split_at-append d [] t h = let same : (d == d) ≡ true = ground arith in rw same refl
split_at-append d (c ∷ s) t h =
    let first : (c == d) ≡ false = ground (arith, h) in
    let rest : all_chars (other d) s ≡ true = ground (arith, h) in
    rw (first, split_at-append d s t rest) refl

-- Characters that the scan for the comma passes by.
abbrev pub is_plain : ℕ → Bool
is_plain c = not (is_quote c || (c == b'(' || (c == b')' || c == b',')))

abbrev fresh : Scan
fresh = record { quoted = none; opens = 0; closes = 0 }

scan_step-plain : (c : ℕ) → is_plain c ≡ true → scan_step c fresh ≡ fresh
scan_step-plain c h = ground (arith, h)

scan_comma-append :
    (s t : Text) → all_chars is_plain s ≡ true → scan_comma fresh (s ++ b',' ∷ t) ≡ some (s, t)
unfolding scan_comma
scan_comma-append [] t h = refl
scan_comma-append (c ∷ s) t h =
    let first : is_plain c ≡ true = ground (arith, h) in
    let rest : all_chars is_plain s ≡ true = ground (arith, h) in
    let comma : (c == b',') ≡ false = ground (arith, first) in
    rw (scan_step-plain c first, scan_comma-append s t rest, comma) refl

no_arrow : (c : ℕ) (s : Text) → other b'-' c ≡ true → strip_prefix (b'-' ∷ b'>' ∷ []) (c ∷ s) ≡ none
no_arrow c s h = let first : (b'-' == c) ≡ false = ground (arith, h) in rw first refl

split_arrow-append :
    (s t : Text)
    → all_chars (other b'-') s ≡ true
    → split_arrow (s ++ b'-' ∷ b'>' ∷ t) ≡ some (s, t)
unfolding split_arrow
split_arrow-append [] t h = refl
split_arrow-append (c ∷ s) t h =
    let first : other b'-' c ≡ true = ground (arith, h) in
    let rest : all_chars (other b'-') s ≡ true = ground (arith, h) in
    let later : Text → Option (Text × Text) = λ u. prepend c (split_arrow u) in
    ap (λ (o : Option Text). elim o [ none ↦ later (s ++ b'-' ∷ b'>' ∷ t) | some r ↦ some ([], r) ])
      (no_arrow c (s ++ b'-' ∷ b'>' ∷ t) first)
    ∙ ap (prepend c) (split_arrow-append s t rest)

ends_with_close-append : (s : Text) → ends_with_close (s ++ b')' ∷ []) ≡ true
ends_with_close-append [] = refl
ends_with_close-append (c ∷ []) = refl
ends_with_close-append (c ∷ d ∷ s) = ends_with_close-append (d ∷ s)

drop_last-append : (s : Text) (c : ℕ) → drop_last (s ++ c ∷ []) ≡ s
unfolding drop_last
drop_last-append [] c = refl
drop_last-append (d ∷ []) c = refl
drop_last-append (d ∷ e ∷ s) c = ap (λ r. d ∷ r) (drop_last-append (e ∷ s) c)

to_upper-other : (c : ℕ) → other b'(' (to_upper c) ≡ true → other b'(' c ≡ true
unfolding to_upper
to_upper-other c h = ground (arith, h)

upper-other : (s : Text) → all_chars (other b'(') (upper s) ≡ true → all_chars (other b'(') s ≡ true
unfolding upper
upper-other [] h = refl
upper-other (c ∷ s) h =
    let first = to_upper-other c (ground (arith, h)) in
    let rest = upper-other s (ground (arith, h)) in ground (arith, first, rest)

to_upper-letter : (c : ℕ) → to_upper c ≡ b'A' → not (is_space c) ≡ true
unfolding to_upper is_space
to_upper-letter c h = ground (arith, h)

starts-upper : (name s : Text) → upper name ≡ b'A' ∷ s → starts name ≡ true
unfolding upper
starts-upper [] s h = absurd (ground arith)
starts-upper (c ∷ name) s h = to_upper-letter c (ground (arith, h))

-- The lambda is a bare text between spaces.
abbrev lambda : Padded → Padded → Padded
lambda alias body = record {
  before = alias.before;
  text = alias.text ++ (alias.after ++ b'-' ∷ b'>' ∷ (body.before ++ body.text));
  after = body.after;
  bare = (
    starts-append alias.text _ alias.bare.0,
    ends-append alias.text _ (
        ends-append alias.after _ (
          ends-cons b'-' (b'>' ∷ (body.before ++ body.text)) (
            ends-cons b'>' (body.before ++ body.text)
              (ends-append body.before body.text body.bare.1)))),
  );
  spaces_before = alias.spaces_before;
  spaces_after = body.spaces_after;
}

lambda-raw : (alias body : Padded) → raw alias ++ b'-' ∷ b'>' ∷ raw body ≡ raw (lambda alias body)
lambda-raw alias body = simp append_assoc

all_chars-suffix : (p : ℕ → Bool) (s t : Text) → all_chars p (s ++ t) ≡ true → all_chars p t ≡ true
all_chars-suffix p [] t h = h
all_chars-suffix p (c ∷ s) t h = all_chars-suffix p s t (ground (arith, h))

check_parts-Bare :
    (path alias body : Text)
    → Bare path
    → Bare alias
    → Bare body
    → check_parts path alias body ≡ call path alias body
check_parts-Bare [] alias body h k l = absurd (let first = h.0 in ground arith)
check_parts-Bare (c ∷ path) [] body h k l = absurd (let first = k.0 in ground arith)
check_parts-Bare (c ∷ path) (d ∷ alias) [] h k l = absurd (let first = l.0 in ground arith)
check_parts-Bare (c ∷ path) (d ∷ alias) (e ∷ body) h k l = refl

read_lambda-split :
    (path s alias body : Text)
    → split_arrow s ≡ some (alias, body)
    → read_lambda path s ≡ check_parts path (trim alias) (trim body)
unfolding read_lambda
read_lambda-split path s alias body h =
    ap
      (λ (o : Option (Text × Text)). elim o [
        | none ↦ bad_call any_match_arrow
        | some (a, b) ↦ check_parts path (trim a) (trim b)
      ])
      h

read_lambda-raw :
    (path : Text) (alias body : Padded)
    → Bare path
    → all_chars (other b'-') (raw alias) ≡ true
    → read_lambda path (trim (raw alias ++ b'-' ∷ b'>' ∷ raw body)) ≡ call path alias.text body.text
read_lambda-raw path alias body h k =
    let trimmed = ap trim (lambda-raw alias body) ∙ trim-raw (lambda alias body) in
    let name = alias.text ++ alias.after in
    let no_dash = all_chars-suffix (other b'-') alias.before name k in
    let split =
      ap split_arrow
        (sym (append_assoc alias.text alias.after (b'-' ∷ b'>' ∷ (body.before ++ body.text))))
      ∙ split_arrow-append name (body.before ++ body.text) no_dash in
    let parts = check_parts-Bare path alias.text body.text h alias.bare body.bare in
    ap (read_lambda path) trimmed
    ∙ read_lambda-split path _ name (body.before ++ body.text) split
    ∙ ap (λ a. check_parts path a (trim (body.before ++ body.text)))
        (trim_after alias.text alias.after alias.bare alias.spaces_after)
    ∙ ap (check_parts path alias.text)
        (trim_before body.before body.text body.bare body.spaces_before)
    ∙ parts

read_arguments-raw :
    (path alias body : Padded)
    → all_chars is_plain (raw path) ≡ true
    → all_chars (other b'-') (raw alias) ≡ true
    → read_arguments (raw path ++ b',' ∷ (raw alias ++ b'-' ∷ b'>' ∷ raw body))
      ≡ call path.text alias.text body.text
unfolding read_arguments
read_arguments-raw path alias body h k =
    let found = scan_comma-append (raw path) (raw alias ++ b'-' ∷ b'>' ∷ raw body) h in
    ap
      (λ (o : Option (Text × Text)). elim o [
        | none ↦ bad_call any_match_arguments
        | some (p, l) ↦ read_lambda (trim p) (trim l)
      ])
      found
    ∙ ap (λ p. read_lambda p (trim (raw alias ++ b'-' ∷ b'>' ∷ raw body))) (trim-raw path)
    ∙ read_lambda-raw path.text alias body path.bare k

read_call-raw :
    (name inner : Text)
    → all_chars (other b'(') name ≡ true
    → read_call (name ++ b'(' ∷ (inner ++ b')' ∷ [])) ≡ read_arguments inner
unfolding read_call
read_call-raw name inner h =
    let found = split_at-append b'(' name (inner ++ b')' ∷ []) h in
    let closed =
      ap ends_with_close (sym (append_assoc name (b'(' ∷ inner) (b')' ∷ [])))
      ∙ ends_with_close-append (name ++ b'(' ∷ inner) in
    ap
      (λ (o : Option (Text × Text)). elim o [
        | none ↦ bad_call any_match_parentheses
        | some (n, after) ↦
            if ends_with_close (name ++ b'(' ∷ (inner ++ b')' ∷ []))
            then read_arguments (drop_last after)
            else bad_call any_match_parentheses
      ])
      found
    ∙ ap
        (λ b.
          if b
          then read_arguments (drop_last (inner ++ b')' ∷ []))
          else bad_call any_match_parentheses)
        closed
    ∙ ap read_arguments (drop_last-append inner b')')

close_ends : ends (b')' ∷ []) ≡ true
unfolding is_space
close_ends = refl

-- A call, in the given spelling of `any_match`.
abbrev pub call_text : Text → Padded → Padded → Padded → Text
call_text name path alias body =
    name ++ b'(' ∷ ((raw path ++ b',' ∷ (raw alias ++ b'-' ∷ b'>' ∷ raw body)) ++ b')' ∷ [])

parse_any_match_call-named :
    (text name s : Text)
    → upper name ≡ any_match_word
    → trim text ≡ name ++ s
    → parse_any_match_call text ≡ read_call (name ++ s)
unfolding parse_any_match_call
parse_any_match_call-named text name s h bare =
    let whole = name ++ s in
    let decide : Text → Option Text → AnyMatch =
      λ u o. elim o [ none ↦ not_call | some rest ↦ read_call u ] in
    let named = upper-append name s ∙ ap (λ u. u ++ upper s) h in
    ap (λ u. decide u (strip_prefix any_match_word (upper u))) bare
    ∙ ap (decide whole)
        (ap (strip_prefix any_match_word) named ∙ strip_prefix-append any_match_word (upper s))

-- A call of `any_match`, in capitals or not, with spaces around the parts, is taken apart into the
-- path, the alias and the body, when the path has no quote, parenthesis or comma and the alias no
-- dash.
pub parse_any_match_call-call_text :
    (name : Text) (path alias body : Padded)
    → upper name ≡ any_match_word
    → all_chars is_plain (raw path) ≡ true
    → all_chars (other b'-') (raw alias) ≡ true
    → parse_any_match_call (call_text name path alias body) ≡ call path.text alias.text body.text
parse_any_match_call-call_text name path alias body h k l =
    let inner = raw path ++ b',' ∷ (raw alias ++ b'-' ∷ b'>' ∷ raw body) in
    let no_open = upper-other name (ap (all_chars (other b'(')) h) in
    let bare : Bare (call_text name path alias body) = (
      starts-append name _ (starts-upper name _ h),
      ends-append name _
          (ends-cons b'(' (inner ++ b')' ∷ []) (ends-append inner (b')' ∷ []) close_ends)),
    ) in
    parse_any_match_call-named (call_text name path alias body) name (b'(' ∷ (inner ++ b')' ∷ [])) h
      (trim-Bare (call_text name path alias body) bare)
    ∙ read_call-raw name inner no_open
    ∙ read_arguments-raw path alias body k l

pub all_chars-append :
    (p : ℕ → Bool) (s t : Text)
    → all_chars p s ≡ true
    → all_chars p t ≡ true
    → all_chars p (s ++ t) ≡ true
all_chars-append p [] t h k = k
all_chars-append p (c ∷ s) t h k =
    let rest = all_chars-append p s t (ground (arith, h)) k in ground (arith, h, rest)

split_at-missing : (d : ℕ) (s : Text) → all_chars (other d) s ≡ true → split_at d s ≡ none
split_at-missing d [] h = refl
split_at-missing d (c ∷ s) h =
    let first : (c == d) ≡ false = ground (arith, h) in
    let rest : all_chars (other d) s ≡ true = ground (arith, h) in
    rw (first, split_at-missing d s rest) refl

pub starts-named : (name s : Text) → upper name ≡ any_match_word → starts (name ++ s) ≡ true
starts-named name s h = starts-append name s (starts-upper name _ h)

-- Without a parenthesis the letters of `any_match` at the start are an error.
pub parse_any_match_call-no_call :
    (text name s : Text)
    → upper name ≡ any_match_word
    → trim text ≡ name ++ s
    → all_chars (other b'(') s ≡ true
    → parse_any_match_call text ≡ bad_call any_match_parentheses
unfolding read_call
parse_any_match_call-no_call text name s h bare k =
    let no_open =
      all_chars-append (other b'(') name s (upper-other name (ap (all_chars (other b'(')) h)) k in
    parse_any_match_call-named text name s h bare
    ∙ ap
        (λ (o : Option (Text × Text)). elim o [
          | none ↦ bad_call any_match_parentheses
          | some (n, after) ↦
              if ends_with_close (name ++ s)
              then read_arguments (drop_last after)
              else bad_call any_match_parentheses
        ])
        (split_at-missing b'(' (name ++ s) no_open)
