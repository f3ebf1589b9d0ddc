-- ===== src/Sql/AnyMatch/Trim.antt =====
-- `trim` of a text between spaces.
use blazerules.Prelude.{ℕ, ◌≡◌, refl, ap, ◌∙◌, Bool, true, false, not, [], ◌∷◌, ◌++◌, Text, arith}
use blazerules.Sql.{is_space}
use blazerules.Sql.Lexer.{skip_ws}
use blazerules.Sql.Words.{all_chars}
use blazerules.Sql.AnyMatch.{keep_char, trim_end, trim}

abbrev pub starts : Text → Bool
starts [] = false
starts (c ∷ s) = not (is_space c)

abbrev pub ends : Text → Bool
ends [] = false
ends (c ∷ []) = not (is_space c)
ends (c ∷ d ∷ s) = ends (d ∷ s)

pub starts-append : (s t : Text) → starts s ≡ true → starts (s ++ t) ≡ true
starts-append [] t h = absurd (ground arith)
starts-append (c ∷ s) t h = h

pub ends-cons : (c : ℕ) (s : Text) → ends s ≡ true → ends (c ∷ s) ≡ true
ends-cons c [] h = absurd (ground arith)
ends-cons c (d ∷ s) h = h

pub ends-append : (s t : Text) → ends t ≡ true → ends (s ++ t) ≡ true
ends-append [] t h = h
ends-append (c ∷ s) t h = ends-cons c (s ++ t) (ends-append s t h)

pub skip_ws-starts : (s : Text) → starts s ≡ true → skip_ws s ≡ s
unfolding skip_ws
skip_ws-starts [] h = refl
skip_ws-starts (c ∷ s) h = let first : is_space c ≡ false = ground (arith, h) in rw first refl

trim_end-ends : (s : Text) → ends s ≡ true → trim_end s ≡ s
unfolding trim_end
trim_end-ends [] h = refl
trim_end-ends (c ∷ []) h = let last : is_space c ≡ false = ground (arith, h) in rw last refl
trim_end-ends (c ∷ d ∷ s) h = ap (keep_char c) (trim_end-ends (d ∷ s) h)

skip_ws-spaces : (pad s : Text) → all_chars is_space pad ≡ true → skip_ws (pad ++ s) ≡ skip_ws s
unfolding skip_ws
skip_ws-spaces [] s h = refl
skip_ws-spaces (c ∷ pad) s h =
    let first : is_space c ≡ true = ground (arith, h) in
    let rest : all_chars is_space pad ≡ true = ground (arith, h) in
    rw first (skip_ws-spaces pad s rest)

trim_end_spaces : (pad : Text) → all_chars is_space pad ≡ true → trim_end pad ≡ []
unfolding trim_end
trim_end_spaces [] h = refl
trim_end_spaces (c ∷ pad) h =
    let first : is_space c ≡ true = ground (arith, h) in
    let rest : all_chars is_space pad ≡ true = ground (arith, h) in
    rw (trim_end_spaces pad rest, first) refl

trim_end-spaces : (s pad : Text) → all_chars is_space pad ≡ true → trim_end (s ++ pad) ≡ trim_end s
unfolding trim_end
trim_end-spaces [] pad h = trim_end_spaces pad h
trim_end-spaces (c ∷ s) pad h = ap (keep_char c) (trim_end-spaces s pad h)

-- A text that is not empty and has no space at either end.
abbrev pub Bare : Text → Type 0
Bare s = (starts s ≡ true) × (ends s ≡ true)

pub trim-Bare : (s : Text) → Bare s → trim s ≡ s
unfolding trim
trim-Bare s (first, last) = ap trim_end (skip_ws-starts s first) ∙ trim_end-ends s last

pub trim_after : (s pad : Text) → Bare s → all_chars is_space pad ≡ true → trim (s ++ pad) ≡ s
unfolding trim
trim_after s pad (first, last) h =
    ap trim_end (skip_ws-starts (s ++ pad) (starts-append s pad first))
    ∙ trim_end-spaces s pad h
    ∙ trim_end-ends s last

pub trim_before : (pad s : Text) → Bare s → all_chars is_space pad ≡ true → trim (pad ++ s) ≡ s
unfolding trim
trim_before pad s (first, last) h =
    ap trim_end (skip_ws-spaces pad s h ∙ skip_ws-starts s first) ∙ trim_end-ends s last

-- A bare text between spaces.
pub record Padded : Type 0 where
  pub before : Text
  pub text : Text
  pub after : Text
  pub bare : Bare text
  pub spaces_before : all_chars is_space before ≡ true
  pub spaces_after : all_chars is_space after ≡ true

abbrev pub raw : Padded → Text
raw p = p.before ++ (p.text ++ p.after)

pub trim-raw : (p : Padded) → trim (raw p) ≡ p.text
unfolding trim
trim-raw p =
    ap trim_end (skip_ws-spaces p.before (p.text ++ p.after) p.spaces_before)
    ∙ trim_after p.text p.after p.bare p.spaces_after
