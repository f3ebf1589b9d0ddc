-- ===== src/Lookup/Octets.antt =====
-- Parsing the dotted text of an address gives the address back.
use Prim.Native.Nat.{bit_or}
use native.Mathlib.Nat.{pow-suc}
use mathlib.Core.List.{append-nil}
use blazerules.Prelude.{
  ℕ, zero, suc, ◌+◌, ◌-◌, ◌*◌, ◌/◌, ◌%◌, ◌^◌, ◌<◌, ◌≡◌, refl, sym, ap, ◌∙◌, inl, inr, Bool, true,
  false, List, [], ◌∷◌, ◌++◌, ltb, if◌then◌else◌, some, set, arith, Bool-cases, bit_or_step,
}
use blazerules.Lookup.{
  Text, OctetState, octet_step, octet_start, parse_octets, join_octets, finish_octets, parse_ipv4,
  is_digit,
}
use blazerules.Lookup.Prefix.{double, or_none}

-- A number below 256 in decimal.
abbrev pub decimal : ℕ → Text
decimal n =
    if ltb n 10
    then (48 + n) ∷ []
    else if ltb n 100
    then (48 + n / 10) ∷ (48 + n % 10) ∷ []
    else (48 + n / 100) ∷ (48 + n / 10 % 10) ∷ (48 + n % 10) ∷ []

abbrev pub dotted : ℕ → ℕ → ℕ → ℕ → Text
dotted a b c d = decimal a ++ 46 ∷ (decimal b ++ 46 ∷ (decimal c ++ 46 ∷ decimal d))

abbrev state : List ℕ → ℕ → ℕ → Bool → OctetState
state parts part value saw = record { parts = parts; part = part; value = value; saw_digit = saw }

octet_step_digit :
    (d v part : ℕ) (parts : List ℕ) (saw : Bool)
    → d < 10
    → v * 10 + d < 256
    → octet_step (48 + d) (state parts part v saw) ≡ some (state parts part (v * 10 + d) true)
unfolding octet_step
octet_step_digit d v part parts saw h k =
    let digit : is_digit (48 + d) ≡ true = unfold is_digit in ground arith in
    let value : v * 10 + (48 + d - 48) ≡ v * 10 + d = omega arith in
    let fits : ltb 255 (v * 10 + d) ≡ false = ground arith in
    rw (octet_step, digit, value, fits) refl

octet_step_dot :
    (v part : ℕ) (parts : List ℕ)
    → part < 3
    → octet_step 46 (state parts part v true) ≡ some (state (set parts part v) (part + 1) 0 false)
unfolding octet_step is_digit
octet_step_dot v part parts h =
    let room : ltb part 3 ≡ true = ground arith in rw (octet_step, room) refl

digit_step :
    (d v part : ℕ) (parts : List ℕ) (saw : Bool) (rest : Text)
    → d < 10
    → v * 10 + d < 256
    → parse_octets ((48 + d) ∷ rest) (state parts part v saw)
      ≡ parse_octets rest (state parts part (v * 10 + d) true)
unfolding parse_octets
digit_step d v part parts saw rest h k =
    rw (parse_octets, octet_step_digit d v part parts saw h k) refl

dot_step :
    (v part : ℕ) (parts : List ℕ) (rest : Text)
    → part < 3
    → parse_octets (46 ∷ rest) (state parts part v true)
      ≡ parse_octets rest (state (set parts part v) (part + 1) 0 false)
unfolding parse_octets
dot_step v part parts rest h = rw (parse_octets, octet_step_dot v part parts h) refl

decimal_step :
    (n part : ℕ) (parts : List ℕ) (rest : Text)
    → n < 256
    → parse_octets (decimal n ++ rest) (state parts part 0 false)
      ≡ parse_octets rest (state parts part n true)
decimal_step n part parts rest h =
    let same : (v : ℕ)
        → v ≡ n
        → parse_octets rest (state parts part v true)
          ≡ parse_octets rest (state parts part n true) =
      λ v e. ap (λ (k : ℕ). parse_octets rest (state parts part k true)) e in
    elim (Bool-cases (ltb n 10)) [
      | inl t ↦ rw t (
          digit_step n 0 part parts false rest (ground arith) (ground arith) ∙ same _ (omega arith))
      | inr f ↦ elim (Bool-cases (ltb n 100)) [
        | inl t ↦
            rw (f, t)
              (digit_step (n / 10) 0 part parts false _ (ground arith) (ground arith)
                ∙ digit_step (n % 10) (0 * 10 + n / 10) part parts true rest (omega arith)
                    (ground arith)
                ∙ same _ (omega arith))
        | inr f' ↦
            rw (f, f')
              (digit_step (n / 100) 0 part parts false _ (ground arith) (ground arith)
                ∙ digit_step (n / 10 % 10) (0 * 10 + n / 100) part parts true _ (omega arith)
                    (ground arith)
                ∙ digit_step (n % 10) ((0 * 10 + n / 100) * 10 + n / 10 % 10) part parts true rest
                    (omega arith) (ground arith)
                ∙ same _ (omega arith))
      ]
    ]

-- The bits of two numbers that do not overlap.
or_join : (k w q r : ℕ) → q < 2 ^ w → r < 2 ^ k → bit_or (q * 2 ^ k) r ≡ q * 2 ^ k + r
or_join zero w q r h l =
    let e : q * 2 ^ 0 ≡ q = omega arith in
    let z : r ≡ 0 = omega arith in rw (e, z) (or_none w q h ∙ omega arith)
or_join (suc k) w q r h l =
    let e : (q * 2 ^ suc k) / 2 ≡ q * 2 ^ k = omega (arith, double q k) in
    omega (
      arith,
      double q k,
      rw e at (bit_or_step (q * 2 ^ suc k) r),
      or_join k w q (r / 2) h (omega (arith, pow-suc 2 k)),
    )

join_octets-value :
    (a b c d : ℕ)
    → a < 256
    → b < 256
    → c < 256
    → d < 256
    → join_octets a b c d ≡ a * 2 ^ 24 + b * 2 ^ 16 + c * 2 ^ 8 + d
unfolding join_octets
join_octets-value a b c d h k l m =
    let ea : a * 2 ^ 24 % 2 ^ 32 ≡ a * 2 ^ 8 * 2 ^ 16 = omega arith in
    let ea' : a * 2 ^ 24 % 2 ^ 32 ≡ a * 2 ^ 24 = omega arith in
    let eb : b * 2 ^ 16 % 2 ^ 32 ≡ b * 2 ^ 16 = omega arith in
    let ec : c * 2 ^ 8 % 2 ^ 32 ≡ c * 2 ^ 8 = omega arith in
    let ab = or_join 24 8 a (b * 2 ^ 16) (omega arith) (omega arith) in
    let abc = or_join 16 16 (a * 2 ^ 8 + b) (c * 2 ^ 8) (omega arith) (omega arith) in
    let abcd = or_join 8 24 (a * 2 ^ 16 + b * 2 ^ 8 + c) d (omega arith) (omega arith) in
    let up : a * 2 ^ 24 + b * 2 ^ 16 ≡ (a * 2 ^ 8 + b) * 2 ^ 16 = omega arith in
    let up' : (a * 2 ^ 8 + b) * 2 ^ 16 + c * 2 ^ 8 ≡ (a * 2 ^ 16 + b * 2 ^ 8 + c) * 2 ^ 8 =
      omega arith in
    rw (ea', eb, ec, ab, up, abc, up', abcd) (omega arith)

-- The dotted decimal text of four numbers below 256 parses to the address that they make up.
pub parse_ipv4-dotted :
    (a b c d : ℕ)
    → a < 256
    → b < 256
    → c < 256
    → d < 256
    → parse_ipv4 (dotted a b c d) ≡ some (a * 2 ^ 24 + b * 2 ^ 16 + c * 2 ^ 8 + d)
unfolding parse_ipv4 octet_start
parse_ipv4-dotted a b c d h k l m =
    let after_b : Text = decimal c ++ 46 ∷ decimal d in
    let after_a : Text = decimal b ++ 46 ∷ after_b in
    let last : parse_octets (decimal d) (state (a ∷ b ∷ c ∷ 0 ∷ []) 3 0 false)
        ≡ some (state (a ∷ b ∷ c ∷ 0 ∷ []) 3 d true) =
      ap (λ (s : Text). parse_octets s (state (a ∷ b ∷ c ∷ 0 ∷ []) 3 0 false))
        (sym (append-nil (decimal d)))
      ∙ decimal_step d 3 (a ∷ b ∷ c ∷ 0 ∷ []) [] m in
    let all : parse_octets (dotted a b c d) (state (0 ∷ 0 ∷ 0 ∷ 0 ∷ []) 0 0 false)
        ≡ some (state (a ∷ b ∷ c ∷ 0 ∷ []) 3 d true) =
      decimal_step a 0 (0 ∷ 0 ∷ 0 ∷ 0 ∷ []) (46 ∷ after_a) h
      ∙ dot_step a 0 (0 ∷ 0 ∷ 0 ∷ 0 ∷ []) after_a (omega arith)
      ∙ decimal_step b 1 (a ∷ 0 ∷ 0 ∷ 0 ∷ []) (46 ∷ after_b) k
      ∙ dot_step b 1 (a ∷ 0 ∷ 0 ∷ 0 ∷ []) after_b (omega arith)
      ∙ decimal_step c 2 (a ∷ b ∷ 0 ∷ 0 ∷ []) (46 ∷ decimal d) l
      ∙ dot_step c 2 (a ∷ b ∷ 0 ∷ 0 ∷ []) (decimal d) (omega arith)
      ∙ last in
    rw (parse_ipv4, all) (unfold finish_octets in ap some (join_octets-value a b c d h k l m))
