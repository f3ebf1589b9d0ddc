-- ===== src/Lookup/Fast.antt =====
-- The parser that reads the rows agrees with the one that reads the rule files.
use blazerules.Prelude.{
  ℕ, ◌+◌, ◌-◌, ◌*◌, ◌%◌, ◌^◌, ◌≡◌, ◌≢◌, refl, inl, inr, true, [], ◌∷◌, ◌==◌, ltb, ◌&&◌, none, some,
  arith, Bool-cases, Option-cases,
}
use blazerules.Lookup.{
  Text, OctetState, octet_step, octet_start, parse_octets, parse_ipv4, is_digit, fast_step,
  fast_octets, finish_fast, parse_ipv4_fast,
}

none-ne-some : {A : Type 0} {a : A} → none ≢ some a
none-ne-some e = ground arith

-- What the strict parser accepts in one step, the other accepts with the same result.
step_agrees :
    (ch : ℕ) (st st' : OctetState) → octet_step ch st ≡ some st' → fast_step ch st ≡ some st'
unfolding octet_step fast_step
step_agrees ch st st' h = elim (Bool-cases (is_digit ch)) [
  | inl d ↦ elim (Bool-cases (ltb 255 (st.value * 10 + (ch - 48)))) [
    | inl big ↦ absurd (none-ne-some (rw (octet_step, d, big) at h))
    | inr fits ↦
        let e : (st.value * 10 + (ch - 48)) % 2 ^ 32 ≡ st.value * 10 + (ch - 48) = ground arith in
        rw (fast_step, d, e) (rw (octet_step, d, fits) at h)
  ]
  | inr nd ↦ elim (Bool-cases (ch == 46 && (st.saw_digit && ltb st.part 3))) [
    | inl dot ↦
        let dot' : (ch == 46 && ltb st.part 3) ≡ true = ground arith in
        rw (fast_step, nd, dot') (rw (octet_step, nd, dot) at h)
    | inr other ↦ absurd (none-ne-some (rw (octet_step, nd, other) at h))
  ]
]

octets_agree :
    (s : Text) (st st' : OctetState) → parse_octets s st ≡ some st' → fast_octets s st ≡ some st'
unfolding parse_octets fast_octets
octets_agree [] st st' h = h
octets_agree (ch ∷ rest) st st' h = elim (Option-cases (octet_step ch st)) [
  | inl e ↦ absurd (none-ne-some (rw (parse_octets, e) at h))
  | inr (st₁, e) ↦
      rw (fast_octets, step_agrees ch st st₁ e)
        (octets_agree rest st₁ st' (rw (parse_octets, e) at h))
]

-- An address that `parse_ipv4` accepts is read by `parse_ipv4_fast` as the same number.
pub parse_ipv4_fast-parse_ipv4 :
    (s : Text) (ip : ℕ) → parse_ipv4 s ≡ some ip → parse_ipv4_fast s ≡ ip
unfolding parse_ipv4 parse_ipv4_fast finish_fast
parse_ipv4_fast-parse_ipv4 s ip h = elim (Option-cases (parse_octets s octet_start)) [
  | inl e ↦ absurd (none-ne-some (rw (parse_ipv4, e) at h))
  | inr (st, e) ↦
      rw (parse_ipv4_fast, octets_agree s octet_start st e, finish_fast, rw (parse_ipv4, e) at h)
        refl
]
