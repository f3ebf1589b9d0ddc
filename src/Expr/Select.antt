-- ===== src/Expr/Select.antt =====
-- The selection-vector path of a conjunction: narrowing the survivors child by child gives the
-- same rows as and-ing the masks, as long as no child writes the survivors.
use blazerules.Prelude.{
  ℕ, zero, suc, ◌+◌, ◌*◌, ◌/◌, ◌<◌, ◌≤◌, ◌≡◌, ◌≢◌, refl, sym, ap, ◌∙◌, ◌⊎◌, inl, inr, Bool, true,
  false, List, [], ◌∷◌, ◌&&◌, ◌||◌, ◌==◌, ltb, leb, Option, some, length, replicate, All, arith,
  rows, rows_ext, rows_none, Bool-cases, lt→ltb,
}
use blazerules.Bitmask.{Mask, bitmask_bytes, bit_is_set, set_bit, count_set_bits, collect_set_bits}
use blazerules.Bitmask.Find.{find_set_bits-rows, collect_set_bits-find_set_bits}
use blazerules.Bitmask.Count.{count_set_bits-rows}
use blazerules.Bitmask.Rowwise.{bit_is_set-set_bit}
use blazerules.Bitmask.Bytes.{set_bit-IsBytes, length-set_bit}
use blazerules.Expr.{Scratch, Evaluate, ◌>>=◌, select_children, keep, set_bits, narrow}
use blazerules.Expr.Truth.{all_of}
use blazerules.Expr.Loops.{Represents, CacheOk, Works, Ran, zero-Represents, Represents-ext}

keep-rows :
    (mask : Mask) (base n : ℕ) (p : ℕ → Bool)
    → keep mask (rows base n p) ≡ rows base n (λ i. p i && bit_is_set mask i)
unfolding keep
keep-rows mask base zero p = refl
keep-rows mask base (suc n) p = ground (arith, keep-rows mask (suc base) n p)

rows-nil :
    (base n : ℕ) (p : ℕ → Bool)
    → rows base n p ≡ []
    → (i : ℕ) → base ≤ i
    → i < base + n
    → p i ≡ false
rows-nil base zero p h i l u = absurd (omega arith)
rows-nil base (suc n) p h i l u = elim (Bool-cases (i == base)) [
  | inl e ↦ let e' : i ≡ base = ground arith in rw e' (ground (arith, h))
  | inr f ↦ rows-nil (suc base) n p (ground (arith, h)) i (ground arith) (omega arith)
]

rows-false :
    (base n : ℕ) (p : ℕ → Bool) → ((i : ℕ) → i < base + n → p i ≡ false) → rows base n p ≡ []
rows-false base n p h =
    rows_ext base n p (λ i. false) (λ i l u. h i u) ∙ rows_none base n (λ i. false) (λ i l. refl)

cover_set :
    (p : ℕ → Bool) (base n row : ℕ) (b : Bool)
    → p base ≡ true
    → ((row == base || b) || (p row && leb (suc base) row && ltb row (suc base + n)))
      ≡ (b || (p row && leb base row && ltb row (base + suc n)))
cover_set p base n row b t = elim (Bool-cases (row == base)) [
  | inl e ↦ let e' : row ≡ base = ground arith in rw (e', t) (ground arith)
  | inr f ↦ rw f (ground arith)
]

cover_unset :
    (p : ℕ → Bool) (base n row : ℕ) (b : Bool)
    → p base ≡ false
    → (b || (p row && leb (suc base) row && ltb row (suc base + n)))
      ≡ (b || (p row && leb base row && ltb row (base + suc n)))
cover_unset p base n row b f = elim (Bool-cases (row == base)) [
  | inl e ↦ let e' : row ≡ base = ground arith in rw (e', f) (ground arith)
  | inr ne ↦ ground arith
]

length-zero : (xs : List ℕ) → length xs ≡ 0 → xs ≡ []
length-zero [] h = refl
length-zero (x ∷ xs) h = absurd (omega arith)

List-cases : (xs : List ℕ) → (xs ≡ []) ⊎ ((y : ℕ) × (ys : List ℕ) × (xs ≡ y ∷ ys))
List-cases [] = inl refl
List-cases (x ∷ xs) = inr (x, xs, refl)

module _ (m : ℕ) where
  within : (mask : Mask) (i : ℕ) → length mask ≡ bitmask_bytes m → i < m → i / 8 < length mask
  unfolding bitmask_bytes
  within mask i e h = let e' : length mask ≡ (m + 7) / 8 = e in omega arith

  set_bit-Represents :
      (p : ℕ → Bool) (mask : Mask) (k : ℕ)
      → k < m
      → Represents m p mask
      → Represents m (λ row. row == k || p row) (set_bit mask k)
  set_bit-Represents p mask k h r = record {
    bytes = set_bit-IsBytes mask k r.bytes;
    size = length-set_bit mask k ∙ r.size;
    bits = λ row l. bit_is_set-set_bit mask k row (within mask k r.size h) ∙ rw (r.bits row l);
  }

  set_bits-Represents :
      (base n : ℕ) (p r : ℕ → Bool) (out : Mask)
      → base + n ≤ m
      → Represents m r out
      → Represents m
          (λ row. r row || (p row && leb base row && ltb row (base + n)))
          (set_bits (rows base n p) out)
  unfolding set_bits
  set_bits-Represents base zero p r out h ro = Represents-ext m r _ out (λ row l. ground arith) ro
  set_bits-Represents base (suc n) p r out h ro = elim (Bool-cases (p base)) [
    | inl t ↦ rw t (
        Represents-ext m _ _ _ (λ row l. cover_set p base n row (r row) t)
          (set_bits-Represents (suc base) n p (λ row. row == base || r row) (set_bit out base)
            (omega arith) (set_bit-Represents r out base (omega arith) ro)))
    | inr f ↦ rw f (
        Represents-ext m _ _ _ (λ row l. cover_unset p base n row (r row) f)
          (set_bits-Represents (suc base) n p r out (omega arith) ro))
  ]

  -- The rows below `m` that satisfy `p`, set in an empty mask.
  collected :
      (p : ℕ → Bool) → Represents m p (set_bits (rows 0 m p) (replicate (bitmask_bytes m) 0))
  collected p =
      Represents-ext m _ p _ (λ row l. ground (arith, lt→ltb row m l))
        (set_bits-Represents 0 m p (λ row. false) _ (omega arith) (zero-Represents m))

  collect-rows :
      (p : ℕ → Bool) (mask : Mask) → Represents m p mask → collect_set_bits mask m ≡ rows 0 m p
  collect-rows p mask r =
      collect_set_bits-find_set_bits mask m r.bytes
      ∙ find_set_bits-rows mask m r.bytes r.size
      ∙ rows_ext 0 m (bit_is_set mask) p (λ i l u. r.bits i (omega arith))

  count-zero :
      (p : ℕ → Bool) (mask : Mask)
      → Represents m p mask
      → count_set_bits mask ≡ 0
      → (row : ℕ) → row < m
      → p row ≡ false
  unfolding bitmask_bytes
  count-zero p mask r e row l =
      let size : length mask ≡ (m + 7) / 8 = r.size in
      sym (r.bits row l)
      ∙ rows-nil 0 (length mask * 8) (bit_is_set mask)
          (length-zero _ (sym (count_set_bits-rows mask r.bytes) ∙ e)) row (omega arith)
          (omega arith)

select-none :
    (eval : Evaluate) (c : ℕ) (cs : List ℕ) (st : Scratch)
    → st.survivors ≡ []
    → select_children eval (c ∷ cs) st ≡ some (tt, st)
unfolding select_children
select-none eval c cs st e = ground arith

select-some :
    (eval : Evaluate) (c : ℕ) (cs : List ℕ) (st st' : Scratch) (x : ℕ) (xs : List ℕ) (mask : Mask)
    → st.survivors ≡ x ∷ xs
    → eval c st ≡ some (mask, st')
    → select_children eval (c ∷ cs) st
      ≡ select_children eval cs (record st' { survivors = keep mask st'.survivors })
unfolding select_children
select-some eval c cs st st' x xs mask e e' = ground arith

module _ (m len : ℕ) (v : ℕ → ℕ → Bool) (q : ℕ → Bool) (eval : Evaluate) where
  abbrev Narrowed : (ℕ → Bool) → Option (Unit {0} × Scratch) → Type 0
  Narrowed p r =
      (st' : Scratch) × (r ≡ some (tt, st')) × CacheOk m len v q st' × (st'.survivors ≡ rows 0 m p)

  select_children-Narrowed :
      (cs : List ℕ) (p : ℕ → Bool) (st : Scratch)
      → All (Works m len v q eval) cs
      → All (λ c. q c ≡ true) cs
      → CacheOk m len v q st
      → st.survivors ≡ rows 0 m p
      → Narrowed (λ row. p row && all_of (λ c. v c row) cs) (select_children eval cs st)
  unfolding select_children
  select_children-Narrowed [] p st h hq ok e =
      (st, refl, ok, e ∙ rows_ext 0 m _ _ (λ i l u. ground arith))
  select_children-Narrowed (c ∷ cs) p st h hq ok e = elim (List-cases st.survivors) [
    | inl none_left ↦ (
      st,
      select-none eval c cs st none_left,
      ok,
      none_left
          ∙ sym (
              rows-false 0 m _ λ i u.
                ground (arith, rows-nil 0 m p (sym e ∙ none_left) i (omega arith) (omega arith))),
    )
    | inr (x, xs, some_left) ↦
        let (mask, st₁, e₁, rep, ok₁, keeps) = h.0 st ok in
        let st₂ : Scratch = record st₁ { survivors = keep mask st₁.survivors } in
        let ok₂ : CacheOk m len v q st₂ = record { sized = ok₁.sized; cached = ok₁.cached } in
        let kept : keep mask st₁.survivors ≡ rows 0 m (λ row. p row && v c row) =
          ap (keep mask) (keeps hq.0 ∙ e)
          ∙ keep-rows mask 0 m p
          ∙ rows_ext 0 m _ _ (λ i l u. ap (◌&&◌ (p i)) (rep.bits i (omega arith))) in
        let (st₃, e₃, ok₃, left) =
          select_children-Narrowed cs (λ row. p row && v c row) st₂ h.1 hq.1 ok₂ kept in
        (
          st₃,
          select-some eval c cs st st₁ x xs mask some_left e₁ ∙ e₃,
          ok₃,
          left ∙ rows_ext 0 m _ _ (λ i l u. ground arith),
        )
  ]

  -- The mask that the path returns, whatever the count of the first child.
  pub narrow-Ran :
      (cs : List ℕ) (p : ℕ → Bool) (first : Mask) (st : Scratch) (b : Bool)
      → All (Works m len v q eval) cs
      → All (λ c. q c ≡ true) cs
      → Represents m p first
      → CacheOk m len v q st
      → b ≢ true
      → Ran m len v q (λ row. p row && all_of (λ c. v c row) cs) b st (narrow eval m cs first st)
  unfolding narrow
  narrow-Ran cs p first st b h hq r ok nb = elim (Bool-cases (count_set_bits first == 0)) [
    | inl z ↦ rw z (
      _,
      st,
      refl,
      Represents-ext m (λ row. false) _ _
          (λ row l. ground (arith, count-zero m p first r (ground arith) row l))
          (zero-Represents m),
      ok,
      λ t. absurd (nb t),
    )
    | inr nz ↦
        let st₁ : Scratch = record st { survivors = collect_set_bits first m } in
        let ok₁ : CacheOk m len v q st₁ = record { sized = ok.sized; cached = ok.cached } in
        let (st₂, e₂, ok₂, left) =
          select_children-Narrowed cs p st₁ h hq ok₁ (collect-rows m p first r) in
        rw nz (
          set_bits st₂.survivors (replicate (bitmask_bytes m) 0),
          st₂,
          rw (e₂, ◌>>=◌),
          rw left (collected m (λ row. p row && all_of (λ c. v c row) cs)),
          ok₂,
          λ t. absurd (nb t),
        )
  ]
