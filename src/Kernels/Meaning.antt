-- ===== src/Kernels/Meaning.antt =====
-- What the bit of a row after each kernel means.
use blazerules.Prelude.{
  ℕ, zero, suc, ◌≡◌, ◌↔◌, ◌⊎◌, refl, sym, ap, ◌∙◌, inl, inr, Bool, true, false, not, ◌&&◌, ◌||◌,
  List, [], ◌∷◌, Option, some, get_elem?, ℤ, negsuc, eqb, eqb_refl, eqb→≡, Bool-cases, arith,
  some-inj,
}
use blazerules.Bitmask.{Mask, bit_is_set}
use blazerules.Kernels.{
  Elements, CompareOp, op_gt, op_lt, op_gte, op_lte, op_eq, op_neq, scmp, eval_rows, eval_num,
  in_range, eval_range, in_set, eval_in_dict, eval_not_in_dict, eval_eq_dict,
}
use blazerules.Kernels.Rows.{passes, is_valid, bit_is_set-eval_rows}
use blazerules.Kernels.Bounds.{IsOrder}

-- The comparisons of an order, said with its `<` alone.
abbrev pub compares : {T : Type 0} → Elements T → CompareOp → T → T → Bool
compares e op_gt a b = e.less b a
compares e op_lt a b = e.less a b
compares e op_gte a b = not (e.less a b)
compares e op_lte a b = not (e.less b a)
compares e op_eq a b = not (e.less a b || e.less b a)
compares e op_neq a b = e.less a b || e.less b a

abbrev pub is_between : {T : Type 0} → Elements T → Bool → T → T → T → Bool
is_between e true lo hi v = not (e.less v lo) && not (e.less hi v)
is_between e false lo hi v = e.less lo v && e.less v hi

module _ {T : Type 0} (e : Elements T) (order : IsOrder e) where
  pub scmp-compares : (op : CompareOp) (a b : T) → scmp e op a b ≡ compares e op a b
  scmp-compares op_gt a b = refl
  scmp-compares op_lt a b = refl
  scmp-compares op_gte a b = ground (arith, order.same_lem a b, order.asymmetric a b)
  scmp-compares op_lte a b = ground (arith, order.same_lem a b, order.asymmetric a b)
  scmp-compares op_eq a b = order.same_lem a b
  scmp-compares op_neq a b = ground (arith, order.same_lem a b)

  pub in_range-is_between :
      (incl : Bool) (lo hi v : T) → in_range e incl lo hi v ≡ is_between e incl lo hi v
  in_range-is_between true lo hi v = rw (scmp-compares op_gte v lo, scmp-compares op_lte v hi) refl
  in_range-is_between false lo hi v = refl

pub passes_ext :
    {T : Type 0} (f g : T → Bool) (vs : List T) (i : ℕ)
    → ((v : T) → f v ≡ g v)
    → passes f vs i ≡ passes g vs i
passes_ext f g [] i h = refl
passes_ext f g (v ∷ vs) zero h = h v
passes_ext f g (v ∷ vs) (suc i) h = passes_ext f g vs i h

-- The code of a row, which is there and has a property.
abbrev pub HasCode : (ℤ → Type 0) → List ℤ → ℕ → Type 0
HasCode P d i = (v : ℤ) × (get_elem? d i ≡ some v) × P v

abbrev pub Member : ℤ → List ℤ → Type 0
Member v [] = ⊥
Member v (id ∷ ids) = (v ≡ id) ⊎ Member v ids

Member-in_set : (v : ℤ) (ids : List ℤ) → in_set ids v ≡ true → Member v ids
Member-in_set v [] h = absurd (ground arith)
Member-in_set v (id ∷ ids) h = elim (Bool-cases (eqb v id)) [
  | inl t ↦ inl (eqb→≡ v id t)
  | inr f ↦ inr (Member-in_set v ids (ground (arith, h, f)))
]

in_set-Member : (v : ℤ) (ids : List ℤ) → Member v ids → in_set ids v ≡ true
in_set-Member v [] h = absurd h
in_set-Member v (id ∷ ids) (inl e) = rw (e, eqb_refl id) refl
in_set-Member v (id ∷ ids) (inr m) = let rest = in_set-Member v ids m in ground (arith, rest)

HasCode-passes :
    (P : ℤ → Type 0) (test : ℤ → Bool) (d : List ℤ) (i : ℕ)
    → ((v : ℤ) → test v ≡ true → P v)
    → passes test d i ≡ true
    → HasCode P d i
HasCode-passes P test [] i h t = absurd (ground arith)
HasCode-passes P test (v ∷ d) zero h t = (v, refl, h v t)
HasCode-passes P test (v ∷ d) (suc i) h t = HasCode-passes P test d i h t

passes-HasCode :
    (P : ℤ → Type 0) (test : ℤ → Bool) (d : List ℤ) (i : ℕ)
    → ((v : ℤ) → P v → test v ≡ true)
    → HasCode P d i
    → passes test d i ≡ true
passes-HasCode P test [] i h (v, e, p) = absurd (ground arith)
passes-HasCode P test (w ∷ d) zero h (v, e, p) =
    let same : w ≡ v = some-inj w v e in rw same (h v p)
passes-HasCode P test (w ∷ d) (suc i) h (v, e, p) = passes-HasCode P test d i h (v, e, p)

-- A row has its bit exactly where it is valid and its code has the property.
abbrev pub Selects : Mask → Option Mask → (ℤ → Type 0) → List ℤ → ℕ → Type 0
Selects mask vp P d i = (bit_is_set mask i ≡ true) ↔ (HasCode P d i × (is_valid vp i ≡ true))

selects :
    (P : ℤ → Type 0) (test : ℤ → Bool) (d : List ℤ) (vp : Option Mask) (i : ℕ)
    → ((v : ℤ) → test v ≡ true → P v)
    → ((v : ℤ) → P v → test v ≡ true)
    → Selects (eval_rows test d vp) vp P d i
selects P test d vp i sound complete = (
  λ t.
      let both = sym (bit_is_set-eval_rows test d vp i) ∙ t in
      (HasCode-passes P test d i sound (ground (arith, both)), ground (arith, both)),
  λ (code, valid).
      let found = passes-HasCode P test d i complete code in
      bit_is_set-eval_rows test d vp i ∙ rw (found, valid) refl,
)

not-in_set : (v : ℤ) (ids : List ℤ) → not (in_set ids v) ≡ true → Member v ids → ⊥
not-in_set v ids h m = let there = in_set-Member v ids m in ground (arith, h, there)

in_set-not : (v : ℤ) (ids : List ℤ) → (Member v ids → ⊥) → not (in_set ids v) ≡ true
in_set-not v ids h = elim (Bool-cases (in_set ids v)) [
  | inl t ↦ absurd (h (Member-in_set v ids t))
  | inr f ↦ rw f refl
]

eqb_same : (v id : ℤ) → v ≡ id → eqb v id ≡ true
eqb_same v id e = rw (e, eqb_refl id) refl

-- On an element type whose order has no NaN, the bit of a row after a kernel is set exactly where
-- the row is valid and its value compares as the operator says with the constant cast to the element
-- type, lies in the range of the cast ends, with or without them, or has a code that is among the
-- ids, is not among them, or is the first of them; without ids, the last kernel finds the code -1.
pub kernel_rows :
    {T D : Type 0} (e : Elements T) (cast : D → T)
    → IsOrder e
    → (op : CompareOp) (incl : Bool) (thr lo hi : D) (vs : List T) (d ids : List ℤ) (id : ℤ)
      (vp : Option Mask) (i : ℕ)
    → (bit_is_set (eval_num e cast op vs vp thr) i
        ≡ (passes (λ v. compares e op v (cast thr)) vs i && is_valid vp i))
      × (bit_is_set (eval_range e cast incl vs vp lo hi) i
          ≡ (passes (is_between e incl (cast lo) (cast hi)) vs i && is_valid vp i))
      × Selects (eval_in_dict d vp ids) vp (λ v. Member v ids) d i
      × Selects (eval_not_in_dict d vp ids) vp (λ v. Member v ids → ⊥) d i
      × Selects (eval_eq_dict d vp (id ∷ ids)) vp (λ v. v ≡ id) d i
      × Selects (eval_eq_dict d vp []) vp (λ v. v ≡ negsuc 0) d i
unfolding eval_num eval_range eval_in_dict eval_not_in_dict eval_eq_dict
kernel_rows e cast order op incl thr lo hi vs d ids id vp i = (
  bit_is_set-eval_rows (λ v. scmp e op v (cast thr)) vs vp i
      ∙ ap (λ b. b && is_valid vp i)
          (passes_ext _ _ vs i (λ v. scmp-compares e order op v (cast thr))),
  bit_is_set-eval_rows (in_range e incl (cast lo) (cast hi)) vs vp i
      ∙ ap (λ b. b && is_valid vp i)
          (passes_ext _ _ vs i (in_range-is_between e order incl (cast lo) (cast hi))),
  selects (λ v. Member v ids) (in_set ids) d vp i (λ v. Member-in_set v ids)
      (λ v. in_set-Member v ids),
  selects (λ v. Member v ids → ⊥) (λ v. not (in_set ids v)) d vp i (λ v. not-in_set v ids)
      (λ v. in_set-not v ids),
  selects (λ v. v ≡ id) (λ v. eqb v id) d vp i (λ v. eqb→≡ v id) (λ v. eqb_same v id),
  selects (λ v. v ≡ negsuc 0) (λ v. eqb v (negsuc 0)) d vp i (λ v. eqb→≡ v (negsuc 0))
      (λ v. eqb_same v (negsuc 0)),
)
