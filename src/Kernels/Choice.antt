-- ===== src/Kernels/Choice.antt =====
-- Whether a zone map or the kernel runs, a row has one bit.
use blazerules.Prelude.{
  ℕ, ◌<◌, ◌≡◌, refl, sym, ap, ◌∙◌, ◌⊎◌, inl, inr, Bool, true, false, not, ◌&&◌, Option, none, some,
  ltb, length, Bool-cases, arith,
}
use blazerules.Bitmask.{Mask, bit_is_set}
use blazerules.Kernels.{Elements, scmp, in_range, eval_num, eval_range}
use blazerules.Kernels.Rows.{passes, passes_past, is_valid, bit_is_set-eval_rows}
use blazerules.Kernels.Zones.{ZoneMap, compute_zone, try_zone_numeric, try_zone_range}
use blazerules.Kernels.Bounds.{IsOrder}
use blazerules.Kernels.Meaning.{
  compares, is_between, scmp-compares, in_range-is_between, passes_ext,
}
use blazerules.Kernels.Decide.{
  IsWidened, scmp-cast, in_range-cast, try_zone_numeric-eval_num, try_zone_range-eval_range,
}
use blazerules.Kernels.Predicate.{
  ColView, NumericOp, numeric_predicate, numeric_range_predicate, zone_of_column, or_kernel,
  eval_predicate,
}

-- `GetNullCount` is zero only where every row is valid.
abbrev pub CountsNulls : {T : Type 0} → ColView T → Type 0
CountsNulls col =
    col.has_nulls ≡ false → (i : ℕ) → i < length col.values → is_valid col.validity i ≡ true

-- What a predicate says of a number.
abbrev pub satisfies : {D : Type 0} → Elements D → NumericOp D → D → Bool
satisfies wide (numeric_predicate op thr) x = compares wide op x thr
satisfies wide (numeric_range_predicate incl lo hi) x = is_between wide incl lo hi x

-- The thresholds are values of the element type, which the cast keeps.
abbrev pub IsExact : {T D : Type 0} → (T → D) → (D → T) → NumericOp D → Type 0
IsExact widen cast (numeric_predicate op thr) = widen (cast thr) ≡ thr
IsExact widen cast (numeric_range_predicate incl lo hi) =
    (widen (cast lo) ≡ lo) × (widen (cast hi) ≡ hi)

module _ {T D : Type 0} (e : Elements T) (wide : Elements D) (widen : T → D) (cast : D → T)
    (order : IsOrder wide) (widened : IsWidened e wide widen) where
  or_kernel-row :
      (zone : Option Mask) (kernel : Mask) (b : Bool) (i : ℕ)
      → ((mask : Mask) → zone ≡ some mask → bit_is_set mask i ≡ b)
      → bit_is_set kernel i ≡ b
      → bit_is_set (or_kernel zone kernel) i ≡ b
  or_kernel-row none kernel b i h k = k
  or_kernel-row (some mask) kernel b i h k = h mask refl

  -- Without nulls, only the value counts.
  passes_valid :
      (test : T → Bool) (col : ColView T) (i : ℕ)
      → CountsNulls col
      → col.has_nulls ≡ false
      → passes test col.values i ≡ (passes test col.values i && is_valid col.validity i)
  passes_valid test col i counts h = elim (Bool-cases (ltb i (length col.values))) [
    | inl t ↦ let valid = counts h i (ground arith) in rw valid (ground arith)
    | inr f ↦ let past = passes_past test col.values i (ground arith) in rw past refl
  ]

  zone_of_column-cases :
      (n : ℕ) (col : ColView T)
      → ((col.has_nulls ≡ false)
          × (zone_of_column e wide widen cast n col ≡ compute_zone wide widen col.values))
        ⊎ (zone_of_column e wide widen cast n col ≡ none)
  unfolding zone_of_column
  zone_of_column-cases n col = elim (Bool-cases (ltb 1 n && not col.has_nulls)) [
    | inl t ↦ inl (ground (arith, t), rw t refl)
    | inr f ↦ inr (rw f refl)
  ]

  zone_row :
      (test : T → Bool) (n : ℕ) (col : ColView T) (kernel : Mask)
      (try_zone : Option (ZoneMap D) → Option Mask) (i : ℕ)
      → CountsNulls col
      → try_zone none ≡ none
      → ((mask : Mask)
          → try_zone (compute_zone wide widen col.values) ≡ some mask
          → bit_is_set mask i ≡ passes test col.values i)
      → bit_is_set kernel i ≡ (passes test col.values i && is_valid col.validity i)
      → bit_is_set (or_kernel (try_zone (zone_of_column e wide widen cast n col)) kernel) i
        ≡ (passes test col.values i && is_valid col.validity i)
  zone_row test n col kernel try_zone i counts never zoned run = elim (zone_of_column-cases n col) [
    | inl (no_nulls, same) ↦
        or_kernel-row (try_zone (zone_of_column e wide widen cast n col)) kernel _ i
          (λ mask h.
            zoned mask (sym (ap try_zone same) ∙ h) ∙ passes_valid test col i counts no_nulls)
          run
    | inr same ↦
        or_kernel-row (try_zone (zone_of_column e wide widen cast n col)) kernel _ i
          (λ mask h.
            let nothing : none ≡ some mask = sym never ∙ sym (ap try_zone same) ∙ h in
            absurd (ground (arith, nothing)))
          run
  ]

  -- On a morsel whose null count is right, without NaN, with thresholds that are values of the element
  -- type, and where `double` keeps the order of that type (not so for 64-bit integers beyond 2 ^ 53),
  -- `eval_predicate` sets the bit of a row exactly where the row is valid and its value, as a `double`,
  -- compares with the threshold as the operator says or lies in the range, whether a zone map decides
  -- or the kernel runs.
  pub eval_predicate-rows :
      (op : NumericOp D) (predicate_count : ℕ) (col : ColView T) (i : ℕ)
      → CountsNulls col
      → IsExact widen cast op
      → bit_is_set (eval_predicate e wide widen cast op predicate_count col) i
        ≡ (passes (λ v. satisfies wide op (widen v)) col.values i && is_valid col.validity i)
  unfolding eval_predicate eval_num eval_range try_zone_numeric try_zone_range
  eval_predicate-rows (numeric_predicate op thr) n col i counts exact =
      let test : T → Bool = λ v. scmp e op v (cast thr) in
      zone_row test n col (eval_num e cast op col.values col.validity thr)
        (λ z. try_zone_numeric wide op thr z (length col.values)) i counts refl
        (λ mask h.
          try_zone_numeric-eval_num e wide widen cast order widened op thr col.values mask i exact h
          ∙ bit_is_set-eval_rows test col.values none i
          ∙ ground arith)
        (bit_is_set-eval_rows test col.values col.validity i)
      ∙ ap (λ b. b && is_valid col.validity i)
          (passes_ext test (λ v. compares wide op (widen v) thr) col.values i
            (λ v.
              sym (scmp-cast e wide widen cast order widened op thr v exact)
              ∙ scmp-compares wide order op (widen v) thr))
  eval_predicate-rows (numeric_range_predicate incl lo hi) n col i counts (low, high) =
      let test : T → Bool = in_range e incl (cast lo) (cast hi) in
      zone_row test n col (eval_range e cast incl col.values col.validity lo hi)
        (λ z. try_zone_range wide incl lo hi z (length col.values)) i counts refl
        (λ mask h.
          try_zone_range-eval_range e wide widen cast order widened incl lo hi col.values mask i low
            high h
          ∙ bit_is_set-eval_rows test col.values none i
          ∙ ground arith)
        (bit_is_set-eval_rows test col.values col.validity i)
      ∙ ap (λ b. b && is_valid col.validity i)
          (passes_ext test (λ v. is_between wide incl lo hi (widen v)) col.values i
            (λ v.
              sym (in_range-cast e wide widen cast order widened incl lo hi v low high)
              ∙ in_range-is_between wide order incl lo hi (widen v)))
