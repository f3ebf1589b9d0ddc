-- ===== src/Kernels/Decide.antt =====
-- Zone maps decide as the kernels do.
use blazerules.Prelude.{
  ℕ, zero, suc, ◌≡◌, refl, sym, ap, ◌∙◌, Bool, true, false, ◌&&◌, List, [], ◌∷◌, none, some, length,
  ltb, arith, replicate, All, some-inj,
}
use blazerules.Bitmask.{Mask, bit_is_set, bitmask_bytes, fill_true}
use blazerules.Bitmask.Rowwise.{bit_is_set-fill_true, bit_is_set-zeros}
use blazerules.Kernels.{
  Elements, CompareOp, op_gt, op_lt, op_gte, op_lte, op_eq, op_neq, scmp, eval_rows, eval_num,
  in_range, eval_range,
}
use blazerules.Kernels.Rows.{passes, bit_is_set-eval_rows}
use blazerules.Kernels.Zones.{
  compute_zone, all_false, all_true, decided, try_zone_numeric, range_false, range_true,
  try_zone_range,
}
use blazerules.Kernels.Bounds.{
  IsOrder, zone_of, zone_of-All, all_false_row, all_true_row, range_false_row, range_true_row,
}

module _ {T : Type 0} (test : T → Bool) where
  passes_same :
      (b : Bool) (vs : List T) (i : ℕ)
      → All (λ v. test v ≡ b) vs
      → passes test vs i ≡ (b && ltb i (length vs))
  passes_same b [] i h = ground arith
  passes_same b (v ∷ vs) zero h =
      h.0 ∙ (let first : ltb 0 (suc (length vs)) ≡ true = ground arith in rw first (ground arith))
  passes_same b (v ∷ vs) (suc i) h = passes_same b vs i h.1 ∙ ground arith

  -- A decision that agrees with the test on every value.
  decided-rows :
      (never always : Bool) (vs : List T) (mask : Mask) (i : ℕ)
      → (never ≡ true → All (λ v. test v ≡ false) vs)
      → (always ≡ true → All (λ v. test v ≡ true) vs)
      → decided never always (length vs) ≡ some mask
      → bit_is_set mask i ≡ bit_is_set (eval_rows test vs none) i
  decided-rows true always vs mask i h k d =
      let e : replicate (bitmask_bytes (length vs)) 0 ≡ mask = some-inj _ _ d in
      ap (λ m. bit_is_set m i) (sym e)
      ∙ bit_is_set-zeros (bitmask_bytes (length vs)) i
      ∙ sym (bit_is_set-eval_rows test vs none i ∙ rw (passes_same false vs i (h refl)) refl)
  decided-rows false true vs mask i h k d =
      let e : fill_true (length vs) ≡ mask = some-inj _ _ d in
      ap (λ m. bit_is_set m i) (sym e)
      ∙ bit_is_set-fill_true (length vs) i
      ∙ sym
          (bit_is_set-eval_rows test vs none i ∙ rw (passes_same true vs i (k refl)) (ground arith))
  decided-rows false false vs mask i h k d = absurd (ground (arith, d))

All_map :
    {T : Type 0} (P Q : T → Type 0) (vs : List T) → ((v : T) → P v → Q v) → All P vs → All Q vs
All_map P Q [] f h = tt
All_map P Q (v ∷ vs) f h = (f v h.0, All_map P Q vs f h.1)

-- An element type of which `double` keeps the order.
pub record IsWidened {T D : Type 0} (e : Elements T) (wide : Elements D) (widen : T → D)
    : Type 0 where
  pub less_lem : (a b : T) → wide.less (widen a) (widen b) ≡ e.less a b
  pub same_lem : (a b : T) → wide.same (widen a) (widen b) ≡ e.same a b

module _ {T D : Type 0} (e : Elements T) (wide : Elements D) (widen : T → D) (cast : D → T)
    (order : IsOrder wide) (widened : IsWidened e wide widen) where
  scmp-widen : (op : CompareOp) (a b : T) → scmp wide op (widen a) (widen b) ≡ scmp e op a b
  scmp-widen op_gt a b = widened.less_lem b a
  scmp-widen op_lt a b = widened.less_lem a b
  scmp-widen op_gte a b = rw (widened.less_lem b a, widened.same_lem a b) refl
  scmp-widen op_lte a b = rw (widened.less_lem a b, widened.same_lem a b) refl
  scmp-widen op_eq a b = widened.same_lem a b
  scmp-widen op_neq a b = rw (widened.same_lem a b) refl

  in_range-widen :
      (incl : Bool) (lo hi a : T)
      → in_range wide incl (widen lo) (widen hi) (widen a) ≡ in_range e incl lo hi a
  in_range-widen true lo hi a = rw (scmp-widen op_gte a lo, scmp-widen op_lte a hi) refl
  in_range-widen false lo hi a = rw (scmp-widen op_gt a lo, scmp-widen op_lt a hi) refl

  -- The same with a constant that is cast and is a value of the element type.
  pub scmp-cast :
      (op : CompareOp) (thr : D) (a : T)
      → widen (cast thr) ≡ thr
      → scmp wide op (widen a) thr ≡ scmp e op a (cast thr)
  scmp-cast op thr a exact = ap (scmp wide op (widen a)) (sym exact) ∙ scmp-widen op a (cast thr)

  pub in_range-cast :
      (incl : Bool) (lo hi : D) (a : T)
      → widen (cast lo) ≡ lo
      → widen (cast hi) ≡ hi
      → in_range wide incl lo hi (widen a) ≡ in_range e incl (cast lo) (cast hi) a
  in_range-cast incl lo hi a low high =
      ap (λ l. in_range wide incl l hi (widen a)) (sym low)
      ∙ ap (λ h. in_range wide incl (widen (cast lo)) h (widen a)) (sym high)
      ∙ in_range-widen incl (cast lo) (cast hi) a

  -- On a column without nulls or NaN, where the threshold is a value of the element type and `double`
  -- keeps the order of that type, a zone map that decides a comparison gives every row the bit that
  -- the kernel gives it.
  pub try_zone_numeric-eval_num :
      (op : CompareOp) (thr : D) (vs : List T) (mask : Mask) (i : ℕ)
      → widen (cast thr) ≡ thr
      → try_zone_numeric wide op thr (compute_zone wide widen vs) (length vs) ≡ some mask
      → bit_is_set mask i ≡ bit_is_set (eval_num e cast op vs none thr) i
  unfolding try_zone_numeric compute_zone eval_num
  try_zone_numeric-eval_num op thr [] mask i exact h = absurd (ground (arith, h))
  try_zone_numeric-eval_num op thr (v ∷ vs) mask i exact h =
      let zone = zone_of wide order widen v vs in
      let bounded = zone_of-All wide order widen v vs in
      decided-rows (λ u. scmp e op u (cast thr)) (all_false wide op thr zone)
        (all_true wide op thr zone) (v ∷ vs) mask i
        (λ no_row.
          All_map _ _ (v ∷ vs)
            (λ u b.
              sym (scmp-cast op thr u exact)
              ∙ all_false_row wide order op thr (widen u) zone b no_row)
            bounded)
        (λ each.
          All_map _ _ (v ∷ vs)
            (λ u b.
              sym (scmp-cast op thr u exact) ∙ all_true_row wide order op thr (widen u) zone b each)
            bounded)
        h

  -- On a column without nulls or NaN, where the ends of a range are values of the element type and
  -- `double` keeps the order of that type, a zone map that decides the range, with its ends or without,
  -- gives every row the bit that the kernel gives it.
  pub try_zone_range-eval_range :
      (incl : Bool) (lo hi : D) (vs : List T) (mask : Mask) (i : ℕ)
      → widen (cast lo) ≡ lo
      → widen (cast hi) ≡ hi
      → try_zone_range wide incl lo hi (compute_zone wide widen vs) (length vs) ≡ some mask
      → bit_is_set mask i ≡ bit_is_set (eval_range e cast incl vs none lo hi) i
  unfolding try_zone_range compute_zone eval_range
  try_zone_range-eval_range incl lo hi [] mask i low high h = absurd (ground (arith, h))
  try_zone_range-eval_range incl lo hi (v ∷ vs) mask i low high h =
      let zone = zone_of wide order widen v vs in
      let bounded = zone_of-All wide order widen v vs in
      decided-rows (in_range e incl (cast lo) (cast hi)) (range_false wide incl lo hi zone)
        (range_true wide incl lo hi zone) (v ∷ vs) mask i
        (λ no_row.
          All_map _ _ (v ∷ vs)
            (λ u b.
              sym (in_range-cast incl lo hi u low high)
              ∙ range_false_row wide order incl lo hi (widen u) zone b no_row)
            bounded)
        (λ each.
          All_map _ _ (v ∷ vs)
            (λ u b.
              sym (in_range-cast incl lo hi u low high)
              ∙ range_true_row wide order incl lo hi (widen u) zone b each)
            bounded)
        h
