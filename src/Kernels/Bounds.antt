-- ===== src/Kernels/Bounds.antt =====
-- What the ends of a zone say of the values of its morsel.
use blazerules.Prelude.{
  ◌≡◌, inl, inr, Bool, true, false, not, ◌&&◌, ◌||◌, List, [], ◌∷◌, Bool-cases, arith, All,
}
use blazerules.Kernels.{
  Elements, CompareOp, op_gt, op_lt, op_gte, op_lte, op_eq, op_neq, scmp, in_range,
}
use blazerules.Kernels.Zones.{
  ZoneMap, scan_zone, std_min, std_max, all_false, all_true, range_false, range_true,
}

-- The order of numbers without NaN, where two that are not less than one another are the same.
pub record IsOrder {D : Type 0} (e : Elements D) : Type 0 where
  pub asymmetric : (a b : D) → not (e.less a b && e.less b a) ≡ true
  pub splits : (a b c : D) → (not (e.less a c) || (e.less a b || e.less b c)) ≡ true
  pub same_lem : (a b : D) → e.same a b ≡ not (e.less a b || e.less b a)

module _ {D : Type 0} (e : Elements D) (order : IsOrder e) where
  -- A number is between the ends of a zone.
  abbrev pub Bounds : ZoneMap D → D → Type 0
  Bounds zone w = (e.less w zone.min_value ≡ false) × (e.less zone.max_value w ≡ false)

  pub all_false_row :
      (op : CompareOp) (t w : D) (zone : ZoneMap D)
      → Bounds zone w
      → all_false e op t zone ≡ true
      → scmp e op w t ≡ false
  all_false_row op_gt t w zone (lo, hi) h = ground (
    arith,
    h,
    lo,
    hi,
    order.same_lem zone.max_value t,
    order.asymmetric zone.max_value t,
    order.splits t zone.max_value w,
  )
  all_false_row op_gte t w zone (lo, hi) h =
      ground (
        arith,
        h,
        lo,
        hi,
        order.splits zone.max_value w t,
        order.asymmetric w t,
        order.same_lem w t,
      )
  all_false_row op_lt t w zone (lo, hi) h = ground (
    arith,
    h,
    lo,
    hi,
    order.same_lem zone.min_value t,
    order.asymmetric zone.min_value t,
    order.splits w zone.min_value t,
  )
  all_false_row op_lte t w zone (lo, hi) h =
      ground (
        arith,
        h,
        lo,
        hi,
        order.splits t w zone.min_value,
        order.asymmetric w t,
        order.same_lem w t,
      )
  all_false_row op_eq t w zone (lo, hi) h = ground (
    arith,
    h,
    lo,
    hi,
    order.splits t w zone.min_value,
    order.splits zone.max_value w t,
    order.same_lem w t,
  )
  all_false_row op_neq t w zone (lo, hi) h = ground (
    arith,
    h,
    lo,
    hi,
    order.same_lem zone.min_value t,
    order.same_lem zone.max_value t,
    order.same_lem w t,
    order.splits w zone.min_value t,
    order.splits t zone.max_value w,
  )

  pub all_true_row :
      (op : CompareOp) (t w : D) (zone : ZoneMap D)
      → Bounds zone w
      → all_true e op t zone ≡ true
      → scmp e op w t ≡ true
  all_true_row op_gt t w zone (lo, hi) h =
      ground (arith, h, lo, hi, order.splits t w zone.min_value)
  all_true_row op_gte t w zone (lo, hi) h = ground (
    arith,
    h,
    lo,
    hi,
    order.same_lem zone.min_value t,
    order.asymmetric zone.min_value t,
    order.splits w zone.min_value t,
    order.same_lem w t,
  )
  all_true_row op_lt t w zone (lo, hi) h =
      ground (arith, h, lo, hi, order.splits zone.max_value w t)
  all_true_row op_lte t w zone (lo, hi) h = ground (
    arith,
    h,
    lo,
    hi,
    order.same_lem zone.max_value t,
    order.asymmetric zone.max_value t,
    order.splits t zone.max_value w,
    order.same_lem w t,
  )
  all_true_row op_neq t w zone (lo, hi) h = ground (
    arith,
    h,
    lo,
    hi,
    order.splits t w zone.min_value,
    order.splits zone.max_value w t,
    order.same_lem w t,
  )
  all_true_row op_eq t w zone (lo, hi) h = absurd (ground arith)

  pub range_false_row :
      (incl : Bool) (lo hi w : D) (zone : ZoneMap D)
      → Bounds zone w
      → range_false e incl lo hi zone ≡ true
      → in_range e incl lo hi w ≡ false
  range_false_row true lo hi w zone bounds h = elim (Bool-cases (all_false e op_gte lo zone)) [
    | inl t ↦ let row = all_false_row op_gte lo w zone bounds t in ground (arith, row)
    | inr f ↦
        let past : all_false e op_lte hi zone ≡ true = ground (arith, f, h) in
        let row = all_false_row op_lte hi w zone bounds past in ground (arith, row)
  ]
  range_false_row false lo hi w zone bounds h = elim (Bool-cases (all_false e op_gt lo zone)) [
    | inl t ↦ let row = all_false_row op_gt lo w zone bounds t in ground (arith, row)
    | inr f ↦
        let past : all_false e op_lt hi zone ≡ true = ground (arith, f, h) in
        let row = all_false_row op_lt hi w zone bounds past in ground (arith, row)
  ]

  pub range_true_row :
      (incl : Bool) (lo hi w : D) (zone : ZoneMap D)
      → Bounds zone w
      → range_true e incl lo hi zone ≡ true
      → in_range e incl lo hi w ≡ true
  range_true_row true lo hi w zone bounds h =
      let first = all_true_row op_gte lo w zone bounds (ground (arith, h)) in
      let last = all_true_row op_lte hi w zone bounds (ground (arith, h)) in
      ground (arith, first, last)
  range_true_row false lo hi w zone bounds h =
      let first = all_true_row op_gt lo w zone bounds (ground (arith, h)) in
      let last = all_true_row op_lt hi w zone bounds (ground (arith, h)) in
      ground (arith, first, last)

  -- A zone that holds another.
  abbrev Wider : ZoneMap D → ZoneMap D → Type 0
  Wider zone zone' =
      (e.less zone.min_value zone'.min_value ≡ false)
      × (e.less zone'.max_value zone.max_value ≡ false)

  Wider-Bounds :
      (zone zone' : ZoneMap D) (w : D) → Wider zone zone' → Bounds zone w → Bounds zone' w
  Wider-Bounds zone zone' w (lo, hi) (low, high) = (
    ground (arith, lo, low, order.splits w zone.min_value zone'.min_value),
    ground (arith, hi, high, order.splits zone'.max_value zone.max_value w),
  )

  Wider-trans : (a b c : ZoneMap D) → Wider a b → Wider b c → Wider a c
  Wider-trans a b c (lo, hi) (low, high) = (
    ground (arith, lo, low, order.splits a.min_value b.min_value c.min_value),
    ground (arith, hi, high, order.splits c.max_value b.max_value a.max_value),
  )

  irreflexive : (a : D) → e.less a a ≡ false
  irreflexive a = ground (arith, order.asymmetric a a)

  module _ {T : Type 0} (widen : T → D) where
    abbrev add_value : ZoneMap D → T → ZoneMap D
    add_value zone v = record {
      min_value = std_min e widen zone.min_value (widen v);
      max_value = std_max e widen zone.max_value (widen v);
    }

    add_value-Wider : (zone : ZoneMap D) (v : T) → Wider zone (add_value zone v)
    add_value-Wider zone v =
        let w = widen v in
        (
          ground (arith, order.asymmetric zone.min_value w, irreflexive zone.min_value),
          ground (arith, order.asymmetric zone.max_value w, irreflexive zone.max_value),
        )

    add_value-Bounds : (zone : ZoneMap D) (v : T) → Bounds (add_value zone v) (widen v)
    add_value-Bounds zone v =
        let w = widen v in (ground (arith, irreflexive w), ground (arith, irreflexive w))

    scan_zone-Wider : (zone : ZoneMap D) (vs : List T) → Wider zone (scan_zone e widen zone vs)
    unfolding scan_zone
    scan_zone-Wider zone [] = (irreflexive zone.min_value, irreflexive zone.max_value)
    scan_zone-Wider zone (v ∷ vs) =
        Wider-trans zone (add_value zone v) (scan_zone e widen (add_value zone v) vs)
          (add_value-Wider zone v) (scan_zone-Wider (add_value zone v) vs)

    scan_zone-All :
        (zone : ZoneMap D) (vs : List T)
        → All (λ v. Bounds (scan_zone e widen zone vs) (widen v)) vs
    unfolding scan_zone
    scan_zone-All zone [] = tt
    scan_zone-All zone (v ∷ vs) =
        let next = add_value zone v in
        (
          Wider-Bounds next (scan_zone e widen next vs) (widen v) (scan_zone-Wider next vs)
              (add_value-Bounds zone v),
          scan_zone-All next vs,
        )

    abbrev pub zone_of : T → List T → ZoneMap D
    zone_of v vs = scan_zone e widen (record { min_value = widen v; max_value = widen v }) vs

    pub zone_of-All : (v : T) (vs : List T) → All (λ u. Bounds (zone_of v vs) (widen u)) (v ∷ vs)
    zone_of-All v vs =
        let start : ZoneMap D = record { min_value = widen v; max_value = widen v } in
        let one : Bounds start (widen v) = (irreflexive (widen v), irreflexive (widen v)) in
        (
          Wider-Bounds start (zone_of v vs) (widen v) (scan_zone-Wider start vs) one,
          scan_zone-All start vs,
        )
