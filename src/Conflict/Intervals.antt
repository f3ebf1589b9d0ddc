-- ===== src/Conflict/Intervals.antt =====
-- The values that an interval has.
use blazerules.Prelude.{
  ◌≡◌, refl, sym, ap, ◌∙◌, ◌⊎◌, inl, inr, Bool, true, false, not, ◌&&◌, ◌||◌, arith, Bool-cases,
}
use blazerules.Conflict.{Numbers, Interval, is_empty, intersect, contained, pick}

-- A strict total order, with nothing beyond the infinities.
pub record IsOrdered {D : Type 0} (numbers : Numbers D) : Type 0 where
  pub irreflexive : (a : D) → numbers.less a a ≡ false
  pub transitive :
      (a b c : D) → numbers.less a b ≡ true → numbers.less b c ≡ true → numbers.less a c ≡ true
  pub total : (a b : D) → numbers.less a b ≡ false → numbers.less b a ≡ false → a ≡ b
  pub top : (a : D) → numbers.less numbers.infinity a ≡ false
  pub bottom : (a : D) → numbers.less a numbers.neg_infinity ≡ false

abbrev pub beyond : {D : Type 0} → (D → D → Bool) → D → Bool → D → Bool
beyond before lo incl x = before lo x || (incl && not (before x lo))

abbrev beyond_pair : {D : Type 0} → (D → D → Bool) → D × Bool → D → Bool
beyond_pair before (lo, incl) x = beyond before lo incl x

-- What the proofs use of an order or its opposite.
record IsStrict {D : Type 0} (before : D → D → Bool) : Type 0 where
  irreflexive : (a : D) → before a a ≡ false
  transitive : (a b c : D) → before a b ≡ true → before b c ≡ true → before a c ≡ true
  total : (a b : D) → before a b ≡ false → before b a ≡ false → a ≡ b

-- A bound, seen from one side: `before` is the order or its opposite.
module _ {D : Type 0} (before : D → D → Bool) (s : IsStrict before) where
  asymmetric : (a b : D) → before a b ≡ true → before b a ≡ false
  asymmetric a b h = elim (Bool-cases (before b a)) [
    | inl t ↦ absurd (
        let loop = s.transitive a b a h t in
        let none = s.irreflexive a in ground (arith, loop, none))
    | inr f ↦ f
  ]

  -- From a stricter bound to a looser one.
  looser :
      (a b x : D) (i j : Bool)
      → before b a ≡ true
      → beyond before a i x ≡ true
      → beyond before b j x ≡ true
  looser a b x i j h k = elim (Bool-cases (before a x)) [
    | inl t ↦ let e = s.transitive b a x h t in ground (arith, e)
    | inr f ↦ elim (Bool-cases (before x a)) [
      | inl t ↦ absurd (ground (arith, f, t, k))
      | inr f' ↦
          let same : a ≡ x = s.total a x f f' in
          let e : before b x ≡ true = rw (sym same) h in ground (arith, e)
    ]
  ]

  bool_both : (p q : Bool) → (p ≡ true → q ≡ true) → p ≡ (p && q)
  bool_both true q h = sym (h refl)
  bool_both false q h = refl

  bool_swap : (p q : Bool) → (q ≡ true → p ≡ true) → q ≡ (p && q)
  bool_swap p true h = sym (ap (λ b. b && true) (h refl))
  bool_swap true false h = refl
  bool_swap false false h = refl

  beyond-pick :
      (a b x : D) (i j : Bool)
      → beyond_pair before (pick before a i b j) x ≡ (beyond before a i x && beyond before b j x)
  beyond-pick a b x i j = elim (Bool-cases (before b a)) [
    | inl t ↦ rw t (bool_both (beyond before a i x) (beyond before b j x) (looser a b x i j t))
    | inr f ↦ elim (Bool-cases (before a b)) [
      | inl t ↦
          rw (f, t) (bool_swap (beyond before a i x) (beyond before b j x) (looser b a x j i t))
      | inr f' ↦ let same : a ≡ b = s.total a b f' f in rw (f, f', same) (ground arith)
    ]
  ]

  -- A bound that is stricter, or the same and not wider.
  beyond-contained :
      (a b x : D) (i j : Bool)
      → (before b a || ((not (before a b) && not (before b a)) && (j || not i))) ≡ true
      → beyond before a i x ≡ true
      → beyond before b j x ≡ true
  beyond-contained a b x i j h k = elim (Bool-cases (before b a)) [
    | inl t ↦ looser a b x i j t k
    | inr f ↦
        let same : a ≡ b = s.total a b (ground (arith, h, f)) f in
        let k' : beyond before b i x ≡ true = rw same at k in ground (arith, h, f, k')
  ]

  -- A value at or beyond a bound is not before it.
  beyond-before : (a x : D) (i : Bool) → beyond before a i x ≡ true → before x a ≡ false
  beyond-before a x i k = elim (Bool-cases (before a x)) [
    | inl t ↦ asymmetric a x t
    | inr f ↦ ground (arith, k, f)
  ]

  -- No value is beyond `lo` and not beyond a bound that is before `lo`.
  beyond-apart :
      (lo hi x : D) (i : Bool)
      → before hi lo ≡ true
      → beyond before lo i x ≡ true
      → before hi x ≡ true
  beyond-apart lo hi x i h k = elim (Bool-cases (before lo x)) [
    | inl t ↦ s.transitive hi lo x h t
    | inr f ↦ let same : lo ≡ x = s.total lo x f (beyond-before lo x i k) in rw same at h
  ]

module _ {D : Type 0} (numbers : Numbers D) where
  abbrev after : D → D → Bool
  after a b = numbers.less b a

  abbrev above : D → Interval D → Bool
  above x iv = beyond numbers.less iv.lo iv.lo_incl x

  abbrev below : D → Interval D → Bool
  below x iv = beyond after iv.hi iv.hi_incl x

  abbrev pub inside : D → Interval D → Bool
  inside x iv = above x iv && below x iv

  module _ (o : IsOrdered numbers) where
    lower : IsStrict numbers.less
    lower = record { irreflexive = o.irreflexive; transitive = o.transitive; total = o.total }

    upper : IsStrict after
    upper = record {
      irreflexive = o.irreflexive;
      transitive = λ p q r e f. o.transitive r q p f e;
      total = λ p q e f. o.total p q f e;
    }

    and_and : (p q r t u v : Bool) → p ≡ (q && r) → t ≡ (u && v) → (p && t) ≡ ((q && u) && (r && v))
    and_and p q r t u v e f = ground (arith, e, f)

    inside-intersect :
        (x : D) (a b : Interval D) → inside x (intersect numbers a b) ≡ (inside x a && inside x b)
    unfolding intersect
    inside-intersect x a b =
        and_and _ (above x a) (above x b) _ (below x a) (below x b)
          (beyond-pick numbers.less lower a.lo b.lo x a.lo_incl b.lo_incl)
          (beyond-pick after upper a.hi b.hi x a.hi_incl b.hi_incl)

    and_left : (p q : Bool) → (p && q) ≡ true → p ≡ true
    and_left p q h = ground (arith, h)

    and_right : (p q : Bool) → (p && q) ≡ true → q ≡ true
    and_right p q h = ground (arith, h)

    empty_cases :
        (iv : Interval D)
        → is_empty numbers iv ≡ true
        → (numbers.less iv.hi iv.lo ≡ true)
          ⊎ ((iv.lo ≡ iv.hi) × ((iv.lo_incl && iv.hi_incl) ≡ false))
    unfolding is_empty
    empty_cases iv h = elim (Bool-cases (numbers.less iv.hi iv.lo)) [
      | inl t ↦ inl t
      | inr f ↦ inr (o.total iv.lo iv.hi (ground (arith, h, f)) f, ground (arith, h, f))
    ]

    inside-is_empty :
        (x : D) (iv : Interval D) → is_empty numbers iv ≡ true → inside x iv ≡ true → ⊥
    inside-is_empty x iv h t =
        let l = and_left (above x iv) (below x iv) t in
        let u = and_right (above x iv) (below x iv) t in
        let not_above : numbers.less iv.hi x ≡ false =
          beyond-before after upper iv.hi x iv.hi_incl u in
        elim (empty_cases iv h) [
          | inl e ↦
              let apart = beyond-apart numbers.less lower iv.lo iv.hi x iv.lo_incl e l in
              ground (arith, apart, not_above)
          | inr (e, strict) ↦
              let l' : beyond numbers.less iv.hi iv.lo_incl x ≡ true = rw e at l in
              ground (arith, l', u, strict, not_above)
        ]

    abbrev stricter_lo : Interval D → Interval D → Bool
    stricter_lo a b =
        numbers.less b.lo a.lo
        || ((not (numbers.less a.lo b.lo) && not (numbers.less b.lo a.lo))
            && (b.lo_incl || not a.lo_incl))

    abbrev stricter_hi : Interval D → Interval D → Bool
    stricter_hi a b =
        numbers.less a.hi b.hi
        || ((not (numbers.less a.hi b.hi) && not (numbers.less b.hi a.hi))
            && (b.hi_incl || not a.hi_incl))

    swap_same :
        (a b : Interval D)
        → stricter_hi a b ≡ true
        → (after b.hi a.hi
            || ((not (after a.hi b.hi) && not (after b.hi a.hi)) && (b.hi_incl || not a.hi_incl)))
          ≡ true
    swap_same a b h = ground (arith, h)

    inside-contained :
        (x : D) (a b : Interval D)
        → contained numbers a b ≡ true
        → inside x a ≡ true
        → inside x b ≡ true
    unfolding contained
    inside-contained x a b h k =
        let l : above x b ≡ true =
          beyond-contained numbers.less lower a.lo b.lo x a.lo_incl b.lo_incl
            (and_left _ (stricter_hi a b) h) (and_left (above x a) (below x a) k) in
        let u : below x b ≡ true =
          beyond-contained after upper a.hi b.hi x a.hi_incl b.hi_incl
            (swap_same a b (and_right (stricter_lo a b) _ h))
            (and_right (above x a) (below x a) k) in
        rw (l, u) refl

    -- The operations on intervals are those on the sets of their values: the intersection has the
    -- values that both intervals have, an empty interval has none, and an interval that is contained
    -- in another has no value that the other has not.
    pub intervals_lem :
        (x : D) (a b : Interval D)
        → (inside x (intersect numbers a b) ≡ (inside x a && inside x b))
          × (is_empty numbers a ≡ true → inside x a ≡ true → ⊥)
          × (contained numbers a b ≡ true → inside x a ≡ true → inside x b ≡ true)
    intervals_lem x a b = (inside-intersect x a b, inside-is_empty x a, inside-contained x a b)

    both_true : (p q r : Bool) → p ≡ (q && r) → q ≡ true → r ≡ true → p ≡ true
    both_true p q r e h k = e ∙ ap (λ b. b && r) h ∙ k

    -- Two intervals that share a value.
    pub intersect-shared :
        (x : D) (a b : Interval D)
        → inside x a ≡ true
        → inside x b ≡ true
        → (inside x (intersect numbers a b) ≡ true)
          × (is_empty numbers (intersect numbers a b) ≡ false)
    intersect-shared x a b h k =
        let both =
          both_true (inside x (intersect numbers a b)) (inside x a) (inside x b)
            (inside-intersect x a b) h k in
        (
          both,
          elim (Bool-cases (is_empty numbers (intersect numbers a b))) [
            | inl t ↦ absurd (inside-is_empty x (intersect numbers a b) t both)
            | inr f ↦ f
          ],
        )
