-- ===== src/Conflict/Collect.antt =====
-- What the constraints of a rule say of a row that satisfies its condition.
use blazerules.Prelude.{
  ◌≡◌, sym, ap, ◌∙◌, inl, inr, Bool, true, false, ◌||◌, List, [], ◌∷◌, some, Text, text_eq,
  text_eq→≡, find, arith, All, Bool-cases, some-inj, if_both, option_both,
}
use blazerules.Compile.{
  OpType, Kind, Leaf, Condition, leaf, conjunction, disjunction, negation, Conditions, nil, cons,
}
use blazerules.Compile.Meaning.{meaning, meaning_all}
use blazerules.Conflict.{
  Numbers, Interval, Operands, RuleConstraints, text_less, put, mem, insert, insert_all, from_op,
  intersect, add_numeric, is_including, range, add_values, collect_categorical, collect_leaf,
  collect, collect_all,
}
use blazerules.Conflict.Intervals.{IsOrdered, inside, intersect-shared}

-- What holds of every entry, after a write and at a lookup.
All-put :
    {V : Type 0} (P : Text × V → Type 0) (k : Text) (v : V) (m : List (Text × V))
    → P (k, v)
    → All P m
    → All P (put k v m)
unfolding put
All-put P k v [] h a = (h, tt)
All-put P k v ((j, w) ∷ m) h a =
    if_both (All P) (text_eq j k) _ _ (λ e. (h, a.1))
      (λ e. if_both (All P) (text_less k j) _ _ (λ e'. (h, a)) (λ e'. (a.0, All-put P k v m h a.1)))

pub All-find :
    {V : Type 0} (P : Text × V → Type 0) (k : Text) (v : V) (m : List (Text × V))
    → All P m
    → find k m ≡ some v
    → P (k, v)
All-find P k v [] a h = absurd (ground arith)
All-find P k v ((j, w) ∷ m) a h = elim (Bool-cases (text_eq j k)) [
  | inl t ↦ let same : w ≡ v = some-inj w v (rw t at h) in rw (sym (text_eq→≡ j k t), sym same) a.0
  | inr n ↦ All-find P k v m a.1 (rw n at h)
]

mem-insert : (x y : Text) (s : List Text) → mem x s ≡ true → mem x (insert y s) ≡ true
mem-insert x y s h = if_both (λ r. mem x r ≡ true) (mem y s) _ _ (λ e. h) (λ e. ground (arith, h))

mem-insert_self : (x y : Text) (s : List Text) → text_eq y x ≡ true → mem x (insert y s) ≡ true
mem-insert_self x y s t =
    if_both (λ r. mem x r ≡ true) (mem y s) _ _
      (λ e. let same : y ≡ x = text_eq→≡ y x t in rw same at e) (λ e. ground (arith, t))

mem-insert_all_old : (x : Text) (xs s : List Text) → mem x s ≡ true → mem x (insert_all xs s) ≡ true
unfolding insert_all
mem-insert_all_old x [] s h = h
mem-insert_all_old x (y ∷ ys) s h = mem-insert_all_old x ys (insert y s) (mem-insert x y s h)

mem-insert_all : (x : Text) (xs s : List Text) → mem x xs ≡ true → mem x (insert_all xs s) ≡ true
unfolding insert_all
mem-insert_all x [] s h = absurd (ground arith)
mem-insert_all x (y ∷ ys) s h = elim (Bool-cases (text_eq y x)) [
  | inl t ↦ mem-insert_all_old x ys (insert y s) (mem-insert_self x y s t)
  | inr n ↦ mem-insert_all x ys (insert y s) (ground (arith, h, n))
]

module _ {D : Type 0} (numbers : Numbers D) where
  -- What a comparison means.
  abbrev pub NumericSat : OpType → D → D → Type 0
  NumericSat OpType.gt x v = numbers.less v x ≡ true
  NumericSat OpType.gte x v = numbers.less x v ≡ false
  NumericSat OpType.less_than x v = numbers.less x v ≡ true
  NumericSat OpType.lte x v = numbers.less v x ≡ false
  NumericSat OpType.eq x v = x ≡ v
  NumericSat _ x v = Unit {0}

  abbrev pub RangeSat : Bool → D → D → D → Type 0
  RangeSat true x l u = (numbers.less x l ≡ false) × (numbers.less u x ≡ false)
  RangeSat false x l u = (numbers.less l x ≡ true) × (numbers.less x u ≡ true)

  abbrev pub ValuesSat : OpType → Text → List Text → Type 0
  ValuesSat OpType.in_list t values = mem t values ≡ true
  ValuesSat OpType.eq t values = mem t values ≡ true
  ValuesSat _ t values = Unit {0}

  abbrev pub LeafSat : (Text → D) → (Text → Text) → Kind → OpType → Operands D → Type 0
  LeafSat value text Kind.numeric op x = NumericSat op (value x.field) x.threshold
  LeafSat value text Kind.numeric_range op x =
      RangeSat (is_including op) (value x.field) x.lower x.upper
  LeafSat value text Kind.categorical op x = ValuesSat op (text x.field) x.values
  LeafSat value text _ op x = Unit {0}

  -- A predicate that holds for a row says of its fields what its operator means.
  abbrev pub Respects : (Text → D) → (Text → Text) → (Leaf (Operands D) → Bool) → Type 0
  Respects value text holds =
      (l : Leaf (Operands D)) → holds l ≡ true → LeafSat value text l.kind l.op l.operands

  pub record Fits (value : Text → D) (text : Text → Text) (rc : RuleConstraints D) : Type 0 where
    pub numeric : All (λ e. inside numbers (value e.0) e.1 ≡ true) rc.numeric
    pub sets : All (λ e. mem (text e.0) e.1 ≡ true) rc.in_sets
    pub alive : rc.dead ≡ false

  module _ (o : IsOrdered numbers) (value : Text → D) (text : Text → Text) where
    from_op-inside :
        (op : OpType) (x v : D) → NumericSat op x v → inside numbers x (from_op numbers op v) ≡ true
    unfolding from_op
    from_op-inside OpType.gt x v h = ground (arith, h, o.top x, o.bottom x)
    from_op-inside OpType.gte x v h = ground (arith, h, o.top x, o.bottom x)
    from_op-inside OpType.less_than x v h = ground (arith, h, o.top x, o.bottom x)
    from_op-inside OpType.lte x v h = ground (arith, h, o.top x, o.bottom x)
    from_op-inside OpType.eq x v h = rw h (ground (arith, o.irreflexive v))
    from_op-inside _ x v h = ground (arith, o.top x, o.bottom x)

    range-inside :
        (x : Operands D) (incl : Bool) (v : D)
        → RangeSat incl v x.lower x.upper
        → inside numbers v (range numbers x incl) ≡ true
    range-inside x true v h = ground (arith, h.0, h.1)
    range-inside x false v h = ground (arith, h.0, h.1)

    -- Another interval that has the value of a field.
    add_numeric-Fits :
        (f : Text) (iv : Interval D) (rc : RuleConstraints D)
        → inside numbers (value f) iv ≡ true
        → Fits value text rc
        → Fits value text (add_numeric numbers f iv rc)
    unfolding add_numeric
    add_numeric-Fits f iv rc h t =
        option_both (Fits value text) (find f rc.numeric) _ _
          (λ e. record {
            numeric =
                All-put (λ e. inside numbers (value e.0) e.1 ≡ true) f iv rc.numeric h t.numeric;
            sets = t.sets;
            alive = t.alive;
          })
          (λ old e.
            let was =
              All-find (λ e. inside numbers (value e.0) e.1 ≡ true) f old rc.numeric t.numeric e in
            let (now, full) = intersect-shared numbers o (value f) old iv was h in
            record {
              numeric =
                  All-put (λ e. inside numbers (value e.0) e.1 ≡ true) f (intersect numbers old iv)
                    rc.numeric now t.numeric;
              sets = t.sets;
              alive = ap (λ b. b || rc.dead) full ∙ t.alive;
            })

    add_values-Fits :
        (x : Operands D) (rc : RuleConstraints D)
        → mem (text x.field) x.values ≡ true
        → Fits value text rc
        → Fits value text (add_values numbers x rc)
    unfolding add_values
    add_values-Fits x rc h t =
        option_both (Fits value text) (find x.field rc.in_sets) _ _ (λ e. wrote []) (λ s e. wrote s)
      where
        wrote :
            (s : List Text)
            → Fits value text
                (record rc { in_sets = put x.field (insert_all x.values s) rc.in_sets })
        wrote s = record {
          numeric = t.numeric;
          sets =
              All-put (λ e. mem (text e.0) e.1 ≡ true) x.field (insert_all x.values s) rc.in_sets
                (mem-insert_all (text x.field) x.values s h) t.sets;
          alive = t.alive;
        }

    collect_leaf-Fits :
        (kind : Kind) (op : OpType) (x : Operands D) (rc : RuleConstraints D)
        → LeafSat value text kind op x
        → Fits value text rc
        → Fits value text (collect_leaf numbers kind op x rc)
    unfolding collect_leaf collect_categorical
    collect_leaf-Fits Kind.numeric op x rc h t =
        add_numeric-Fits x.field (from_op numbers op x.threshold) rc
          (from_op-inside op (value x.field) x.threshold h) t
    collect_leaf-Fits Kind.numeric_range op x rc h t =
        add_numeric-Fits x.field (range numbers x (is_including op)) rc
          (range-inside x (is_including op) (value x.field) h) t
    collect_leaf-Fits Kind.categorical OpType.in_list x rc h t = add_values-Fits x rc h t
    collect_leaf-Fits Kind.categorical OpType.eq x rc h t = add_values-Fits x rc h t
    collect_leaf-Fits Kind.categorical _ x rc h t = t
    collect_leaf-Fits _ op x rc h t = t

    module _ (holds : Leaf (Operands D) → Bool) (r : Respects value text holds) where
      mutual
        unfolding collect meaning

        pub collect-Fits :
            (c : Condition (Operands D)) (rc : RuleConstraints D)
            → meaning holds c ≡ true
            → Fits value text rc
            → Fits value text (collect numbers c rc)
        collect-Fits (leaf l) rc h t = collect_leaf-Fits l.kind l.op l.operands rc (r l h) t
        collect-Fits (conjunction cs) rc h t = collect_all-Fits cs rc (ground (arith, h)) t
        collect-Fits (disjunction cs) rc h t = t
        collect-Fits (negation c) rc h t = t

        collect_all-Fits :
            (cs : Conditions (Operands D)) (rc : RuleConstraints D)
            → meaning_all holds cs ≡ true
            → Fits value text rc
            → Fits value text (collect_all numbers cs rc)
        collect_all-Fits nil rc h t = t
        collect_all-Fits (cons c cs) rc h t =
            collect_all-Fits cs (collect numbers c rc) (ground (arith, h))
              (collect-Fits c rc (ground (arith, h)) t)
