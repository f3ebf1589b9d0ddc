-- ===== src/Reduce/Rows.antt =====
-- The loops over rules, bytes and bits, seen from one row.
use mathlib.Core.Option
use Prim.Native.Nat.{bit_and}
use blazerules.Prelude.{
  ℕ, zero, suc, ◌+◌, ◌-◌, ◌*◌, ◌^◌, ◌<◌, ◌≡◌, refl, sym, ap, ◌∙◌, inl, inr, Bool, true, false, List,
  [], ◌∷◌, ◌++◌, ◌==◌, ltb, leb, ◌&&◌, not, if◌then◌else◌, Option, none, some, get_elem?, length,
  All, arith, rows, Bool-cases, Option-cases,
}
use blazerules.Bitmask.{
  Mask, IsBytes, bitmask_bytes, ctz32, drain, collect_from, collect_set_bits, bit_is_set,
}
use blazerules.Bitmask.Drain.{drain-past, clear_le}
use blazerules.Bitmask.Find.{find_set_bits-rows, collect_set_bits-find_set_bits}
use blazerules.Reduce.{
  Floats, RuleReduce, RowState, update_row, modify, reduce_byte, reduce_bytes, reduce_rules,
}
use blazerules.Reduce.Winner.{Matches, update_rows}

module _ {F : Type 0} (floats : Floats F) where
  -- The updates of some states of the morsel, in order.
  abbrev modify_all : ℕ → ℕ → RuleReduce F → List ℕ → List (RowState F) → List (RowState F)
  modify_all r0 r rr [] states = states
  modify_all r0 r rr (j ∷ js) states =
      modify_all r0 r rr js (modify floats (r0 + j) (update_row floats r rr) states)

  modify_all_append :
      (r0 r : ℕ) (rr : RuleReduce F) (is js : List ℕ) (states : List (RowState F))
      → modify_all r0 r rr (is ++ js) states ≡ modify_all r0 r rr js (modify_all r0 r rr is states)
  modify_all_append r0 r rr [] js states = refl
  modify_all_append r0 r rr (i ∷ is) js states = modify_all_append r0 r rr is js _

  reduce_byte-drain :
      (f r0 m r : ℕ) (rr : RuleReduce F) (base byte : ℕ) (states : List (RowState F))
      → byte < 2 ^ 8
      → reduce_byte floats f r0 m r rr base byte states
        ≡ modify_all r0 r rr (drain f m base byte) states
  unfolding reduce_byte drain
  reduce_byte-drain zero r0 m r rr base byte states h = refl
  reduce_byte-drain (suc f) r0 m r rr base byte states h = elim (Bool-cases (byte == 0)) [
    | inl z ↦ rw z refl
    | inr nz ↦ elim (Bool-cases (leb m (base + ctz32 byte))) [
      | inl past ↦
          let gone : drain (suc f) m base byte ≡ [] =
            drain-past 8 (suc f) m base byte (omega arith) h (ground arith) in
          let stop : reduce_byte floats (suc f) r0 m r rr base byte states ≡ states =
            rw (nz, past) refl in
          stop ∙ ap (λ js. modify_all r0 r rr js states) (sym gone)
      | inr within ↦
          let l : ltb (base + ctz32 byte) m ≡ true = ground arith in
          rw (nz, within, l)
            (reduce_byte-drain f r0 m r rr base (bit_and byte (byte - 1)) _
              (omega (arith, clear_le 8 byte (byte - 1) h)))
    ]
  ]

  reduce_bytes-collect :
      (r0 m r : ℕ) (rr : RuleReduce F) (b : ℕ) (mask : Mask) (states : List (RowState F))
      → IsBytes mask
      → reduce_bytes floats r0 m r rr b mask states
        ≡ modify_all r0 r rr (collect_from m b mask) states
  unfolding reduce_bytes collect_from
  reduce_bytes-collect r0 m r rr b [] states h = refl
  reduce_bytes-collect r0 m r rr b (byte ∷ rest) states h =
      reduce_bytes-collect r0 m r rr (b + 1) rest _ h.1
      ∙ ap (modify_all r0 r rr (collect_from m (b + 1) rest))
          (reduce_byte-drain 8 r0 m r rr (b * 8) byte states h.0)
      ∙ sym
          (modify_all_append r0 r rr (drain 8 m (b * 8) byte) (collect_from m (b + 1) rest) states)

  modify-cons :
      (k : ℕ) (f : RowState F → RowState F) (st : RowState F) (states : List (RowState F))
      → modify floats (suc k) f (st ∷ states) ≡ st ∷ modify floats k f states
  modify-cons k f st states = ground (arith, Option-cases (get_elem? states k))

  get_elem?-modify :
      (k : ℕ) (f : RowState F → RowState F) (states : List (RowState F)) (i : ℕ)
      → get_elem? (modify floats k f states) i
        ≡ (if i == k then Option.map f (get_elem? states i) else get_elem? states i)
  get_elem?-modify k f [] i = ground arith
  get_elem?-modify zero f (st ∷ states) zero = refl
  get_elem?-modify zero f (st ∷ states) (suc i) = ground arith
  get_elem?-modify (suc k) f (st ∷ states) zero = rw (modify-cons k f st states) (ground arith)
  get_elem?-modify (suc k) f (st ∷ states) (suc i) =
      rw (modify-cons k f st states) (get_elem?-modify k f states i ∙ ground arith)

  get_elem?-modify_all :
      (r0 r : ℕ) (rr : RuleReduce F) (base n : ℕ) (p : ℕ → Bool) (states : List (RowState F))
      (i : ℕ)
      → get_elem? (modify_all r0 r rr (rows base n p) states) i ≡ (
          if leb (r0 + base) i && (ltb i (r0 + base + n) && p (i - r0))
          then Option.map (update_row floats r rr) (get_elem? states i)
          else get_elem? states i)
  get_elem?-modify_all r0 r rr base zero p states i = ground arith
  get_elem?-modify_all r0 r rr base (suc n) p states i = elim (Bool-cases (i == r0 + base)) [
    | inl here ↦
        let e : i ≡ r0 + base = ground arith in
        let e' : i - r0 ≡ base = omega arith in
        elim (Bool-cases (p base)) [
          | inl t ↦ rw t (
              get_elem?-modify_all r0 r rr (suc base) n p _ i
              ∙ ground
                  (arith, get_elem?-modify (r0 + base) (update_row floats r rr) states i, ap p e'))
          | inr f ↦
              rw f (get_elem?-modify_all r0 r rr (suc base) n p states i ∙ ground (arith, ap p e'))
        ]
    | inr there ↦ elim (Bool-cases (p base)) [
      | inl t ↦ rw t (
          get_elem?-modify_all r0 r rr (suc base) n p _ i
          ∙ ground (arith, get_elem?-modify (r0 + base) (update_row floats r rr) states i))
      | inr f ↦ rw f (get_elem?-modify_all r0 r rr (suc base) n p states i ∙ ground arith)
    ]
  ]

  -- One rule updates the rows of the morsel whose bit is set.
  get_elem?-reduce_bytes :
      (r0 m r : ℕ) (rr : RuleReduce F) (mask : Mask) (states : List (RowState F)) (i : ℕ)
      → IsBytes mask
      → length mask ≡ bitmask_bytes m
      → get_elem? (reduce_bytes floats r0 m r rr 0 mask states) i ≡ (
          if leb r0 i && (ltb i (r0 + m) && bit_is_set mask (i - r0))
          then Option.map (update_row floats r rr) (get_elem? states i)
          else get_elem? states i)
  unfolding collect_set_bits
  get_elem?-reduce_bytes r0 m r rr mask states i h hl =
      let listed : collect_from m 0 mask ≡ rows 0 m (bit_is_set mask) =
        collect_set_bits-find_set_bits mask m h ∙ find_set_bits-rows mask m h hl in
      let e : r0 + 0 ≡ r0 = omega arith in
      rw (reduce_bytes-collect r0 m r rr 0 mask states h, listed)
        (get_elem?-modify_all r0 r rr 0 m (bit_is_set mask) states i ∙ rw e refl)

-- The rules that match a row of the morsel and are not shadow rules, with their indices.
abbrev pub matches_at : {F : Type 0} → ℕ → List (RuleReduce F × Mask) → ℕ → Matches F
matches_at r [] j = []
matches_at r ((rr, mask) ∷ rest) j =
    let later = matches_at (suc r) rest j in
    if not rr.shadow && bit_is_set mask j then (r, rr) ∷ later else later

module _ {F : Type 0} (floats : Floats F) where
  map-map :
      (f g : RowState F → RowState F) (o : Option (RowState F))
      → Option.map g (Option.map f o) ≡ Option.map (λ x. g (f x)) o
  map-map f g none = refl
  map-map f g (some a) = refl

  map_id :
      (f : RowState F → RowState F) (o : Option (RowState F))
      → ((x : RowState F) → f x ≡ x)
      → o ≡ Option.map f o
  map_id f none h = refl
  map_id f (some a) h = ap some (sym (h a))

  -- The step of one rule at one row, for each answer of the tests.
  row_step :
      (r : ℕ) (rr : RuleReduce F) (above below matched : Bool) (o o' : Option (RowState F))
      (later : Matches F)
      → o' ≡ (if above && (below && matched) then Option.map (update_row floats r rr) o else o)
      → (if above && below then Option.map (update_rows floats later) o' else o') ≡ (
          if above && below
          then Option.map (update_rows floats (if matched then (r, rr) ∷ later else later)) o
          else o)
  row_step r rr true true true o o' later e = rw e (map-map _ _ o)
  row_step r rr true true false o o' later e = rw e refl
  row_step r rr true false b o o' later e = e
  row_step r rr false below b o o' later e = e

  -- For masks of the morsel's size, the reduction of all rules over all rows gives a row `i` of the
  -- morsel what the updates by the rules that match it, in the order of the rules, give; shadow
  -- rules leave no trace, and rows outside the morsel are left alone.
  pub reduce_rules-rows :
      (r0 m r : ℕ) (rules : List (RuleReduce F × Mask)) (states : List (RowState F)) (i : ℕ)
      → All (λ rule. IsBytes rule.1 × (length rule.1 ≡ bitmask_bytes m)) rules
      → get_elem? (reduce_rules floats r0 m r rules states) i ≡ (
          if leb r0 i && ltb i (r0 + m)
          then Option.map (update_rows floats (matches_at r rules (i - r0))) (get_elem? states i)
          else get_elem? states i)
  unfolding reduce_rules
  reduce_rules-rows r0 m r [] states i h = elim (Bool-cases (leb r0 i && ltb i (r0 + m))) [
    | inl t ↦ rw t (map_id _ _ (λ x. refl))
    | inr f ↦ rw f refl
  ]
  reduce_rules-rows r0 m r ((rr, mask) ∷ rest) states i h =
      let later = reduce_rules-rows r0 m (suc r) rest in
      let others = matches_at (suc r) rest (i - r0) in
      let after : List (RowState F) = reduce_bytes floats r0 m r rr 0 mask states in
      let left : Bool → Option (RowState F) =
        λ b. get_elem? (reduce_rules floats r0 m (suc r) rest (if b then states else after)) i in
      let right : Bool → Option (RowState F) = λ b.
        if leb r0 i && ltb i (r0 + m)
        then Option.map
            (update_rows floats
              (if not b && bit_is_set mask (i - r0) then (r, rr) ∷ others else others))
            (get_elem? states i)
        else get_elem? states i in
      elim (Bool-cases rr.shadow) [
        | inl s ↦ ap left s ∙ later states i h.1 ∙ ap right (sym s)
        | inr ns ↦
            ap left ns
            ∙ later after i h.1
            ∙ row_step r rr (leb r0 i) (ltb i (r0 + m)) (bit_is_set mask (i - r0))
                (get_elem? states i) (get_elem? after i) others
                (get_elem?-reduce_bytes floats r0 m r rr mask states i h.0.0 h.0.1)
            ∙ ap right (sym ns)
      ]
