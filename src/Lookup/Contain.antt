-- ===== src/Lookup/Contain.antt =====
-- A lookup in the normalized ranges finds exactly the addresses of the ranges that were added.
use Prim.Native.Nat.{max}
use blazerules.Prelude.{
  ℕ, ◌+◌, ◌%◌, ◌^◌, ◌<◌, ◌≤◌, ◌≡◌, refl, sym, ◌∙◌, inl, inr, Bool, true, false, List, [], ◌∷◌, ltb,
  ◌||◌, Option, none, some, All, arith, Bool-cases,
}
use blazerules.Lookup.{
  Ipv4Range, range_before, insert, sort, merge_ranges, merge_sorted, normalize_ranges, within,
  within_last, contain_from, ipv4_ranges_contain,
}

abbrev pub any_within : ℕ → List Ipv4Range → Bool
any_within ip [] = false
any_within ip (r ∷ rs) = within ip r || any_within ip rs

-- A range that does not end at the last address.
abbrev pub IsBounded : Ipv4Range → Type 0
IsBounded r = (r.start ≤ r.end) × (r.end < 4294967295)

-- Ranges that start at `lo` or later, in ascending order of their starts.
abbrev pub StartsFrom : ℕ → List Ipv4Range → Type 0
StartsFrom lo [] = Unit {0}
StartsFrom lo (r ∷ rs) = (lo ≤ r.start) × StartsFrom r.start rs

StartsFrom-le : (lo lo' : ℕ) (rs : List Ipv4Range) → lo ≤ lo' → StartsFrom lo' rs → StartsFrom lo rs
StartsFrom-le lo lo' [] h k = tt
StartsFrom-le lo lo' (r ∷ rs) h k = let k' = k.0 in (omega arith, k.1)

any_within-insert :
    (ip : ℕ) (r : Ipv4Range) (rs : List Ipv4Range)
    → any_within ip (insert r rs) ≡ (within ip r || any_within ip rs)
unfolding insert
any_within-insert ip r [] = refl
any_within-insert ip r (x ∷ xs) = elim (Bool-cases (range_before x r)) [
  | inl t ↦ rw t (rw (any_within-insert ip r xs) (ground arith))
  | inr f ↦ rw f refl
]

any_within-sort : (ip : ℕ) (rs : List Ipv4Range) → any_within ip (sort rs) ≡ any_within ip rs
unfolding sort
any_within-sort ip [] = refl
any_within-sort ip (r ∷ rs) = any_within-insert ip r (sort rs) ∙ rw (any_within-sort ip rs) refl

insert-StartsFrom :
    (lo : ℕ) (r : Ipv4Range) (rs : List Ipv4Range)
    → lo ≤ r.start
    → StartsFrom lo rs
    → StartsFrom lo (insert r rs)
unfolding insert range_before
insert-StartsFrom lo r [] h k = (h, tt)
insert-StartsFrom lo r (x ∷ xs) h k = elim (Bool-cases (range_before x r)) [
  | inl t ↦ rw t (k.0, insert-StartsFrom x.start r xs (ground arith) k.1)
  | inr f ↦ rw f (h, (ground arith, k.1))
]

sort-StartsFrom : (rs : List Ipv4Range) → StartsFrom 0 (sort rs)
unfolding sort
sort-StartsFrom [] = tt
sort-StartsFrom (r ∷ rs) = insert-StartsFrom 0 r (sort rs) (omega arith) (sort-StartsFrom rs)

insert-All :
    (P : Ipv4Range → Type 0) (r : Ipv4Range) (rs : List Ipv4Range)
    → P r
    → All P rs
    → All P (insert r rs)
unfolding insert
insert-All P r [] h k = (h, tt)
insert-All P r (x ∷ xs) h k = elim (Bool-cases (range_before x r)) [
  | inl t ↦ rw t (k.0, insert-All P r xs h k.1)
  | inr f ↦ rw f (h, k)
]

sort-All : (P : Ipv4Range → Type 0) (rs : List Ipv4Range) → All P rs → All P (sort rs)
unfolding sort
sort-All P [] k = tt
sort-All P (r ∷ rs) k = insert-All P r (sort rs) k.0 (sort-All P rs k.1)

none_within :
    (ip lo : ℕ) (rs : List Ipv4Range) → ip < lo → StartsFrom lo rs → any_within ip rs ≡ false
unfolding within
none_within ip lo [] h k = refl
none_within ip lo (r ∷ rs) h k =
    let k' = k.0 in ground (arith, none_within ip r.start rs (omega arith) k.1)

abbrev apart : Ipv4Range → Ipv4Range → Bool
apart last r = ltb ((last.end + 1) % 2 ^ 32) r.start

abbrev join : Ipv4Range → Ipv4Range → Ipv4Range
join last r = record { start = last.start; end = max last.end r.end }

pub merge_keep :
    (last r : Ipv4Range) (rs : List Ipv4Range)
    → apart last r ≡ true
    → merge_ranges last (r ∷ rs) ≡ last ∷ merge_ranges r rs
unfolding merge_ranges
merge_keep last r rs t = rw (merge_ranges, t) refl

merge_join :
    (last r : Ipv4Range) (rs : List Ipv4Range)
    → apart last r ≡ false
    → merge_ranges last (r ∷ rs) ≡ merge_ranges (join last r) rs
unfolding merge_ranges
merge_join last r rs f = rw (merge_ranges, f) refl

-- Below the first range, the scan stops at once.
pub contain_from-below :
    (ip : ℕ) (before : Option Ipv4Range) (last : Ipv4Range) (rs : List Ipv4Range)
    → ip < last.start
    → contain_from ip before (merge_ranges last rs) ≡ within_last ip before
unfolding contain_from
contain_from-below ip before last [] h = unfold merge_ranges in ground arith
contain_from-below ip before last (r ∷ rs) h = elim (Bool-cases (apart last r)) [
  | inl t ↦ rw (merge_keep last r rs t) (ground arith)
  | inr f ↦ rw (merge_join last r rs f) (contain_from-below ip before (join last r) rs h)
]

-- The scan passes a range that starts at the address or before it.
pub contain_from-pass :
    (ip : ℕ) (before : Option Ipv4Range) (last : Ipv4Range) (rs : List Ipv4Range)
    → last.start ≤ ip
    → contain_from ip before (last ∷ rs) ≡ contain_from ip (some last) rs
unfolding contain_from
contain_from-pass ip before last rs h = ground arith

within-join :
    (ip : ℕ) (last r : Ipv4Range)
    → last.start ≤ ip
    → last.start ≤ r.start
    → r.start ≤ last.end + 1
    → r.start ≤ r.end
    → within ip (join last r) ≡ (within ip last || within ip r)
unfolding within
within-join ip last r h k l m = ground arith

-- From the first range on, the scan finds the addresses of all ranges.
contain_from-merge_ranges :
    (ip : ℕ) (before : Option Ipv4Range) (last : Ipv4Range) (rs : List Ipv4Range)
    → last.start ≤ ip
    → IsBounded last
    → All IsBounded rs
    → StartsFrom last.start rs
    → contain_from ip before (merge_ranges last rs) ≡ (within ip last || any_within ip rs)
unfolding within_last within
contain_from-merge_ranges ip before last [] h b bs s =
    unfold merge_ranges contain_from in ground arith
contain_from-merge_ranges ip before last (r ∷ rs) h b bs s =
    let (b0, b1) = b in
    let (r0, r1) = bs.0 in
    let s0 = s.0 in
    let wrap : (last.end + 1) % 2 ^ 32 ≡ last.end + 1 = omega arith in
    elim (Bool-cases (apart last r)) [
      | inl t ↦
          rw (merge_keep last r rs t, contain_from-pass ip before last (merge_ranges r rs) h)
            (elim (Bool-cases (ltb ip r.start)) [
              | inl before_r ↦
                  contain_from-below ip (some last) r rs (ground arith)
                  ∙ ground
                      (arith, none_within ip r.start (r ∷ rs) (ground arith) (omega arith, s.1))
              | inr from_r ↦
                  contain_from-merge_ranges ip (some last) r rs (ground arith) bs.0 bs.1 s.1
                  ∙ ground arith
            ])
      | inr f ↦ rw (merge_join last r rs f) (
          contain_from-merge_ranges ip before (join last r) rs h (omega arith, omega arith) bs.1
            (StartsFrom-le last.start r.start rs s0 s.1)
          ∙ rw (within-join ip last r h s0 (ground arith) r0) (ground arith))
    ]

merge_sorted-any_within :
    (ip : ℕ) (rs : List Ipv4Range)
    → All IsBounded rs
    → StartsFrom 0 rs
    → ipv4_ranges_contain (merge_sorted rs) ip ≡ any_within ip rs
unfolding ipv4_ranges_contain merge_sorted
merge_sorted-any_within ip [] bs s = unfold contain_from within_last in refl
merge_sorted-any_within ip (r ∷ rs) bs s = elim (Bool-cases (ltb ip r.start)) [
  | inl before_r ↦
      contain_from-below ip none r rs (ground arith)
      ∙ unfold within_last in
        sym (none_within ip r.start (r ∷ rs) (ground arith) (omega arith, s.1))
  | inr from_r ↦ contain_from-merge_ranges ip none r rs (ground arith) bs.0 bs.1 s.1
]

-- If every range that was added starts at or before its end and ends before 255.255.255.255, then
-- the search in the normalized ranges finds an address exactly if one of the ranges holds it.
pub normalize_ranges-any_within :
    (ip : ℕ) (ranges : List Ipv4Range)
    → All IsBounded ranges
    → ipv4_ranges_contain (normalize_ranges ranges) ip ≡ any_within ip ranges
unfolding normalize_ranges
normalize_ranges-any_within ip ranges h =
    merge_sorted-any_within ip (sort ranges) (sort-All IsBounded ranges h) (sort-StartsFrom ranges)
    ∙ any_within-sort ip ranges
