-- ===== src/Lookup/Wrap.antt =====
-- What the wrap of `end + 1u` does to a range that ends at the last address.
use blazerules.Prelude.{ℕ, ◌^◌, ◌<◌, ◌≤◌, ◌≡◌, ◌∙◌, true, false, [], ◌∷◌, none, arith}
use blazerules.Lookup.{
  Ipv4Range, range_before, insert, sort, merge_ranges, merge_sorted, normalize_ranges, within,
  within_last, contain_from, ipv4_ranges_contain,
}
use blazerules.Lookup.Contain.{merge_keep, contain_from-pass}

-- 0.0.0.0/0.
abbrev pub everything : Ipv4Range
everything = record { start = 0; end = 4294967295 }

sort_two : (r : Ipv4Range) → 0 < r.start → sort (everything ∷ r ∷ []) ≡ everything ∷ r ∷ []
unfolding sort insert range_before
sort_two r h = ground arith

-- In a set of 0.0.0.0/0 and a range that starts later, the addresses past the end of that range
-- are not found, although 0.0.0.0/0 holds them.
pub normalize_ranges_wraps :
    (r : Ipv4Range) (ip : ℕ)
    → 0 < r.start
    → r.start ≤ r.end
    → r.end < ip
    → ip < 2 ^ 32
    → (ipv4_ranges_contain (normalize_ranges (everything ∷ r ∷ [])) ip ≡ false)
      × (within ip everything ≡ true)
unfolding normalize_ranges merge_sorted ipv4_ranges_contain within
normalize_ranges_wraps r ip h k l m = (
  rw (sort_two r h, merge_keep everything r [] (ground arith))
      (contain_from-pass ip none everything (merge_ranges r []) (omega arith)
        ∙ unfold merge_ranges contain_from within_last in ground arith),
  ground arith,
)
