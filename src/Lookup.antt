-- ===== src/Lookup.antt =====
-- CIDR lookup sets: `parse_ipv4`, `parse_cidr`, `add_cidr_range` and `normalize_ranges` of
-- src/compiler/compiler.cpp and `ipv4_ranges_contain` of src/core/orchestrator.cpp. A text is the
-- list of its character codes; `std::sort` is an insertion sort, and `std::upper_bound` a scan.
pub mod Contain
pub mod Prefix
pub mod Octets
pub mod Fast
pub mod Wrap
pub mod Examples
use Prim.Native.Nat.{bit_and, bit_or, min, max}
use blazerules.Prelude.{
  ℕ, zero, suc, ◌+◌, ◌-◌, ◌*◌, ◌%◌, ◌^◌, Bool, true, false, List, [], ◌∷◌, ◌++◌, ◌==◌, ltb, leb,
  ◌&&◌, ◌||◌, if◌then◌else◌, Option, none, some, get_or, set, ℤ, pos, negsuc,
}

pub record Ipv4Range : Type 0 where
  pub start : ℕ
  pub end : ℕ

abbrev pub Text : Type 0
Text = List ℕ

unfoldable pub is_digit : ℕ → Bool
is_digit ch = leb 48 ch && leb ch 57

-- The locals of the loop of `parse_ipv4`.
pub record OctetState : Type 0 where
  pub parts : List ℕ
  pub part : ℕ
  pub value : ℕ
  pub saw_digit : Bool

-- One character; `none` where the source returns false.
unfoldable pub octet_step : ℕ → OctetState → Option OctetState
unfolding is_digit
octet_step ch st =
    let value = st.value * 10 + (ch - 48) in
    if is_digit ch
    then (if ltb 255 value then none else some (record st { value = value; saw_digit = true }))
    else if ch == 46 && (st.saw_digit && ltb st.part 3)
    then some (record {
      parts = set st.parts st.part st.value;
      part = st.part + 1;
      value = 0;
      saw_digit = false;
    })
    else none

unfoldable pub parse_octets : Text → OctetState → Option OctetState
unfolding octet_step
parse_octets [] st = some st
parse_octets (ch ∷ rest) st = elim (octet_step ch st) [
  | none ↦ none
  | some st' ↦ parse_octets rest st'
]

unfoldable pub join_octets : ℕ → ℕ → ℕ → ℕ → ℕ
join_octets a b c d =
    bit_or (bit_or (bit_or (a * 2 ^ 24 % 2 ^ 32) (b * 2 ^ 16 % 2 ^ 32)) (c * 2 ^ 8 % 2 ^ 32)) d

unfoldable pub octet_start : OctetState
octet_start = record { parts = 0 ∷ 0 ∷ 0 ∷ 0 ∷ []; part = 0; value = 0; saw_digit = false }

unfoldable pub finish_octets : OctetState → Option ℕ
unfolding join_octets
finish_octets st =
    let parts = set st.parts st.part st.value in
    if st.saw_digit && st.part == 3
    then some
        (join_octets (get_or parts 0 0) (get_or parts 1 0) (get_or parts 2 0) (get_or parts 3 0))
    else none

unfoldable pub parse_ipv4 : Text → Option ℕ
unfolding parse_octets finish_octets octet_start
parse_ipv4 s = elim (parse_octets s octet_start) [ none ↦ none | some st ↦ finish_octets st ]

-- `parse_ipv4_fast` of src/core/orchestrator.cpp, which reads the addresses of the rows. The value
-- is a `uint32_t`, and a text that is no address counts as 0.
unfoldable pub fast_step : ℕ → OctetState → Option OctetState
unfolding is_digit
fast_step ch st =
    if is_digit ch
    then some (record st { value = (st.value * 10 + (ch - 48)) % 2 ^ 32; saw_digit = true })
    else if ch == 46 && ltb st.part 3
    then some (record {
      parts = set st.parts st.part st.value;
      part = st.part + 1;
      value = 0;
      saw_digit = false;
    })
    else none

unfoldable pub fast_octets : Text → OctetState → Option OctetState
unfolding fast_step
fast_octets [] st = some st
fast_octets (ch ∷ rest) st = elim (fast_step ch st) [
  | none ↦ none
  | some st' ↦ fast_octets rest st'
]

unfoldable pub finish_fast : Option OctetState → ℕ
unfolding finish_octets
finish_fast none = 0
finish_fast (some st) = elim (finish_octets st) [ none ↦ 0 | some ip ↦ ip ]

unfoldable pub parse_ipv4_fast : Text → ℕ
unfolding fast_octets finish_fast octet_start
parse_ipv4_fast s = finish_fast (fast_octets s octet_start)

-- `std::stoi` after the white space and the sign; `none` is an exception.
unfoldable pub stoi_digits : ℕ → Text → ℕ
stoi_digits value [] = value
stoi_digits value (ch ∷ rest) =
    let more = stoi_digits (value * 10 + (ch - 48)) rest in if is_digit ch then more else value

unfoldable pub starts_digit : Text → Bool
unfolding is_digit
starts_digit [] = false
starts_digit (ch ∷ rest) = is_digit ch

unfoldable pub is_space : ℕ → Bool
is_space ch = ch == 32 || (leb 9 ch && leb ch 13)

unfoldable pub stoi_positive : Text → Option ℤ
unfolding stoi_digits starts_digit
stoi_positive s =
    if starts_digit s && ltb (stoi_digits 0 s) 2147483648
    then some (pos (stoi_digits 0 s))
    else none

abbrev negative : ℕ → ℤ
negative zero = pos 0
negative (suc n) = negsuc n

unfoldable pub stoi_negative : Text → Option ℤ
unfolding stoi_digits starts_digit
stoi_negative s =
    if starts_digit s && leb (stoi_digits 0 s) 2147483648
    then some (negative (stoi_digits 0 s))
    else none

unfoldable pub stoi : Text → Option ℤ
unfolding is_space stoi_positive stoi_negative
stoi [] = none
stoi (ch ∷ rest) =
    let skipped = stoi rest in
    if is_space ch
    then skipped
    else if ch == 45
    then stoi_negative rest
    else if ch == 43
    then stoi_positive rest
    else stoi_positive (ch ∷ rest)

-- `std::max(0, std::min(32, v))`.
unfoldable pub clamp_prefix : ℤ → ℕ
clamp_prefix (pos n) = min 32 n
clamp_prefix (negsuc n) = 0

-- The text before the first '/' and what follows it, if there is one.
unfoldable pub split_slash : Text → Text × Option Text
split_slash [] = ([], none)
split_slash (ch ∷ rest) =
    let cut = split_slash rest in if ch == 47 then ([], some rest) else (ch ∷ cut.0, cut.1)

unfoldable pub prefix_of : Option Text → Option ℕ
unfolding stoi clamp_prefix
prefix_of none = some 32
prefix_of (some text) = elim (stoi text) [ none ↦ none | some v ↦ some (clamp_prefix v) ]

unfoldable pub prefix_mask : ℕ → ℕ
prefix_mask prefix = if prefix == 0 then 0 else 4294967295 * 2 ^ (32 - prefix) % 2 ^ 32

-- What `add_cidr_range` appends for an address and a prefix.
unfoldable pub cidr_range : ℕ → ℕ → Ipv4Range
unfolding prefix_mask
cidr_range raw prefix =
    let network = bit_and raw (prefix_mask prefix) in
    record { start = network; end = bit_or network (4294967295 - prefix_mask prefix) }

-- An address that does not parse counts as 0.0.0.0.
abbrev or_zero : Option ℕ → ℕ
or_zero none = 0
or_zero (some n) = n

unfoldable pub add_cidr_range : Text → List Ipv4Range → Option (List Ipv4Range)
unfolding cidr_range parse_ipv4 split_slash prefix_of
add_cidr_range cidr ranges = elim (prefix_of (split_slash cidr).1) [
  | none ↦ none
  | some prefix ↦
      some (ranges ++ cidr_range (or_zero (parse_ipv4 (split_slash cidr).0)) prefix ∷ [])
]

-- The comparison that the ranges are sorted by, and the sort.
unfoldable pub range_before : Ipv4Range → Ipv4Range → Bool
range_before a b = ltb a.start b.start || (a.start == b.start && ltb a.end b.end)

unfoldable pub insert : Ipv4Range → List Ipv4Range → List Ipv4Range
unfolding range_before
insert r [] = r ∷ []
insert r (x ∷ xs) = let later = insert r xs in if range_before x r then x ∷ later else r ∷ x ∷ xs

unfoldable pub sort : List Ipv4Range → List Ipv4Range
unfolding insert
sort [] = []
sort (x ∷ xs) = insert x (sort xs)

-- The loop over the sorted ranges, from the point where `last` is `merged.back()`. `end + 1u` wraps.
unfoldable pub merge_ranges : Ipv4Range → List Ipv4Range → List Ipv4Range
merge_ranges last [] = last ∷ []
merge_ranges last (r ∷ rs) = elim (ltb ((last.end + 1) % 2 ^ 32) r.start) [
  | true ↦ last ∷ merge_ranges r rs
  | false ↦ merge_ranges (record { start = last.start; end = max last.end r.end }) rs
]

unfoldable pub merge_sorted : List Ipv4Range → List Ipv4Range
unfolding merge_ranges
merge_sorted [] = []
merge_sorted (r ∷ rs) = merge_ranges r rs

unfoldable pub normalize_ranges : List Ipv4Range → List Ipv4Range
unfolding sort merge_sorted
normalize_ranges ranges = merge_sorted (sort ranges)

unfoldable pub within : ℕ → Ipv4Range → Bool
within ip r = leb r.start ip && leb ip r.end

-- `before` is the range before the one that the scan is at.
unfoldable pub within_last : ℕ → Option Ipv4Range → Bool
unfolding within
within_last ip none = false
within_last ip (some r) = within ip r

unfoldable pub contain_from : ℕ → Option Ipv4Range → List Ipv4Range → Bool
unfolding within_last
contain_from ip before [] = within_last ip before
contain_from ip before (r ∷ rs) =
    let later = contain_from ip (some r) rs in
    if ltb ip r.start then within_last ip before else later

unfoldable pub ipv4_ranges_contain : List Ipv4Range → ℕ → Bool
unfolding contain_from
ipv4_ranges_contain ranges ip = contain_from ip none ranges
