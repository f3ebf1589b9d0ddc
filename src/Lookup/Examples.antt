-- ===== src/Lookup/Examples.antt =====
-- The addresses of 10.0.0.0/8 and of a range in it.
use blazerules.Prelude.{◌+◌, ◌*◌, ◌/◌, ◌^◌, ◌≡◌, false, true, List, [], ◌∷◌, ◌==◌, some, All, arith}
use blazerules.Lookup.{
  Ipv4Range, cidr_range, within, normalize_ranges, ipv4_ranges_contain, parse_ipv4, parse_ipv4_fast,
}
use blazerules.Lookup.Contain.{any_within, IsBounded, normalize_ranges-any_within}
use blazerules.Lookup.Prefix.{within-cidr_range}
use blazerules.Lookup.Octets.{dotted, parse_ipv4-dotted}
use blazerules.Lookup.Fast.{parse_ipv4_fast-parse_ipv4}
use blazerules.Lookup.Wrap.{everything, normalize_ranges_wraps}

abbrev ten : Ipv4Range
ten = record { start = 167772160; end = 184549375 }

abbrev inner : Ipv4Range
inner = record { start = 167772200; end = 167772300 }

abbrev ranges : List Ipv4Range
ranges = inner ∷ ten ∷ []

ranges-IsBounded : All IsBounded ranges
ranges-IsBounded = ((omega arith, omega arith), ((omega arith, omega arith), tt))

normalize_ranges-any_within_example :
    ipv4_ranges_contain (normalize_ranges ranges) 167772350 ≡ any_within 167772350 ranges
normalize_ranges-any_within_example = normalize_ranges-any_within 167772350 ranges ranges-IsBounded

within-cidr_range_example :
    within 167772350 (cidr_range 167772161 8) ≡ (167772350 / 2 ^ 24 == 167772161 / 2 ^ 24)
within-cidr_range_example = within-cidr_range 167772161 8 167772350 (omega arith) (omega arith)

parse_ipv4-dotted_example :
    parse_ipv4 (dotted 10 0 255 7) ≡ some (10 * 2 ^ 24 + 0 * 2 ^ 16 + 255 * 2 ^ 8 + 7)
parse_ipv4-dotted_example =
    parse_ipv4-dotted 10 0 255 7 (omega arith) (omega arith) (omega arith) (omega arith)

parse_ipv4_fast-parse_ipv4_example :
    parse_ipv4_fast (dotted 10 0 255 7) ≡ 10 * 2 ^ 24 + 0 * 2 ^ 16 + 255 * 2 ^ 8 + 7
parse_ipv4_fast-parse_ipv4_example =
    parse_ipv4_fast-parse_ipv4 (dotted 10 0 255 7) (10 * 2 ^ 24 + 0 * 2 ^ 16 + 255 * 2 ^ 8 + 7)
      (parse_ipv4-dotted 10 0 255 7 (omega arith) (omega arith) (omega arith) (omega arith))

normalize_ranges_wraps_example :
    (ipv4_ranges_contain (normalize_ranges (everything ∷ ten ∷ [])) 3232235777 ≡ false)
    × (within 3232235777 everything ≡ true)
normalize_ranges_wraps_example =
    normalize_ranges_wraps ten 3232235777 (omega arith) (omega arith) (omega arith) (omega arith)
