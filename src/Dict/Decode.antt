-- ===== src/Dict/Decode.antt =====
-- What the ids of a batch mean.
use blazerules.Prelude.{
  ℕ, zero, suc, ◌≡◌, refl, ◌∙◌, true, List, [], ◌∷◌, Option, none, some, get_elem?, ℤ, pos, negsuc,
  Text, find,
}
use blazerules.Schema.{ColumnType}
use blazerules.Dict.{
  Column, get_or_create, resolve, reverse_lookup, encode_strings, map_dictionary, encode_indices,
  encode_dictionary, mapped, non_negative,
}
use blazerules.Dict.Entries.{
  IsConsistent, IsSized, Keeps, Created, Adds, get_or_create-Adds, no_room, get_or_create-no_room,
}

-- An id is that of a value: both lookups agree.
abbrev pub Names : Column → ℤ → Text → Type 0
Names col id value = (reverse_lookup id col ≡ value) × (resolve value col ≡ id)

found-Names :
    (col : Column) (id : ℕ) (value : Text)
    → IsConsistent col
    → find value col.dict ≡ some id
    → Names col (pos id) value
unfolding reverse_lookup resolve
found-Names col id value c e = (rw (reverse_lookup, c.back value id e) refl, rw (resolve, e) refl)

-- A cell: null for null, the id of the value, or -1 for a value that the column has no room for.
abbrev pub Encodes : Column → Option Text → Option ℤ → Type 0
Encodes col none none = Unit {0}
Encodes col none (some id) = ⊥
Encodes col (some value) none = ⊥
Encodes col (some value) (some (pos id)) = Names col (pos id) value
Encodes col (some value) (some (negsuc n)) = (n ≡ 0) × (resolve value col ≡ negsuc 0)

abbrev pub AllEncode : Column → List (Option Text) → List (Option ℤ) → Type 0
AllEncode col [] [] = Unit {0}
AllEncode col [] (id ∷ ids) = ⊥
AllEncode col (v ∷ vs) [] = ⊥
AllEncode col (v ∷ vs) (id ∷ ids) = Encodes col v id × AllEncode col vs ids

missing-resolve :
    (col : Column) (value : Text) → find value col.dict ≡ none → resolve value col ≡ negsuc 0
unfolding resolve
missing-resolve col value e = rw (resolve, e) refl

module _ (t : ColumnType) (max_size : ℕ) where
  -- What a loop over values does to a column.
  abbrev Grows : Column → Column → Type 0
  Grows col col' = Keeps col col' × IsConsistent col' × (no_room t max_size col ≡ true → col' ≡ col)

  abbrev Coded : Column → Text → ℤ → Type 0
  Coded col value (pos id) = Names col (pos id) value
  Coded col value (negsuc n) = (n ≡ 0) × (resolve value col ≡ negsuc 0)

  Created-Coded :
      (value : Text) (col col' : Column) (r : ℤ × Column)
      → Created t max_size value col r
      → Grows r.1 col'
      → Coded col' value r.0
  Created-Coded value col col' (pos id, _) a (k, c, s) = found-Names col' id value c (k value id a)
  Created-Coded value col col' (negsuc n, col₁) (e, same, missing, full) (k, c, s) =
      let same' : col' ≡ col = s (rw same full) ∙ same in
      (e, rw same' (missing-resolve col value missing))

  Adds-Grows :
      (value : Text) (col col' : Column)
      → Adds t max_size value col (get_or_create t max_size value col)
      → Grows (get_or_create t max_size value col).1 col'
      → Grows col col'
  Adds-Grows value col col' x (k, c, s) = (
    λ v id h. k v id (x.keeps v id h),
    c,
    λ full. let same = get_or_create-no_room t max_size value col full in s (rw same full) ∙ same,
  )

  Coded-Encodes :
      (col : Column) (value : Text) (id : ℤ)
      → Coded col value id
      → Encodes col (some value) (some id)
  Coded-Encodes col value (pos id) h = h
  Coded-Encodes col value (negsuc n) h = h

  abbrev Outcome : List (Option Text) → Column → List (Option ℤ) × Column → Type 0
  Outcome rows col r = AllEncode r.1 rows r.0 × Grows col r.1

  encode_strings-Outcome :
      (rows : List (Option Text)) (col : Column)
      → IsConsistent col
      → IsSized t max_size col
      → Outcome rows col (encode_strings t max_size rows col)
  unfolding encode_strings
  encode_strings-Outcome [] col c z = (tt, (λ v id h. h, c, λ full. refl))
  encode_strings-Outcome (none ∷ rows) col c z =
      let (a, g) = encode_strings-Outcome rows col c z in ((tt, a), g)
  encode_strings-Outcome (some value ∷ rows) col c z =
      let r = get_or_create t max_size value col in
      let x = get_or_create-Adds t max_size value col c z in
      let (a, g) = encode_strings-Outcome rows r.1 x.consistent x.sized in
      let col' = (encode_strings t max_size rows r.1).1 in
      (
        (Coded-Encodes col' value r.0 (Created-Coded value col col' r x.created g), a),
        Adds-Grows value col col' x g,
      )

  abbrev AllMapped : Column → List (Option Text) → List ℤ → Type 0
  AllMapped col [] [] = Unit {0}
  AllMapped col [] (id ∷ ids) = ⊥
  AllMapped col (v ∷ vs) [] = ⊥
  AllMapped col (none ∷ vs) (id ∷ ids) = (id ≡ negsuc 0) × AllMapped col vs ids
  AllMapped col (some v ∷ vs) (id ∷ ids) = Coded col v id × AllMapped col vs ids

  map_dictionary-AllMapped :
      (values : List (Option Text)) (col : Column)
      → IsConsistent col
      → IsSized t max_size col
      → AllMapped
          (map_dictionary t max_size values col).1
          values
          (map_dictionary t max_size values col).0
        × Grows col (map_dictionary t max_size values col).1
  unfolding map_dictionary
  map_dictionary-AllMapped [] col c z = (tt, (λ v id h. h, c, λ full. refl))
  map_dictionary-AllMapped (none ∷ values) col c z =
      let (a, g) = map_dictionary-AllMapped values col c z in ((refl, a), g)
  map_dictionary-AllMapped (some value ∷ values) col c z =
      let r = get_or_create t max_size value col in
      let x = get_or_create-Adds t max_size value col c z in
      let (a, g) = map_dictionary-AllMapped values r.1 x.consistent x.sized in
      let col' = (map_dictionary t max_size values r.1).1 in
      ((Created-Coded value col col' r x.created g, a), Adds-Grows value col col' x g)

-- The value of a row of a column with its own dictionary: null where the index is null or out of
-- range, or the entry is null.
abbrev pub flatten : Option (Option Text) → Option Text
flatten none = none
flatten (some v) = v

abbrev pub value_at : List (Option Text) → Option ℤ → Option Text
value_at dictionary none = none
value_at dictionary (some (negsuc n)) = none
value_at dictionary (some (pos i)) = flatten (get_elem? dictionary i)

-- A cell: null for null, the id of the value, or null for a value that the column has no room for.
abbrev pub EncodesOrNull : Column → Option Text → Option ℤ → Type 0
EncodesOrNull col none none = Unit {0}
EncodesOrNull col none (some id) = ⊥
EncodesOrNull col (some value) none = resolve value col ≡ negsuc 0
EncodesOrNull col (some value) (some id) = Names col id value

abbrev pub AllEncodeOrNull :
    Column → List (Option Text) → List (Option ℤ) → List (Option ℤ) → Type 0
AllEncodeOrNull col dictionary [] [] = Unit {0}
AllEncodeOrNull col dictionary [] (id ∷ ids) = ⊥
AllEncodeOrNull col dictionary (i ∷ is) [] = ⊥
AllEncodeOrNull col dictionary (i ∷ is) (id ∷ ids) =
    EncodesOrNull col (value_at dictionary i) id × AllEncodeOrNull col dictionary is ids

module _ (t : ColumnType) (max_size : ℕ) (col : Column) where
  non_negative-Encodes :
      (value : Text) (id : ℤ)
      → Coded t max_size col value id
      → EncodesOrNull col (some value) (non_negative id)
  non_negative-Encodes value (pos id) h = h
  non_negative-Encodes value (negsuc n) h = h.1

  mapped-Encodes :
      (dictionary : List (Option Text)) (ids : List ℤ) (i : ℕ)
      → AllMapped t max_size col dictionary ids
      → EncodesOrNull col (value_at dictionary (some (pos i))) (mapped ids i)
  mapped-Encodes [] [] i h = tt
  mapped-Encodes [] (id ∷ ids) i h = absurd h
  mapped-Encodes (v ∷ vs) [] i h = absurd h
  mapped-Encodes (none ∷ vs) (id ∷ ids) zero h = rw h.0 tt
  mapped-Encodes (some v ∷ vs) (id ∷ ids) zero h = non_negative-Encodes v id h.0
  mapped-Encodes (none ∷ vs) (id ∷ ids) (suc i) h = mapped-Encodes vs ids i h.1
  mapped-Encodes (some v ∷ vs) (id ∷ ids) (suc i) h = mapped-Encodes vs ids i h.1

  encode_indices-AllEncode :
      (dictionary : List (Option Text)) (ids : List ℤ) (is : List (Option ℤ))
      → AllMapped t max_size col dictionary ids
      → AllEncodeOrNull col dictionary is (encode_indices ids is)
  unfolding encode_indices
  encode_indices-AllEncode dictionary ids [] h = tt
  encode_indices-AllEncode dictionary ids (none ∷ is) h =
      (tt, encode_indices-AllEncode dictionary ids is h)
  encode_indices-AllEncode dictionary ids (some (negsuc n) ∷ is) h =
      (tt, encode_indices-AllEncode dictionary ids is h)
  encode_indices-AllEncode dictionary ids (some (pos i) ∷ is) h =
      (mapped-Encodes dictionary ids i h, encode_indices-AllEncode dictionary ids is h)

-- From a column as the encoder keeps it, a batch of texts is encoded cell by cell: null for null, for
-- a text its id, from which `reverse_lookup` gives back the text and which `resolve` finds for it, and
-- -1 only for a text that the column has no id for in the end. The ids that the column had stay.
pub encode_strings-decode :
    (t : ColumnType) (max_size : ℕ) (rows : List (Option Text)) (col : Column)
    → IsConsistent col
    → IsSized t max_size col
    → AllEncode (encode_strings t max_size rows col).1 rows (encode_strings t max_size rows col).0
      × Keeps col (encode_strings t max_size rows col).1
encode_strings-decode t max_size rows col c z =
    let (a, g) = encode_strings-Outcome t max_size rows col c z in (a, g.0)

-- A batch that comes with a dictionary of its own is encoded to the ids of the values that its indices
-- mean: null where the index is null or out of range, or the entry is null, and for any other value its
-- id, or null for a value that the column has no id for in the end.
pub encode_dictionary-decode :
    (t : ColumnType) (max_size : ℕ) (dictionary : List (Option Text)) (indices : List (Option ℤ))
    (col : Column)
    → IsConsistent col
    → IsSized t max_size col
    → AllEncodeOrNull
        (encode_dictionary t max_size dictionary indices col).1
        dictionary
        indices
        (encode_dictionary t max_size dictionary indices col).0
      × Keeps col (encode_dictionary t max_size dictionary indices col).1
unfolding encode_dictionary
encode_dictionary-decode t max_size dictionary indices col c z =
    let (a, g) = map_dictionary-AllMapped t max_size dictionary col c z in
    (encode_indices-AllEncode t max_size _ dictionary _ indices a, g.0)
