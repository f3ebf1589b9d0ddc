-- ===== src/Dict.antt =====
-- `DictEncoder` of src/core/dict_encoder.cpp: the dictionary of a column, and the columns of an
-- encoder. An id is an integer, as `int32_t` is; a cell of an array is `none` where it is null.
pub mod Entries
pub mod Stable
pub mod Decode
pub mod Examples
use blazerules.Prelude.{
  ℕ, zero, suc, ◌+◌, ◌-◌, ◌^◌, Bool, true, false, not, ◌&&◌, List, [], ◌∷◌, ◌++◌, Option, none,
  some, length, leb, ltb, get_elem?, set, if◌then◌else◌, ℤ, pos, negsuc, Text, find,
}
use blazerules.Schema.{ColumnType, FieldSpec, is_string_like}

-- `dicts_[c]` and `reverse_[c]`.
pub record Column : Type 0 where
  pub dict : List (Text × ℕ)
  pub reverse : List Text

abbrev is_entity : ColumnType → Bool
is_entity ColumnType.entity_key = true
is_entity _ = false

abbrev pub add_value : Text → Column → ℤ × Column
add_value value col = (
  pos (length col.dict),
  record { dict = col.dict ++ (value, length col.dict) ∷ []; reverse = col.reverse ++ value ∷ [] },
)

-- The largest `int32_t`.
abbrev pub int32_max : ℕ
int32_max = 2 ^ 31 - 1

abbrev pub is_full : ColumnType → ℕ → Column → Bool
is_full t max_size col = not (is_entity t) && leb max_size (length col.dict)

unfoldable pub get_or_create : ColumnType → ℕ → Text → Column → ℤ × Column
get_or_create t max_size value col = elim (find value col.dict) [
  | some id ↦ (pos id, col)
  | none ↦
      if is_full t max_size col
      then (negsuc 0, col)
      else if leb int32_max (length col.dict)
      then (negsuc 0, col)
      else add_value value col
]

unfoldable pub resolve : Text → Column → ℤ
resolve value col = elim (find value col.dict) [ none ↦ negsuc 0 | some id ↦ pos id ]

-- The empty view stands for an id out of range.
unfoldable pub reverse_lookup : ℤ → Column → Text
reverse_lookup (negsuc n) col = []
reverse_lookup (pos id) col = elim (get_elem? col.reverse id) [ none ↦ [] | some value ↦ value ]

unfoldable pub add_all : ColumnType → ℕ → List Text → Column → Column
unfolding get_or_create
add_all t max_size [] col = col
add_all t max_size (v ∷ vs) col = add_all t max_size vs (get_or_create t max_size v col).1

pub record DictEncoder : Type 0 where
  pub columns : List Column
  pub generation : ℕ

abbrev pub empty_column : Column
empty_column = record { dict = []; reverse = [] }

-- The constructor loads the values of closed columns.
unfoldable pub load_field : ℕ → FieldSpec → Column
unfolding is_string_like add_all
load_field max_size f =
    let loaded = add_all f.type_of max_size f.closed_values empty_column in
    if is_string_like f.type_of then loaded else empty_column

unfoldable pub make_columns : ℕ → List FieldSpec → List Column
unfolding load_field
make_columns max_size [] = []
make_columns max_size (f ∷ fs) = load_field max_size f ∷ make_columns max_size fs

unfoldable pub make_encoder : ℕ → List FieldSpec → DictEncoder
unfolding make_columns
make_encoder max_size fields = record { columns = make_columns max_size fields; generation = 0 }

abbrev put_column : ℕ → Column → DictEncoder → DictEncoder
put_column c col enc = record enc { columns = set enc.columns c col }

-- An operation on a column that is not there is not defined.
unfoldable pub preload : ColumnType → ℕ → ℕ → List Text → DictEncoder → Option DictEncoder
unfolding add_all
preload t max_size c values enc = elim (get_elem? enc.columns c) [
  | none ↦ none
  | some col ↦ some (record (put_column c (add_all t max_size values col) enc) {
    generation = suc enc.generation;
  })
]

unfoldable pub clear_all : List Column → List Column
clear_all [] = []
clear_all (col ∷ cols) = empty_column ∷ clear_all cols

unfoldable pub reset : DictEncoder → DictEncoder
unfolding clear_all
reset enc = record { columns = clear_all enc.columns; generation = suc enc.generation }

-- `encode_batch` of one string column. A column without nulls and one with nulls write the ids alike.
unfoldable pub encode_strings :
    ColumnType → ℕ → List (Option Text) → Column → List (Option ℤ) × Column
unfolding get_or_create
encode_strings t max_size [] col = ([], col)
encode_strings t max_size (none ∷ rows) col =
    let (ids, col') = encode_strings t max_size rows col in (none ∷ ids, col')
encode_strings t max_size (some value ∷ rows) col =
    let (id, col₁) = get_or_create t max_size value col in
    let (ids, col₂) = encode_strings t max_size rows col₁ in (some id ∷ ids, col₂)

-- `mapped_dictionary` of a column that arrives with a dictionary of its own.
unfoldable pub map_dictionary : ColumnType → ℕ → List (Option Text) → Column → List ℤ × Column
unfolding get_or_create
map_dictionary t max_size [] col = ([], col)
map_dictionary t max_size (none ∷ values) col =
    let (ids, col') = map_dictionary t max_size values col in (negsuc 0 ∷ ids, col')
map_dictionary t max_size (some value ∷ values) col =
    let (id, col₁) = get_or_create t max_size value col in
    let (ids, col₂) = map_dictionary t max_size values col₁ in (id ∷ ids, col₂)

abbrev pub non_negative : ℤ → Option ℤ
non_negative (pos id) = some (pos id)
non_negative (negsuc n) = none

abbrev pub mapped : List ℤ → ℕ → Option ℤ
mapped ids di = elim (get_elem? ids di) [ none ↦ none | some code ↦ non_negative code ]

unfoldable pub encode_index : List ℤ → Option ℤ → Option ℤ
encode_index ids none = none
encode_index ids (some (negsuc n)) = none
encode_index ids (some (pos di)) = mapped ids di

unfoldable pub encode_indices : List ℤ → List (Option ℤ) → List (Option ℤ)
unfolding encode_index
encode_indices ids [] = []
encode_indices ids (i ∷ rows) = encode_index ids i ∷ encode_indices ids rows

unfoldable pub encode_dictionary :
    ColumnType → ℕ → List (Option Text) → List (Option ℤ) → Column → List (Option ℤ) × Column
unfolding map_dictionary encode_indices
encode_dictionary t max_size dictionary indices col =
    let (ids, col') = map_dictionary t max_size dictionary col in (encode_indices ids indices, col')
