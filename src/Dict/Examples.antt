-- ===== src/Dict/Examples.antt =====
-- A schema with one closed categorical column, for at most two values.
use blazerules.Prelude.{
  ◌≡◌, refl, sym, true, false, List, [], ◌∷◌, Option, none, some, ℤ, pos, negsuc, Text,
}
use blazerules.Schema.{ColumnType, SchemaSource, FieldSpec, is_string_like}
use blazerules.Dict
use blazerules.Dict.{
  Column, DictEncoder, make_encoder, get_or_create, reset, add_all, encode_strings,
  encode_dictionary, int32_max, is_entity,
}
use blazerules.Dict.Entries.{IsConsistent, IsSized, Keeps}
use blazerules.Dict.Stable.{encode, forget, Reach, start, next, AllGood, Reach-AllGood}
use blazerules.Dict.Decode.{
  AllEncode, AllEncodeOrNull, encode_strings-decode, encode_dictionary-decode,
}

abbrev red : Text
red = 114 ∷ []

abbrev blue : Text
blue = 98 ∷ []

abbrev green : Text
green = 103 ∷ []

abbrev fields : List FieldSpec
fields =
    record {
      name = 99 ∷ [];
      type_of = ColumnType.categorical;
      nullable = true;
      is_entity_field = false;
      source = SchemaSource.user_provided_json;
      closed_values = red ∷ [];
    }
    ∷ []

abbrev closed : Column
closed = record { dict = (red, 0) ∷ []; reverse = red ∷ [] }

abbrev enc : DictEncoder
enc = record { columns = closed ∷ []; generation = 0 }

made : make_encoder 2 fields ≡ enc
unfolding make_encoder blazerules.Dict.make_columns blazerules.Dict.load_field is_string_like
    add_all get_or_create
made = refl

enc-Reach : Reach fields 2 enc
enc-Reach = rw (sym made) start

Reach-AllGood_example :
    AllGood fields 2
      (reset (record {
        columns = (get_or_create ColumnType.categorical 2 blue closed).1 ∷ [];
        generation = 0;
      })).columns
Reach-AllGood_example =
    Reach-AllGood fields 2 _ (next (next enc-Reach (encode 0 closed blue refl)) forget)

closed-Good : IsConsistent closed × IsSized ColumnType.categorical 2 closed
closed-Good = Reach-AllGood fields 2 enc enc-Reach 0 closed refl

-- A third value finds no room: -1 in one encoding and null in the other.
strings_run :
    (encode_strings ColumnType.categorical 2
      (some blue ∷ none ∷ some green ∷ some red ∷ [])
      closed).0
    ≡ some (pos 1) ∷ none ∷ some (negsuc 0) ∷ some (pos 0) ∷ []
unfolding encode_strings get_or_create
strings_run = refl

dictionary_run :
    (encode_dictionary ColumnType.categorical 2
      (some blue ∷ none ∷ some green ∷ some red ∷ [])
      (some (pos 0) ∷ some (pos 1) ∷ some (pos 2) ∷ some (pos 3) ∷ [])
      closed).0
    ≡ some (pos 1) ∷ none ∷ none ∷ some (pos 0) ∷ []
unfolding encode_dictionary blazerules.Dict.map_dictionary blazerules.Dict.encode_indices
    blazerules.Dict.encode_index get_or_create
dictionary_run = refl

abbrev rows : List (Option Text)
rows = some blue ∷ none ∷ some green ∷ some red ∷ []

encode_strings-decode_example :
    AllEncode
      (encode_strings ColumnType.categorical 2 rows closed).1
      rows
      (encode_strings ColumnType.categorical 2 rows closed).0
    × Keeps closed (encode_strings ColumnType.categorical 2 rows closed).1
encode_strings-decode_example =
    encode_strings-decode ColumnType.categorical 2 rows closed closed-Good.0 closed-Good.1

abbrev indices : List (Option ℤ)
indices = some (pos 3) ∷ none ∷ some (pos 0) ∷ some (pos 9) ∷ some (negsuc 4) ∷ []

encode_dictionary-decode_example :
    AllEncodeOrNull
      (encode_dictionary ColumnType.categorical 2 rows indices closed).1
      rows
      indices
      (encode_dictionary ColumnType.categorical 2 rows indices closed).0
    × Keeps closed (encode_dictionary ColumnType.categorical 2 rows indices closed).1
encode_dictionary-decode_example =
    encode_dictionary-decode ColumnType.categorical 2 rows indices closed closed-Good.0
      closed-Good.1
