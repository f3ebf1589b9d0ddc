-- ===== src/Schema/Examples.antt =====
-- A schema with an entity, an amount and a second field of the entity's name.
use blazerules.Prelude.{◌≡◌, true, false, List, [], ◌∷◌, length, pos, negsuc, Text}
use blazerules.Schema.{
  ColumnType, SchemaSource, FieldSpec, WindowColumnSpec, make_schema, index_of, with_window_columns,
  num_window_columns,
}
use blazerules.Schema.Index.{
  as_int, first_index, index_of-first_index, index_of-with_window_columns,
}

abbrev field : Text → ColumnType → FieldSpec
field name t = record {
  name = name;
  type_of = t;
  nullable = true;
  is_entity_field = false;
  source = SchemaSource.user_provided_json;
  closed_values = [];
}

abbrev user : Text
user = 117 ∷ []

abbrev amount : Text
amount = 97 ∷ []

abbrev fields : List FieldSpec
fields =
    field user ColumnType.entity_key
    ∷ field amount ColumnType.float64
    ∷ field user ColumnType.string
    ∷ []

abbrev window : List WindowColumnSpec
window =
    record { name = 119 ∷ []; type_of = ColumnType.int32 }
    ∷ record { name = amount; type_of = ColumnType.int32 }
    ∷ []

index_of-first_index_example :
    index_of (make_schema fields) amount ≡ as_int (first_index amount 0 fields)
index_of-first_index_example = index_of-first_index fields amount

missing : index_of (make_schema fields) (120 ∷ []) ≡ negsuc 0
missing = index_of-first_index fields (120 ∷ [])

index_of-with_window_columns_example :
    (index_of (with_window_columns (make_schema fields) window) amount ≡ pos 1)
    × ((with_window_columns (make_schema fields) window).ingested_columns ≡ length fields)
    × (num_window_columns (with_window_columns (make_schema fields) window) ≡ length window)
index_of-with_window_columns_example =
    index_of-with_window_columns fields window amount 1 (index_of-first_index fields amount)
