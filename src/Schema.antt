-- ===== src/Schema.antt =====
-- `BlazeRulesSchema` of include/blazerules/schema.h and src/compiler/schema.cpp. `coerce_from`,
-- which no method reads, is left out.
pub mod Index
pub mod Examples
use blazerules.Prelude.{
  ℕ, zero, suc, ◌+◌, ◌-◌, Bool, true, false, List, [], ◌∷◌, ◌++◌, map, Option, none, some, length,
  get_elem?, ℤ, pos, negsuc, Text, find, emplace,
}

pub data ColumnType : Type 0 where
  float32 float64 int32 int64 categorical entity_key timestamp_ms boolean string : ColumnType

pub data SchemaSource : Type 0 where
  user_provided_json derived_from_arrow inferred_and_bound : SchemaSource

pub record FieldSpec : Type 0 where
  pub name : Text
  pub type_of : ColumnType
  pub nullable : Bool
  pub is_entity_field : Bool
  pub source : SchemaSource
  pub closed_values : List Text

pub record WindowColumnSpec : Type 0 where
  pub name : Text
  pub type_of : ColumnType

unfoldable pub is_string_like : ColumnType → Bool
is_string_like ColumnType.categorical = true
is_string_like ColumnType.entity_key = true
is_string_like _ = false

pub record BlazeRulesSchema : Type 0 where
  pub fields : List FieldSpec
  pub name_to_index : List (Text × ℕ)
  pub ingested_columns : ℕ

abbrev pub mark_type : ColumnType → FieldSpec → FieldSpec
mark_type ColumnType.entity_key f = record f { is_entity_field = true }
mark_type _ f = f

unfoldable pub mark_entity : FieldSpec → FieldSpec
mark_entity f = mark_type f.type_of f

-- The loop of the constructor over the names, from the index `i`.
unfoldable pub index_fields : ℕ → List FieldSpec → List (Text × ℕ) → List (Text × ℕ)
index_fields i [] index = index
index_fields i (f ∷ fs) index = index_fields (suc i) fs (emplace f.name i index)

unfoldable pub make_schema : List FieldSpec → BlazeRulesSchema
unfolding index_fields mark_entity
make_schema fields = record {
  fields = map mark_entity fields;
  name_to_index = index_fields 0 fields [];
  ingested_columns = length fields;
}

unfoldable pub index_of : BlazeRulesSchema → Text → ℤ
index_of schema name = elim (find name schema.name_to_index) [ none ↦ negsuc 0 | some i ↦ pos i ]

unfoldable pub has_field : BlazeRulesSchema → Text → Bool
has_field schema name = elim (find name schema.name_to_index) [ none ↦ false | some i ↦ true ]

unfoldable pub num_fields : BlazeRulesSchema → ℕ
num_fields schema = length schema.fields

unfoldable pub num_window_columns : BlazeRulesSchema → ℕ
unfolding num_fields
num_window_columns schema = num_fields schema - schema.ingested_columns

-- `none` is an index out of range.
unfoldable pub field_at : BlazeRulesSchema → ℕ → Option FieldSpec
field_at schema i = get_elem? schema.fields i

unfoldable pub window_field : WindowColumnSpec → FieldSpec
window_field col = record {
  name = col.name;
  type_of = col.type_of;
  nullable = false;
  is_entity_field = false;
  source = SchemaSource.inferred_and_bound;
  closed_values = [];
}

unfoldable pub with_window_columns : BlazeRulesSchema → List WindowColumnSpec → BlazeRulesSchema
unfolding make_schema window_field
with_window_columns schema cols = record (make_schema (schema.fields ++ map window_field cols)) {
  ingested_columns = schema.ingested_columns;
}
