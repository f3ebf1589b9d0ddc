-- ===== src/Dict/Stable.antt =====
-- The columns of an encoder that any operations have led to.
use mathlib.Core.Path.{subst}
use blazerules.Prelude.{
  ℕ, zero, suc, ◌≡◌, sym, ap, inl, inr, List, [], ◌∷◌, some, get_elem?, get_elem?-set, some-inj,
  set, Text, arith, Option-cases, if_both,
}
use blazerules.Schema.{ColumnType, FieldSpec, is_string_like}
use blazerules.Dict.{
  Column, DictEncoder, get_or_create, empty_column, add_all, load_field, make_columns, make_encoder,
  preload, clear_all, reset,
}
use blazerules.Dict.Entries.{
  IsConsistent, IsSized, get_or_create-Adds, add_all-Keeps, empty-IsConsistent, empty-IsSized,
}

abbrev pub types_at : List FieldSpec → ℕ → ColumnType
types_at [] c = ColumnType.float64
types_at (f ∷ fs) zero = f.type_of
types_at (f ∷ fs) (suc c) = types_at fs c

-- One operation of an encoder for a schema: a value of a batch is encoded, values are loaded, or
-- everything is forgotten.
pub data Step (fields : List FieldSpec) (max_size : ℕ) (enc : DictEncoder)
    : DictEncoder → Type 0 where
  encode :
      (c : ℕ) (col : Column) (value : Text)
      → get_elem? enc.columns c ≡ some col
      → Step fields max_size enc (record enc {
        columns = set enc.columns c (get_or_create (types_at fields c) max_size value col).1;
      })
  load :
      (c : ℕ) (values : List Text) (enc' : DictEncoder)
      → preload (types_at fields c) max_size c values enc ≡ some enc'
      → Step fields max_size enc enc'
  forget : Step fields max_size enc (reset enc)

pub data Reach (fields : List FieldSpec) (max_size : ℕ) : DictEncoder → Type 0 where
  start : Reach fields max_size (make_encoder max_size fields)
  next :
      {enc enc' : DictEncoder}
      → Reach fields max_size enc
      → Step fields max_size enc enc'
      → Reach fields max_size enc'

module _ (fields : List FieldSpec) (max_size : ℕ) where
  abbrev pub AllGood : List Column → Type 0
  AllGood cols =
      (c : ℕ) (col : Column)
      → get_elem? cols c ≡ some col
      → IsConsistent col × IsSized (types_at fields c) max_size col

  set-AllGood :
      (cols : List Column) (c : ℕ) (col : Column)
      → AllGood cols
      → IsConsistent col
      → IsSized (types_at fields c) max_size col
      → AllGood (set cols c col)
  set-AllGood cols c col g h z d col' e = elim (get_elem?-set cols c d col col' e) [
    | inl (ed, ec) ↦ rw (sym ed, sym ec) (h, z)
    | inr kept ↦ g d col' kept
  ]

  clear-AllGood :
      (cols : List Column) (c : ℕ) (col : Column)
      → get_elem? (clear_all cols) c ≡ some col
      → col ≡ empty_column
  unfolding clear_all
  clear-AllGood [] c col e = absurd (ground arith)
  clear-AllGood (x ∷ xs) zero col e = sym (some-inj empty_column col e)
  clear-AllGood (x ∷ xs) (suc c) col e = clear-AllGood xs c col e

  load_field-Good :
      (t : FieldSpec)
      → IsConsistent (load_field max_size t) × IsSized t.type_of max_size (load_field max_size t)
  unfolding load_field
  load_field-Good t =
      let (c, z, k) =
        add_all-Keeps t.type_of max_size t.closed_values empty_column empty-IsConsistent
          (empty-IsSized t.type_of max_size) in
      if_both (λ col. IsConsistent col × IsSized t.type_of max_size col) (is_string_like t.type_of)
        _ _ (λ e. (c, z)) (λ e. (empty-IsConsistent, empty-IsSized t.type_of max_size))

make_columns-Good :
    (fields : List FieldSpec) (max_size : ℕ) (c : ℕ) (col : Column)
    → get_elem? (make_columns max_size fields) c ≡ some col
    → IsConsistent col × IsSized (types_at fields c) max_size col
unfolding make_columns
make_columns-Good [] max_size c col e = absurd (ground arith)
make_columns-Good (f ∷ fs) max_size zero col e =
    subst (λ x. IsConsistent x × IsSized f.type_of max_size x) (some-inj _ col e)
      (load_field-Good (f ∷ fs) max_size f)
make_columns-Good (f ∷ fs) max_size (suc c) col e = make_columns-Good fs max_size c col e

preload-columns :
    (t : ColumnType) (max_size c : ℕ) (values : List Text) (enc enc' : DictEncoder)
    → preload t max_size c values enc ≡ some enc'
    → (col : Column) × (get_elem? enc.columns c ≡ some col)
      × (enc'.columns ≡ set enc.columns c (add_all t max_size values col))
unfolding preload
preload-columns t max_size c values enc enc' e = elim (Option-cases (get_elem? enc.columns c)) [
  | inl m ↦ absurd (ground (arith, e, m))
  | inr (col, m) ↦
      (col, m, ap (λ (x : DictEncoder). x.columns) (sym (some-inj _ enc' (rw (preload, m) at e))))
]

Step-AllGood :
    (fields : List FieldSpec) (max_size : ℕ) (enc enc' : DictEncoder)
    → Step fields max_size enc enc'
    → AllGood fields max_size enc.columns
    → AllGood fields max_size enc'.columns
unfolding reset
Step-AllGood fields max_size enc _ (encode c col value e) g =
    let a = get_or_create-Adds (types_at fields c) max_size value col (g c col e).0 (g c col e).1 in
    set-AllGood fields max_size enc.columns c _ g a.consistent a.sized
Step-AllGood fields max_size enc enc' (load c values _ e) g =
    let (col, at_c, same) = preload-columns (types_at fields c) max_size c values enc enc' e in
    let (k, z, _) =
      add_all-Keeps (types_at fields c) max_size values col (g c col at_c).0 (g c col at_c).1 in
    rw same (set-AllGood fields max_size enc.columns c _ g k z)
Step-AllGood fields max_size enc _ forget g = λ c col e.
    let same = clear-AllGood fields max_size enc.columns c col e in
    rw same (empty-IsConsistent, empty-IsSized (types_at fields c) max_size)

-- In every encoder that any operations have made of a new one, the values of a column with an id
-- are exactly those that the reverse table has at that id, both tables have one size, and the size is
-- at most the largest id and, unless the column holds entities, the limit that was configured.
pub Reach-AllGood :
    (fields : List FieldSpec) (max_size : ℕ) (enc : DictEncoder)
    → Reach fields max_size enc
    → AllGood fields max_size enc.columns
unfolding make_encoder
Reach-AllGood fields max_size _ start = make_columns-Good fields max_size
Reach-AllGood fields max_size _ (next {enc} {enc'} r s) =
    Step-AllGood fields max_size enc enc' s (Reach-AllGood fields max_size enc r)
