-- ===== src/Schema/Index.antt =====
-- Names and indices of a schema.
use blazerules.Prelude.{
  ℕ, suc, ◌≡◌, ◌≢◌, refl, sym, ap, ◌∙◌, inl, inr, List, [], ◌∷◌, ◌++◌, map, Option, none, some,
  length, length-append, ℤ, pos, negsuc, Text, text_eq, text_eq→≡, find, emplace, find-append_some,
  find-append_none, if◌then◌else◌, arith, Bool-cases, Option-cases, option_both,
}
use blazerules.Schema.{
  ColumnType, mark_type, FieldSpec, WindowColumnSpec, index_fields, make_schema, mark_entity,
  index_of, num_fields, num_window_columns, with_window_columns, window_field,
}

-- The index of the first field of a name, counted from `i`.
abbrev pub first_index : Text → ℕ → List FieldSpec → Option ℕ
first_index name i [] = none
first_index name i (f ∷ fs) =
    let rest = first_index name (suc i) fs in if text_eq f.name name then some i else rest

abbrev first_of : Option ℕ → Option ℕ → Option ℕ
first_of none b = b
first_of (some i) b = some i

find-one_ne : (k name : Text) (i : ℕ) → k ≢ name → find name ((k, i) ∷ []) ≡ none
find-one_ne k name i h = elim (Bool-cases (text_eq k name)) [
  | inl t ↦ absurd (h (text_eq→≡ k name t))
  | inr f ↦ rw f refl
]

find-emplace :
    (k name : Text) (i : ℕ) (m : List (Text × ℕ))
    → find name (emplace k i m) ≡ first_of (find name m) (find name ((k, i) ∷ []))
find-emplace k name i m =
    option_both (λ r. find name r ≡ first_of (find name m) (find name ((k, i) ∷ []))) (find k m) _ _
      (λ e. elim (Option-cases (find name m)) [
        | inl e' ↦
            find-append_none name m ((k, i) ∷ []) e'
            ∙ ap (λ a. first_of a (find name ((k, i) ∷ []))) (sym e')
        | inr (j, e') ↦
            find-append_some name m ((k, i) ∷ []) j e'
            ∙ ap (λ a. first_of a (find name ((k, i) ∷ []))) (sym e')
      ])
      (λ w e. elim (Option-cases (find name m)) [
        | inr (j, e') ↦ e' ∙ ap (λ a. first_of a (find name ((k, i) ∷ []))) (sym e')
        | inl e' ↦
            e'
            ∙ sym (
                find-one_ne k name i
                  (λ same. let gone : find k m ≡ none = rw same e' in ground (arith, e, gone)))
            ∙ ap (λ a. first_of a (find name ((k, i) ∷ []))) (sym e')
      ])

first_of_assoc : (a b c : Option ℕ) → first_of (first_of a b) c ≡ first_of a (first_of b c)
first_of_assoc none b c = refl
first_of_assoc (some i) b c = refl

first_of-none : (a : Option ℕ) → a ≡ first_of a none
first_of-none none = refl
first_of-none (some i) = refl

first_index-cons :
    (name : Text) (i : ℕ) (f : FieldSpec) (fs : List FieldSpec)
    → first_of (find name ((f.name, i) ∷ [])) (first_index name (suc i) fs)
      ≡ first_index name i (f ∷ fs)
first_index-cons name i f fs = elim (Bool-cases (text_eq f.name name)) [
  | inl t ↦ rw t refl
  | inr n ↦ rw n refl
]

find-index_fields :
    (name : Text) (i : ℕ) (fs : List FieldSpec) (m : List (Text × ℕ))
    → find name (index_fields i fs m) ≡ first_of (find name m) (first_index name i fs)
unfolding index_fields
find-index_fields name i [] m = first_of-none (find name m)
find-index_fields name i (f ∷ fs) m =
    find-index_fields name (suc i) fs (emplace f.name i m)
    ∙ ap (λ a. first_of a (first_index name (suc i) fs)) (find-emplace f.name name i m)
    ∙ first_of_assoc (find name m) (find name ((f.name, i) ∷ [])) (first_index name (suc i) fs)
    ∙ ap (first_of (find name m)) (first_index-cons name i f fs)

abbrev pub as_int : Option ℕ → ℤ
as_int none = negsuc 0
as_int (some i) = pos i

as_int-elim : (o : Option ℕ) → elim o [ none ↦ negsuc 0 | some i ↦ pos i ] ≡ as_int o
as_int-elim none = refl
as_int-elim (some i) = refl

-- The index of a name is that of the first field that has it, or -1, although the constructor
-- fills a hash map in one pass over the fields.
pub index_of-first_index :
    (fields : List FieldSpec) (name : Text)
    → index_of (make_schema fields) name ≡ as_int (first_index name 0 fields)
unfolding index_of make_schema
index_of-first_index fields name =
    as_int-elim (find name (index_fields 0 fields []))
    ∙ ap as_int (find-index_fields name 0 fields [])

first_index-append :
    (name : Text) (i j : ℕ) (fs gs : List FieldSpec)
    → first_index name i fs ≡ some j
    → first_index name i (fs ++ gs) ≡ some j
first_index-append name i j [] gs h = ground arith
first_index-append name i j (f ∷ fs) gs h = elim (Bool-cases (text_eq f.name name)) [
  | inl t ↦ rw t (ground (arith, t, h))
  | inr n ↦ rw n (first_index-append name (suc i) j fs gs (ground (arith, n, h)))
]

mark_type-name : (t : ColumnType) (f : FieldSpec) → (mark_type t f).name ≡ f.name
mark_type-name ColumnType.entity_key f = refl
mark_type-name _ f = refl

first_index-mark :
    (name : Text) (i : ℕ) (fs : List FieldSpec)
    → first_index name i (map mark_entity fs) ≡ first_index name i fs
unfolding mark_entity
first_index-mark name i [] = refl
first_index-mark name i (f ∷ fs) =
    rw (mark_type-name f.type_of f, first_index-mark name (suc i) fs) refl

length-map : (fs : List FieldSpec) → length (map mark_entity fs) ≡ length fs
length-map [] = refl
length-map (f ∷ fs) = ap suc (length-map fs)

length-window : (cols : List WindowColumnSpec) → length (map window_field cols) ≡ length cols
length-window [] = refl
length-window (c ∷ cs) = ap suc (length-window cs)

as_int_pos : (o : Option ℕ) (i : ℕ) → as_int o ≡ pos i → o ≡ some i
as_int_pos none i h = ground arith
as_int_pos (some j) i h = ground arith

-- A name that has an index in a schema keeps it when window columns are added, the number of
-- ingested columns stays, and the window columns are counted.
pub index_of-with_window_columns :
    (fields : List FieldSpec) (cols : List WindowColumnSpec) (name : Text) (i : ℕ)
    → index_of (make_schema fields) name ≡ pos i
    → (index_of (with_window_columns (make_schema fields) cols) name ≡ pos i)
      × ((with_window_columns (make_schema fields) cols).ingested_columns ≡ length fields)
      × (num_window_columns (with_window_columns (make_schema fields) cols) ≡ length cols)
unfolding with_window_columns make_schema num_window_columns num_fields index_of
index_of-with_window_columns fields cols name i h =
    let all : List FieldSpec = map mark_entity fields ++ map window_field cols in
    let before =
      as_int_pos (first_index name 0 fields) i (sym (index_of-first_index fields name) ∙ h) in
    let after : first_index name 0 all ≡ some i =
      first_index-append name 0 i (map mark_entity fields) (map window_field cols)
        (first_index-mark name 0 fields ∙ before) in
    (
      index_of-first_index all name ∙ ap as_int after,
      refl,
      omega (
        arith,
        length-map all,
        length-append (map mark_entity fields) (map window_field cols),
        length-map fields,
        length-window cols,
      ),
    )
