-- ===== src/Dict/Entries.antt =====
-- One column: its dictionary and its reverse table, and what `get_or_create` does to them.
use blazerules.Prelude.{
  not-leb→lt, ℕ, zero, suc, ◌<◌, ◌≤◌, ◌≡◌, ◌⊎◌, refl, sym, ap, ◌∙◌, inl, inr, Bool, true, false,
  ◌||◌, List, [], ◌∷◌, ◌++◌, none, some, length, length-append, get_elem?, leb, ℤ, pos, negsuc,
  Text, text_eq, text_eq→≡, find, find-append_some, find-append_none, find-one, arith, Bool-cases,
  Option-cases, if_both, option_both,
}
use blazerules.Schema.{ColumnType}
use blazerules.Dict.{
  Column, get_or_create, add_value, int32_max, is_entity, is_full, empty_column, add_all,
}

-- The reverse table lists the values by their ids.
pub record IsConsistent (col : Column) : Type 0 where
  pub size : length col.reverse ≡ length col.dict
  pub back : (v : Text) (id : ℕ) → find v col.dict ≡ some id → get_elem? col.reverse id ≡ some v
  pub forth : (v : Text) (id : ℕ) → get_elem? col.reverse id ≡ some v → find v col.dict ≡ some id

-- The sizes that the guards allow.
abbrev pub IsSized : ColumnType → ℕ → Column → Type 0
IsSized t max_size col =
    (length col.dict ≤ int32_max) × (is_entity t ≡ false → length col.dict ≤ max_size)

-- No value changes its id.
abbrev pub Keeps : Column → Column → Type 0
Keeps col col' = (v : Text) (id : ℕ) → find v col.dict ≡ some id → find v col'.dict ≡ some id

abbrev pub no_room : ColumnType → ℕ → Column → Bool
no_room t max_size col = is_full t max_size col || leb int32_max (length col.dict)

-- The id of a value, or -1 from a column without room, which is as it was.
abbrev pub Created : ColumnType → ℕ → Text → Column → ℤ × Column → Type 0
Created t max_size value col (pos id, col') = find value col'.dict ≡ some id
Created t max_size value col (negsuc n, col') =
    (n ≡ 0) × (col' ≡ col) × (find value col.dict ≡ none) × (no_room t max_size col ≡ true)

pub record Adds (t : ColumnType) (max_size : ℕ) (value : Text) (col : Column) (result : ℤ × Column)
    : Type 0 where
  pub consistent : IsConsistent result.1
  pub sized : IsSized t max_size result.1
  pub keeps : Keeps col result.1
  pub created : Created t max_size value col result

snoc_at :
    (xs : List Text) (a b : Text) (i : ℕ)
    → get_elem? (xs ++ a ∷ []) i ≡ some b
    → (get_elem? xs i ≡ some b) ⊎ ((i ≡ length xs) × (b ≡ a))
snoc_at [] a b zero h = inr (refl, ground arith)
snoc_at [] a b (suc i) h = absurd (ground arith)
snoc_at (x ∷ xs) a b zero h = inl h
snoc_at (x ∷ xs) a b (suc i) h = elim (snoc_at xs a b i h) [
  | inl e ↦ inl e
  | inr e ↦ inr (ap suc e.0, e.1)
]

at_snoc :
    (xs : List Text) (a b : Text) (i : ℕ)
    → get_elem? xs i ≡ some b
    → get_elem? (xs ++ a ∷ []) i ≡ some b
at_snoc [] a b i h = absurd (ground arith)
at_snoc (x ∷ xs) a b zero h = h
at_snoc (x ∷ xs) a b (suc i) h = at_snoc xs a b i h

at_end : (xs : List Text) (a : Text) → get_elem? (xs ++ a ∷ []) (length xs) ≡ some a
at_end [] a = refl
at_end (x ∷ xs) a = at_end xs a

find-one_inv : (k v : Text) (i id : ℕ) → find v ((k, i) ∷ []) ≡ some id → (v ≡ k) × (id ≡ i)
find-one_inv k v i id h = elim (Bool-cases (text_eq k v)) [
  | inl t ↦ (sym (text_eq→≡ k v t), ground (arith, t, h))
  | inr f ↦ absurd (ground (arith, f, h))
]

find-snoc :
    (m : List (Text × ℕ)) (k v : Text) (i id : ℕ)
    → find v (m ++ (k, i) ∷ []) ≡ some id
    → (find v m ≡ some id) ⊎ ((v ≡ k) × (id ≡ i))
find-snoc m k v i id h = elim (Option-cases (find v m)) [
  | inl e ↦ inr (find-one_inv k v i id (sym (find-append_none v m ((k, i) ∷ []) e) ∙ h))
  | inr (w, e) ↦ inl (e ∙ sym (find-append_some v m ((k, i) ∷ []) w e) ∙ h)
]

add_value-IsConsistent :
    (value : Text) (col : Column)
    → find value col.dict ≡ none
    → IsConsistent col
    → IsConsistent (add_value value col).1
add_value-IsConsistent value col missing c =
    let n = length col.dict in
    let added : find value (col.dict ++ (value, n) ∷ []) ≡ some n =
      find-append_none value col.dict ((value, n) ∷ []) missing ∙ find-one value n in
    record {
      size = omega (
        arith,
        c.size,
        length-append col.reverse (value ∷ []),
        length-append col.dict ((value, n) ∷ []),
      );
      back = λ v id h. elim (find-snoc col.dict value v n id h) [
        | inl e ↦ at_snoc col.reverse value v id (c.back v id e)
        | inr (e, e') ↦
            let same : id ≡ length col.reverse = omega (arith, c.size) in
            rw (e, same) (at_end col.reverse value)
      ];
      forth = λ v id h. elim (snoc_at col.reverse value v id h) [
        | inl e ↦ find-append_some v col.dict ((value, n) ∷ []) id (c.forth v id e)
        | inr (e, e') ↦ let same : id ≡ n = omega (arith, c.size) in rw (e', same) added
      ];
    }

not_full :
    (t : ColumnType) (max_size : ℕ) (col : Column)
    → is_entity t ≡ false
    → is_full t max_size col ≡ false
    → length col.dict < max_size
not_full t max_size col e h = not-leb→lt max_size (length col.dict) (ground (arith, e, h))

pub get_or_create-Adds :
    (t : ColumnType) (max_size : ℕ) (value : Text) (col : Column)
    → IsConsistent col
    → IsSized t max_size col
    → Adds t max_size value col (get_or_create t max_size value col)
unfolding get_or_create
get_or_create-Adds t max_size value col c z =
    option_both (Adds t max_size value col) (find value col.dict) _ _
      (λ missing.
        if_both (Adds t max_size value col) (is_full t max_size col) _ _
          (λ full. unchanged missing (ground (arith, full)))
          (λ room.
            if_both (Adds t max_size value col) (leb int32_max (length col.dict)) _ _
              (λ full. unchanged missing (ground (arith, full)))
              (λ below. record {
                consistent = add_value-IsConsistent value col missing c;
                sized = (
                  omega (
                    arith,
                    not-leb→lt int32_max (length col.dict) below,
                    length-append col.dict ((value, length col.dict) ∷ []),
                  ),
                  λ e. omega (
                    arith,
                    not_full t max_size col e room,
                    length-append col.dict ((value, length col.dict) ∷ []),
                  ),
                );
                keeps = λ v id h. find-append_some v col.dict _ id h;
                created =
                    find-append_none value col.dict _ missing ∙ find-one value (length col.dict);
              })))
      (λ id e. record { consistent = c; sized = z; keeps = λ v i h. h; created = e })
  where
    unchanged :
        find value col.dict ≡ none
        → no_room t max_size col ≡ true
        → Adds t max_size value col (negsuc 0, col)
    unchanged missing full = record {
      consistent = c;
      sized = z;
      keeps = λ v i h. h;
      created = (refl, refl, missing, full);
    }

pub add_all-Keeps :
    (t : ColumnType) (max_size : ℕ) (values : List Text) (col : Column)
    → IsConsistent col
    → IsSized t max_size col
    → IsConsistent (add_all t max_size values col)
      × IsSized t max_size (add_all t max_size values col)
      × Keeps col (add_all t max_size values col)
unfolding add_all
add_all-Keeps t max_size [] col c z = (c, z, λ v id h. h)
add_all-Keeps t max_size (value ∷ values) col c z =
    let a = get_or_create-Adds t max_size value col c z in
    let (c', z', k) =
      add_all-Keeps t max_size values (get_or_create t max_size value col).1 a.consistent a.sized in
    (c', z', λ v id h. k v id (a.keeps v id h))

pub empty-IsConsistent : IsConsistent empty_column
empty-IsConsistent = record {
  size = refl;
  back = λ v id h. absurd (ground arith);
  forth = λ v id h. absurd (ground arith);
}

pub empty-IsSized : (t : ColumnType) (max_size : ℕ) → IsSized t max_size empty_column
empty-IsSized t max_size = (omega arith, λ e. omega arith)

-- A column without room stays as it is.
pub get_or_create-no_room :
    (t : ColumnType) (max_size : ℕ) (value : Text) (col : Column)
    → no_room t max_size col ≡ true
    → (get_or_create t max_size value col).1 ≡ col
unfolding get_or_create
get_or_create-no_room t max_size value col full =
    option_both (λ (r : ℤ × Column). r.1 ≡ col) (find value col.dict) _ _
      (λ missing.
        if_both (λ (r : ℤ × Column). r.1 ≡ col) (is_full t max_size col) _ _ (λ e. refl)
          (λ e.
            if_both (λ (r : ℤ × Column). r.1 ≡ col) (leb int32_max (length col.dict)) _ _
              (λ e'. refl) (λ e'. absurd (ground (arith, full, e, e')))))
      (λ id e. refl)
