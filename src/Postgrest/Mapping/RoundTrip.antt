-- ===== src/Postgrest/Mapping/RoundTrip.antt =====
-- Rows and filters under remote names, and back.
use lowcode_wrapper.Base.{
  Bool, true, false, not, Option, none, some, is_some, or_else, List, [], ◌∷◌, ◌++◌, Text, text_eq,
  text_eq_iff, text_eq_refl, text_eq_comm, Bool-cases, map, ◌≡◌, refl, sym, ap, ◌∙◌, arith, any,
  all, distinct, Option-cases, inl, inr, any-append,
}
use mathlib.Core.List.{append_assoc, append-nil}
use lowcode_wrapper.Models.{Value, Fields, Column, remote_column_name}
use lowcode_wrapper.Postgrest.Mapping.{
  last_of, remote_of, local_of, set_field, rename_fields, map_row_to_remote, map_rows_from_remote,
}

-- The keys of a `map[string]any` are distinct.
abbrev pub has_distinct_keys : Fields → Bool
has_distinct_keys = distinct (λ (a b : Text × Value). text_eq b.0 a.0)

-- No two columns have one remote name.
abbrev pub has_distinct_remotes : List Column → Bool
has_distinct_remotes =
    distinct (λ (a b : Column). text_eq (remote_column_name b) (remote_column_name a))

-- Every key of the row is the name of a column.
abbrev pub has_columns : List Column → Fields → Bool
has_columns cols = all (λ (e : Text × Value). is_some (remote_of cols e.0))

abbrev pub renamed : (Text → Text) → Fields → Fields
renamed f = map (λ (e : Text × Value). (f e.0, e.1))

abbrev has_key : Text → Fields → Bool
has_key k = any (λ (e : Text × Value). text_eq e.0 k)

module _ (key val : Column → Text) where
  last_of-none :
      (cols : List Column) (k : Text)
      → any (λ (c : Column). text_eq (key c) k) cols ≡ false
      → last_of key val cols k ≡ none
  unfolding last_of
  last_of-none [] k h = refl
  last_of-none (c ∷ cols) k h = ground (arith, last_of-none cols k)

-- The map from remote names undoes the map to them.
last_of-last_of :
    (key val : Column → Text) (cols : List Column) (k r : Text)
    → distinct (λ (a b : Column). text_eq (val b) (val a)) cols ≡ true
    → last_of key val cols k ≡ some r
    → last_of val key cols r ≡ some k
unfolding last_of
last_of-last_of key val [] k r d e = cc
last_of-last_of key val (c ∷ cols) k r d e = ground (
  arith,
  last_of-last_of key val cols k r,
  last_of-none val key cols (val c),
  text_eq_iff (key c) k,
  text_eq_refl (val c),
)

set_field-absent :
    (k : Text) (v : Value) (row : Fields)
    → has_key k row ≡ false
    → set_field k v row ≡ row ++ (k, v) ∷ []
unfolding set_field
set_field-absent k v [] h = refl
set_field-absent k v ((j, w) ∷ row) h = ground (arith, set_field-absent k v row)

module _ (f : Text → Text) where
  abbrev is_fresh : Fields → (Text × Value) → Bool
  is_fresh out e = not (has_key (f e.0) out)

  abbrev clash : (Text × Value) → (Text × Value) → Bool
  clash a b = text_eq (f a.0) (f b.0)

  fresh-append :
      (k : Text) (v : Value) (out row : Fields)
      → all (is_fresh out) row ≡ true
      → any (clash (k, v)) row ≡ false
      → all (is_fresh (out ++ (f k, v) ∷ [])) row ≡ true
  fresh-append k v out [] h c = refl
  fresh-append k v out ((j, w) ∷ row) h c = ground (
    arith,
    fresh-append k v out row,
    any-append (λ (e : Text × Value). text_eq e.0 (f j)) out ((f k, v) ∷ []),
  )

-- Where the new names are all different, the fields come out in the order of the row.
pub rename_fields-renamed :
    (names : Text → Option Text) (out row : Fields)
    → all (is_fresh (λ k. or_else (names k) k) out) row ≡ true
    → distinct (clash (λ k. or_else (names k) k)) row ≡ true
    → rename_fields names out row ≡ out ++ renamed (λ k. or_else (names k) k) row
unfolding rename_fields
rename_fields-renamed names out [] h d = sym (append-nil out)
rename_fields-renamed names out ((k, v) ∷ row) h d =
    let f : Text → Text = λ j. or_else (names j) j in
    let fresh : has_key (f k) out ≡ false = ground arith in
    let rest : all (is_fresh f (out ++ (f k, v) ∷ [])) row ≡ true =
      fresh-append f k v out row (ground arith) (ground arith) in
    ap (λ o. rename_fields names o row) (set_field-absent (f k) v out fresh)
    ∙ rename_fields-renamed names (out ++ (f k, v) ∷ []) row rest (ground arith)
    ∙ append_assoc out ((f k, v) ∷ []) (renamed f row)

module _ (f g : Text → Text) where
  -- `g` takes every new key of the row back.
  abbrev pub is_undone : Fields → Bool
  is_undone = all (λ (e : Text × Value). text_eq (g (f e.0)) e.0)

  undone_apart :
      (k j : Text)
      → text_eq (g (f k)) k ≡ true
      → text_eq (g (f j)) j ≡ true
      → text_eq j k ≡ false
      → (text_eq (f k) (f j) ≡ false) × (text_eq (g (f k)) (g (f j)) ≡ false)
  undone_apart k j a b h =
      let back : g (f k) ≡ k = (text_eq_iff (g (f k)) k).0 a in
      let back' : g (f j) ≡ j = (text_eq_iff (g (f j)) j).0 b in
      let apart : text_eq (g (f k)) (g (f j)) ≡ false = rw (back, back', text_eq_comm k j) h in
      (
        elim (Bool-cases (text_eq (f k) (f j))) [
          | inl same ↦
              let one : g (f k) ≡ g (f j) = ap g ((text_eq_iff (f k) (f j)).0 same) in
              absurd (ground (arith, (text_eq_iff (g (f k)) (g (f j))).1 one))
          | inr other ↦ other
        ],
        apart,
      )

  any-clash :
      (k : Text) (v : Value) (row : Fields)
      → text_eq (g (f k)) k ≡ true
      → is_undone row ≡ true
      → any (λ (b : Text × Value). text_eq b.0 k) row ≡ false
      → (any (clash f (k, v)) row ≡ false) × (any (clash g (f k, v)) (renamed f row) ≡ false)
  any-clash k v [] e u h = (refl, refl)
  any-clash k v ((j, w) ∷ row) e u h =
      let (p, q) = any-clash k v row e (ground arith) (ground arith) in
      let (r, s) = undone_apart k j e (ground arith) (ground arith) in (ground arith, ground arith)

  distinct-renamed :
      (row : Fields)
      → is_undone row ≡ true
      → has_distinct_keys row ≡ true
      → (distinct (clash f) row ≡ true) × (distinct (clash g) (renamed f row) ≡ true)
  distinct-renamed [] u d = (refl, refl)
  distinct-renamed ((k, v) ∷ row) u d =
      let (p, q) = any-clash k v row (ground arith) (ground arith) (ground arith) in
      let (r, s) = distinct-renamed row (ground arith) (ground arith) in
      (ground arith, ground arith)

  renamed_back : (row : Fields) → is_undone row ≡ true → renamed g (renamed f row) ≡ row
  renamed_back [] u = refl
  renamed_back ((k, v) ∷ row) u =
      let back : g (f k) ≡ k = (text_eq_iff (g (f k)) k).0 (ground arith) in
      ap (λ j. (j, v) ∷ renamed g (renamed f row)) back
      ∙ ap (λ rest. (k, v) ∷ rest) (renamed_back row (ground arith))

  fresh_nil : (row : Fields) → all (is_fresh f []) row ≡ true
  fresh_nil [] = refl
  fresh_nil (e ∷ row) = fresh_nil row

-- The name of a column under its remote name.
abbrev pub to_remote : List Column → Text → Text
to_remote cols k = or_else (remote_of cols k) k

abbrev pub to_local : List Column → Text → Text
to_local cols k = or_else (local_of cols k) k

pub to_local-to_remote :
    (cols : List Column) (k : Text)
    → has_distinct_remotes cols ≡ true
    → is_some (remote_of cols k) ≡ true
    → to_local cols (to_remote cols k) ≡ k
unfolding remote_of local_of
to_local-to_remote cols k d h = elim (Option-cases (remote_of cols k)) [
  | inl missing ↦ ground arith
  | inr (r, found) ↦
      let back = last_of-last_of (λ c. c.name) remote_column_name cols k r d found in
      rw (found, back) refl
]

pub is_undone_columns :
    (cols : List Column) (row : Fields)
    → has_distinct_remotes cols ≡ true
    → has_columns cols row ≡ true
    → is_undone (to_remote cols) (to_local cols) row ≡ true
is_undone_columns cols [] d h = refl
is_undone_columns cols ((k, v) ∷ row) d h =
    let here : text_eq (to_local cols (to_remote cols k)) k ≡ true =
      (text_eq_iff (to_local cols (to_remote cols k)) k).1
        (to_local-to_remote cols k d (ground arith)) in
    let rest = is_undone_columns cols row d (ground arith) in ground arith

-- Under remote names that are all different, a row with one entry per key, each key a column's
-- name, keeps its order and its values: its keys become the remote names.
pub map_row_to_remote-renamed :
    (cols : List Column) (row : Fields)
    → has_distinct_remotes cols ≡ true
    → has_columns cols row ≡ true
    → has_distinct_keys row ≡ true
    → map_row_to_remote cols row ≡ renamed (to_remote cols) row
unfolding map_row_to_remote
map_row_to_remote-renamed cols row d h k =
    let u = is_undone_columns cols row d h in
    rename_fields-renamed (remote_of cols) [] row (fresh_nil (to_remote cols) (to_local cols) row)
      (distinct-renamed (to_remote cols) (to_local cols) row u k).0

-- What is sent to the remote side comes back: where no two columns have one remote name, rows whose
-- keys are distinct names of columns are renamed by `MapRowToRemote` and given back by
-- `MapRowsFromRemote` as they were, in their order.
pub map_rows_from_remote-map_row_to_remote :
    (cols : List Column) (rows : List Fields)
    → has_distinct_remotes cols ≡ true
    → all (has_columns cols) rows ≡ true
    → all has_distinct_keys rows ≡ true
    → map_rows_from_remote cols (map (map_row_to_remote cols) rows) ≡ rows
unfolding map_rows_from_remote
map_rows_from_remote-map_row_to_remote cols [] d h k = refl
map_rows_from_remote-map_row_to_remote cols (row ∷ rows) d h k =
    let u = is_undone_columns cols row d (ground arith) in
    let sent = map_row_to_remote-renamed cols row d (ground arith) (ground arith) in
    let f = to_remote cols in
    let g = to_local cols in
    let back =
      rename_fields-renamed (local_of cols) [] (renamed f row) (fresh_nil g f (renamed f row))
        (distinct-renamed f g row u (ground arith)).1 in
    let rest = map_rows_from_remote-map_row_to_remote cols rows d (ground arith) (ground arith) in
    ap
      (λ r.
        rename_fields (local_of cols) [] r
        ∷ map_rows_from_remote cols (map (map_row_to_remote cols) rows))
      sent
    ∙ ap (λ r. r ∷ map_rows_from_remote cols (map (map_row_to_remote cols) rows))
        (back ∙ renamed_back f g row u)
    ∙ ap (λ rs. row ∷ rs) rest
