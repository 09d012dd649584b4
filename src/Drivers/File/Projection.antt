-- ===== src/Drivers/File/Projection.antt =====
-- The projection of a select over a file.
use lowcode_wrapper.Base.{
  ℕ, Bool, true, not, ◌&&◌, is_some, List, [], ◌∷◌, map, all, all-keep, is_empty, Text, ◌≡◌, refl,
  ap, ◌∙◌, arith, Bool-cases, Option-cases, inl, inr,
}
use lowcode_wrapper.Models.{Fields, Column}
use lowcode_wrapper.Postgrest.Query.{Filter}
use lowcode_wrapper.Postgrest.Match.{field, match_query}
use lowcode_wrapper.Postgrest.Mapping.{map_filters, map_rows_from_remote, rename_fields}
use lowcode_wrapper.Drivers.File.{
  apply_filters, map_or_groups, apply_select, select_fields, page, select_rows,
}
use lowcode_wrapper.Drivers.File.Paging.{page-slice, all-slice}

abbrev pub lacks : Text → Fields → Bool
lacks name row = not (is_some (field name row))

apply_filters-all :
    (p : Fields → Bool) (rows : List Fields) (filters : List Filter) (groups : List (List Filter))
    → all p rows ≡ true
    → all p (apply_filters rows filters groups) ≡ true
unfolding apply_filters
apply_filters-all p rows filters groups h =
    elim (Bool-cases (is_empty filters && is_empty groups)) [
      | inl unfiltered ↦ rw (unfiltered, apply_filters) h
      | inr filtered ↦
          rw (filtered, apply_filters) (all-keep (λ row. match_query row filters groups) p rows h)
    ]

select_fields-lacks :
    (name : Text) (row : Fields) → lacks name row ≡ true → select_fields row (name ∷ []) [] ≡ []
unfolding select_fields
select_fields-lacks name row h = elim (Option-cases (field name row)) [
  | inl absent ↦ rw (absent, select_fields) refl
  | inr (v, found) ↦ ground arith
]

all-map-lacks :
    (name : Text) (rows : List Fields)
    → all (lacks name) rows ≡ true
    → all is_empty (map (λ row. select_fields row (name ∷ []) []) rows) ≡ true
all-map-lacks name [] h = refl
all-map-lacks name (row ∷ rows) h = elim (Bool-cases (lacks name row)) [
  | inl lacking ↦ rw (select_fields-lacks name row lacking) (all-map-lacks name rows (ground arith))
  | inr having ↦ ground arith
]

apply_select-empty :
    (name : Text) (rows : List Fields)
    → all (lacks name) rows ≡ true
    → all is_empty (apply_select rows (name ∷ [])) ≡ true
unfolding apply_select
apply_select-empty = all-map-lacks

map_rows_from_remote-empty :
    (cols : List Column) (rows : List Fields)
    → all is_empty rows ≡ true
    → all is_empty (map_rows_from_remote cols rows) ≡ true
unfolding map_rows_from_remote rename_fields
map_rows_from_remote-empty cols [] h = refl
map_rows_from_remote-empty cols ([] ∷ rows) h = map_rows_from_remote-empty cols rows h
map_rows_from_remote-empty cols ((e ∷ row) ∷ rows) h = ground arith

-- The projection reads the rows under the names of the file: where no row of the file has the selected
-- column's local name as a key, as when the column has another remote name, every row of the answer is
-- empty, whatever the filters, the groups and the page.
pub select_rows-loses_renamed :
    (cols : List Column) (name : Text) (filters : List Filter) (groups : List (List Filter))
    (offset limit : ℕ) (rows : List Fields)
    → all (lacks name) rows ≡ true
    → all is_empty (select_rows cols (name ∷ []) filters groups offset limit rows) ≡ true
unfolding select_rows
select_rows-loses_renamed cols name filters groups offset limit rows h =
    let passed = apply_filters rows (map_filters cols filters) (map_or_groups cols groups) in
    let chosen = apply_select passed (name ∷ []) in
    let lacking =
      apply_filters-all (lacks name) rows (map_filters cols filters) (map_or_groups cols groups)
        h in
    map_rows_from_remote-empty cols (page offset limit chosen) (
      ap (all is_empty) (page-slice offset limit chosen)
      ∙ all-slice is_empty offset limit chosen (apply_select-empty name passed lacking))
