-- ===== src/Drivers/File.antt =====
-- internal/driver/file/file.go: a select over the rows of a file. The libraries that read the formats
-- are outside: the rows are what they return, under the names of the file.
pub mod Paging
pub mod Local
pub mod Projection
use lowcode_wrapper.Base.{
  ℕ, Bool, true, false, not, ◌&&◌, Option, none, some, List, [], ◌∷◌, ◌++◌, map, Text, text,
  text_eq, trim_space, to_lower, index, has_suffix, keep, take, drop, length, ltb, leb, ◌==◌,
  is_empty, if◌then◌else◌,
}
use lowcode_wrapper.Models.{Value, Fields, Column}
use lowcode_wrapper.Postgrest.Query.{Filter}
use lowcode_wrapper.Postgrest.Match.{field, match_query}
use lowcode_wrapper.Postgrest.Mapping.{set_field, map_filters, map_rows_from_remote}

unfoldable pub apply_filters : List Fields → List Filter → List (List Filter) → List Fields
unfolding match_query
apply_filters rows filters or_groups =
    if is_empty filters && is_empty or_groups
    then rows
    else keep (λ row. match_query row filters or_groups) rows

unfoldable pub map_or_groups : List Column → List (List Filter) → List (List Filter)
unfolding map_filters
map_or_groups cols groups = map (map_filters cols) groups

-- The loop over the columns that fills one row.
unfoldable pub select_fields : Fields → List Text → Fields → Fields
unfolding field set_field
select_fields row [] m = m
select_fields row (c ∷ cols) m = elim (field c row) [
  | none ↦ select_fields row cols m
  | some v ↦ select_fields row cols (set_field c v m)
]

unfoldable pub apply_select : List Fields → List Text → List Fields
unfolding select_fields
apply_select rows cols = if is_empty cols then rows else map (λ row. select_fields row cols []) rows

-- The rows from the offset, as many as the limit; a limit of 0 is none.
unfoldable pub page : {A : Type 0} → ℕ → ℕ → List A → List A
page offset limit rows =
    let from =
      if ltb 0 offset && ltb offset (length rows)
      then drop offset rows
      else if leb (length rows) offset
      then []
      else rows in
    if ltb 0 limit && ltb limit (length from) then take limit from else from

-- `Select` after the file was read.
unfoldable pub select_rows :
    List Column → List Text → List Filter → List (List Filter) → ℕ → ℕ → List Fields → List Fields
unfolding apply_filters map_or_groups apply_select page map_filters map_rows_from_remote
select_rows cols selected filters or_groups offset limit rows = map_rows_from_remote cols (
    page offset limit (
      apply_select (apply_filters rows (map_filters cols filters) (map_or_groups cols or_groups))
        selected))
