-- ===== src/Postgrest/Mapping.antt =====
-- query.go: local column names and remote ones. A `map[string]any` is walked in the order of its
-- list; Go leaves that order open.
pub mod RoundTrip
pub mod Pushdown
use lowcode_wrapper.Base.{
  Bool, Option, none, some, or_else, List, [], ◌∷◌, Text, text_eq, if◌then◌else◌, map, is_empty,
}
use lowcode_wrapper.Models.{Value, Fields, Column, remote_column_name}
use lowcode_wrapper.Postgrest.Query.{Filter}

-- A read of the map that a loop over the columns fills: the last column with the key wins.
unfoldable pub last_of : (Column → Text) → (Column → Text) → List Column → Text → Option Text
last_of key val [] k = none
last_of key val (c ∷ cols) k = elim (last_of key val cols k) [
  | some r ↦ some r
  | none ↦ if text_eq (key c) k then some (val c) else none
]

-- `colMap` and `localToRemote`
unfoldable pub remote_of : List Column → Text → Option Text
unfolding last_of
remote_of = last_of (λ c. c.name) remote_column_name

-- `remoteToLocal`
unfoldable pub local_of : List Column → Text → Option Text
unfolding last_of
local_of = last_of remote_column_name (λ c. c.name)

-- `out[key] = v`
unfoldable pub set_field : Text → Value → Fields → Fields
set_field key v [] = (key, v) ∷ []
set_field key v ((k, w) ∷ row) =
    let rest = set_field key v row in if text_eq k key then (k, v) ∷ row else (k, w) ∷ rest

-- The loop that fills `out` with the row under new names; a name that is not in the map stays.
unfoldable pub rename_fields : (Text → Option Text) → Fields → Fields → Fields
unfolding set_field
rename_fields names out [] = out
rename_fields names out ((k, v) ∷ row) =
    rename_fields names (set_field (or_else (names k) k) v out) row

unfoldable pub map_row_to_remote : List Column → Fields → Fields
unfolding rename_fields remote_of
map_row_to_remote cols row = rename_fields (remote_of cols) [] row

unfoldable pub map_filter : List Column → Filter → Filter
unfolding remote_of
map_filter cols f = record f { column = or_else (remote_of cols f.column) f.column }

unfoldable pub map_filters : List Column → List Filter → List Filter
unfolding map_filter
map_filters cols filters = map (map_filter cols) filters

unfoldable pub map_rows_from_remote : List Column → List Fields → List Fields
unfolding rename_fields local_of
map_rows_from_remote cols rows = map (rename_fields (local_of cols) []) rows
