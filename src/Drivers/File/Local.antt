-- ===== src/Drivers/File/Local.antt =====
-- A select over a file, seen under the local names.
use lowcode_wrapper.Base.{
  ℕ, Bool, true, is_some, List, [], ◌∷◌, map, keep, all, all-keep, keep-all, ◌≡◌, refl, sym, ap,
  ◌∙◌, arith, Bool-cases, inl, inr,
}
use lowcode_wrapper.Models.{Fields, Column}
use lowcode_wrapper.Postgrest.Query.{Filter}
use lowcode_wrapper.Postgrest.Match.{match_filters, match_query}
use lowcode_wrapper.Postgrest.Mapping.{
  remote_of, map_row_to_remote, map_filters, map_rows_from_remote,
}
use lowcode_wrapper.Postgrest.Mapping.RoundTrip.{
  has_distinct_keys, has_distinct_remotes, has_columns, map_rows_from_remote-map_row_to_remote,
}
use lowcode_wrapper.Postgrest.Mapping.Pushdown.{match_filters-map_filters}
use lowcode_wrapper.Drivers.File.{apply_filters, map_or_groups, apply_select, page, select_rows}
use lowcode_wrapper.Drivers.File.Paging.{slice, page-slice, slice-map, all-slice}

-- Every filter is on a column.
abbrev pub on_columns : List Column → List Filter → Bool
on_columns cols = all (λ (f : Filter). is_some (remote_of cols f.column))

all_match : (rows : List Fields) → all (λ row. match_query row [] []) rows ≡ true
unfolding match_query match_filters
all_match [] = refl
all_match (row ∷ rows) = all_match rows

-- With no filter, all rows pass.
apply_filters-keep :
    (rows : List Fields) (filters : List Filter)
    → apply_filters rows filters [] ≡ keep (λ row. match_query row filters []) rows
unfolding apply_filters
apply_filters-keep rows [] = sym (keep-all (λ row. match_query row [] []) rows (all_match rows))
apply_filters-keep rows (f ∷ filters) = refl

module _ (cols : List Column) (filters : List Filter) (d : has_distinct_remotes cols ≡ true)
    (c : on_columns cols filters ≡ true) where
  keep_sent :
      (rows : List Fields)
      → all (has_columns cols) rows ≡ true
      → all has_distinct_keys rows ≡ true
      → keep (λ r. match_query r (map_filters cols filters) []) (map (map_row_to_remote cols) rows)
        ≡ map (map_row_to_remote cols) (keep (λ r. match_filters r filters) rows)
  unfolding match_query
  keep_sent [] h k = refl
  keep_sent (row ∷ rows) h k =
      let here = match_filters-map_filters cols row filters d (ground arith) (ground arith) c in
      let rest = keep_sent rows (ground arith) (ground arith) in
      elim (Bool-cases (match_filters row filters)) [
        | inl holds ↦ rw (here, holds) (ap (λ rs. map_row_to_remote cols row ∷ rs) rest)
        | inr fails ↦ rw (here, fails) rest
      ]

  -- A select without a projection and without groups of filters (the `or` parameter), over a file that holds rows under the remote names of the columns:
  -- its answer is the rows under the local names that satisfy the filters, in the order of the file,
  -- from the offset and up to the limit. Here no two columns have one remote name, the filters are on
  -- columns, and each row has one entry per key and only names of columns as keys.
  pub select_rows-local :
      (offset limit : ℕ) (rows : List Fields)
      → all (has_columns cols) rows ≡ true
      → all has_distinct_keys rows ≡ true
      → select_rows cols [] filters [] offset limit (map (map_row_to_remote cols) rows)
        ≡ slice offset limit (keep (λ r. match_filters r filters) rows)
  unfolding select_rows apply_select map_or_groups
  select_rows-local offset limit rows h k =
      let local = keep (λ r. match_filters r filters) rows in
      let send = map_row_to_remote cols in
      let filtered =
        apply_filters-keep (map send rows) (map_filters cols filters) ∙ keep_sent rows h k in
      ap (λ rs. map_rows_from_remote cols (page offset limit rs)) filtered
      ∙ ap (map_rows_from_remote cols)
          (page-slice offset limit (map send local) ∙ slice-map send offset limit local)
      ∙ map_rows_from_remote-map_row_to_remote cols (slice offset limit local) d
          (all-slice (has_columns cols) offset limit local (all-keep _ (has_columns cols) rows h))
          (all-slice has_distinct_keys offset limit local (all-keep _ has_distinct_keys rows k))
