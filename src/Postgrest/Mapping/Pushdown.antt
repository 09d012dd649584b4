-- ===== src/Postgrest/Mapping/Pushdown.antt =====
-- A filter under remote names, on a row under remote names.
use lowcode_wrapper.Base.{
  true, is_some, List, [], ◌∷◌, Text, text_eq, text_eq_iff, ◌≡◌, refl, sym, ap, ◌∙◌, arith, all,
  Bool-cases, inl, inr,
}
use lowcode_wrapper.Models.{Fields, Column}
use lowcode_wrapper.Postgrest.Query.{Filter}
use lowcode_wrapper.Postgrest.Match.{field, match_value, match_filter, match_filters}
use lowcode_wrapper.Postgrest.Mapping.{remote_of, map_row_to_remote, map_filter, map_filters}
use lowcode_wrapper.Postgrest.Mapping.RoundTrip.{
  has_distinct_keys, has_distinct_remotes, has_columns, renamed, to_remote, to_local,
  to_local-to_remote, is_undone, is_undone_columns, map_row_to_remote-renamed,
}

module _ (f g : Text → Text) where
  same_key :
      (k j : Text)
      → text_eq (g (f k)) k ≡ true
      → text_eq (g (f j)) j ≡ true
      → text_eq (f k) (f j) ≡ text_eq k j
  same_key k j a b =
      let back : g (f k) ≡ k = (text_eq_iff (g (f k)) k).0 a in
      let back' : g (f j) ≡ j = (text_eq_iff (g (f j)) j).0 b in
      elim (Bool-cases (text_eq (f k) (f j))) [
        | inl same ↦
            let one : k ≡ j = sym back ∙ ap g ((text_eq_iff (f k) (f j)).0 same) ∙ back' in
            same ∙ sym ((text_eq_iff k j).1 one)
        | inr other ↦ elim (Bool-cases (text_eq k j)) [
          | inl same ↦
              absurd (ground (arith, (text_eq_iff (f k) (f j)).1 (ap f ((text_eq_iff k j).0 same))))
          | inr apart ↦ other ∙ sym apart
        ]
      ]

  field-renamed :
      (k : Text) (row : Fields)
      → text_eq (g (f k)) k ≡ true
      → is_undone f g row ≡ true
      → field (f k) (renamed f row) ≡ field k row
  unfolding field
  field-renamed k [] a u = refl
  field-renamed k ((j, w) ∷ row) a u = ground (arith, same_key j k, field-renamed k row)

match_filter-renamed :
    (cols : List Column) (row : Fields) (f : Filter)
    → has_distinct_remotes cols ≡ true
    → has_columns cols row ≡ true
    → is_some (remote_of cols f.column) ≡ true
    → match_filter (renamed (to_remote cols) row) (map_filter cols f) ≡ match_filter row f
unfolding match_filter map_filter
match_filter-renamed cols row f d h c =
    let back : text_eq (to_local cols (to_remote cols f.column)) f.column ≡ true =
      (text_eq_iff (to_local cols (to_remote cols f.column)) f.column).1
        (to_local-to_remote cols f.column d c) in
    ap (match_value f.op f.value) (
      field-renamed (to_remote cols) (to_local cols) f.column row back
        (is_undone_columns cols row d h))

match_filters-renamed :
    (cols : List Column) (row : Fields) (filters : List Filter)
    → has_distinct_remotes cols ≡ true
    → has_columns cols row ≡ true
    → all (λ (f : Filter). is_some (remote_of cols f.column)) filters ≡ true
    → match_filters (renamed (to_remote cols) row) (map_filters cols filters)
      ≡ match_filters row filters
unfolding match_filters map_filters
match_filters-renamed cols row [] d h c = refl
match_filters-renamed cols row (f ∷ filters) d h c =
    let here = match_filter-renamed cols row f d h (ground arith) in
    let rest = match_filters-renamed cols row filters d h (ground arith) in
    ground (arith, here, rest)

-- Filters may be pushed to the remote side: where no two columns have one remote name, a row whose
-- keys are distinct names of columns, renamed by `MapRowToRemote`, satisfies the filters that
-- `MapFilters` renames exactly where the row satisfies the filters, if each filter is on a column.
pub match_filters-map_filters :
    (cols : List Column) (row : Fields) (filters : List Filter)
    → has_distinct_remotes cols ≡ true
    → has_columns cols row ≡ true
    → has_distinct_keys row ≡ true
    → all (λ (f : Filter). is_some (remote_of cols f.column)) filters ≡ true
    → match_filters (map_row_to_remote cols row) (map_filters cols filters)
      ≡ match_filters row filters
match_filters-map_filters cols row filters d h k c =
    ap (λ r. match_filters r (map_filters cols filters)) (map_row_to_remote-renamed cols row d h k)
    ∙ match_filters-renamed cols row filters d h c
